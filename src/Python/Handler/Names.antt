-- ===== src/Python/Handler/Names.antt =====
-- The names of nodes by their addresses, in python/src/message_handler.rs.
use yaroc.Prelude.{
  ◌<◌, ◌≡◌, refl, ◌∙◌, ap, sym, Bool, true, false, Option, none, some, List, [], ◌∷◌,
}
use yaroc.Prelude.{if◌then◌else◌}
use yaroc.Prelude.Dict.{get, insert, get-insert, or_else}
use yaroc.Prelude.Result.{Result, ok, >>=-eq-ok, ok_injective}
use yaroc.Prelude.Text.{Text, codes}
use yaroc.Error.{Error}
use yaroc.Python.Addresses.{mac_eq, mac_beq}
use yaroc.Python.Addresses.Display.{display, display_meshtastic, display_full}
use yaroc.Python.Handler.{MessageHandler, read_entry, read_entries, new, resolve}
use yaroc.Python.Meshtastic.{resolve_in}
use yaroc.Python.Punches.{MacAddress, full, meshtastic}
use yaroc.Python.Server.{Server}

-- An address of 32 bits of a Meshtastic node, or of 48 bits.
abbrev pub IsAddress : MacAddress → Type 0
IsAddress (meshtastic n) = n < 4_294_967_296
IsAddress (full n) = n < 281_474_976_710_656

-- An address is read back from the text by which Python gets it.
pub read_entry-display :
    (mac_addr : MacAddress) (name : Text)
    → IsAddress mac_addr
    → read_entry (display mac_addr, name) ≡ ok (mac_addr, name)
unfolding read_entry
read_entry-display (meshtastic n) name h =
    let (long, parses) = display_meshtastic n h in rw (long, parses) refl
read_entry-display (full n) name h = let (long, parses) = display_full n h in rw (long, parses) refl

-- The name in the last of the entries for the address.
abbrev pub named_by : Result Error (MacAddress × Text) → MacAddress → Option Text → Option Text
named_by (ok (mac_addr, name)) wanted none = if mac_beq mac_addr wanted then some name else none
named_by _ wanted later = later

pub last_name : List (Text × Text) → MacAddress → Option Text
last_name [] wanted = none
last_name (entry ∷ entries) wanted = named_by (read_entry entry) wanted (last_name entries wanted)

abbrev or_before : Option Text → Option Text → Option Text
or_before none before = before
or_before (some name) before = some name

nothing_before : (o : Option Text) → or_before o none ≡ o
nothing_before none = refl
nothing_before (some name) = refl

one_before :
    (o : Option Text) (same : Bool) (name : Text) (before : Option Text)
    (mac_addr wanted : MacAddress)
    → mac_beq mac_addr wanted ≡ same
    → or_before o (if same then some name else before)
      ≡ or_before (named_by (ok (mac_addr, name)) wanted o) before
one_before (some later) same name before mac_addr wanted h = refl
one_before none true name before mac_addr wanted h = rw h refl
one_before none false name before mac_addr wanted h = rw h refl

get-read_entries :
    (entries : List (Text × Text)) (dns found : List (MacAddress × Text)) (wanted : MacAddress)
    → read_entries dns entries ≡ ok found
    → get wanted found ≡ or_before (last_name entries wanted) (get wanted dns)
unfolding read_entries last_name
get-read_entries [] dns found wanted h = ap (get wanted) (sym (ok_injective h))
get-read_entries (entry ∷ entries) dns found wanted h =
    let (resolved, reads, rest) = >>=-eq-ok (read_entry entry) _ h in
    rw reads (
      get-read_entries entries (insert resolved.0 resolved.1 dns) found wanted rest
      ∙ ap (or_before (last_name entries wanted)) (get-insert wanted resolved.0 resolved.1 dns)
      ∙ one_before (last_name entries wanted) (mac_beq resolved.0 wanted) resolved.1
          (get wanted dns) resolved.0 wanted refl)

module _ (server : Server) where
  -- A handler that could be made resolves an address to the name in the last entry for it, and to
  -- "Unknown" if there is none.
  pub resolve-new :
      (entries : List (Text × Text)) (self : MessageHandler server) (wanted : MacAddress)
      → new server entries ≡ ok self
      → resolve server self wanted ≡ or_else (codes "Unknown") (last_name entries wanted)
  unfolding new resolve resolve_in
  resolve-new entries self wanted h =
      let (dns, reads, made) = >>=-eq-ok (read_entries [] entries) _ h in
      ap (λ (handler : MessageHandler server). or_else (codes "Unknown") (get wanted handler.dns))
        (sym (ok_injective made))
      ∙ ap (or_else (codes "Unknown"))
          (get-read_entries entries [] dns wanted reads ∙ nothing_before (last_name entries wanted))
