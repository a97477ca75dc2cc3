-- ===== src/At/Values/RoundTrip.antt =====
-- `split_values` of common/src/at/response.rs takes apart what a modem writes: values behind one
-- another with commas between, a string in double quotes.
use Prim.Native.Nat.{◌-◌}
use mathlib.Core.Logic.{◌≢◌}
use mathlib.Core.List.{append_assoc, append-nil}
use yaroc.Prelude.{ℕ, zero, suc, ◌+◌, ◌≤◌, ◌<◌, ◌≡◌, refl, ap, ◌∙◌, arith, true, false, ◌&&◌, not}
use yaroc.Prelude.{List, [], ◌∷◌, ◌++◌, map, length, drop, All, ◌==◌}
use yaroc.Prelude.{length-append, drop-append, take-append, lt→leb, le→leb, lt→ltb}
use yaroc.Prelude.Text.{Text, slice, slice_lem}
use yaroc.Prelude.Result.{ok}
use yaroc.Error.{Error}
use yaroc.At.Values.{
  quoted_value, plain_value, split_value, split_values_loop, split_values, quote, comma,
  ends_with_quote,
}
use yaroc.At.Values.Split.{loop_step, NoBreak, find_break, find-NoBreak, find-comma, find_no_comma}

-- A value as the modem writes it.
pub data Item : Type 0 where
  raw : Text → Item
  quoted : Text → Item

abbrev pub value : Item → Text
value (raw v) = v
value (quoted v) = v

abbrev pub written : Item → Text
written (raw v) = v
written (quoted v) = quote ∷ v ++ quote ∷ []

-- Does not begin with a quote.
abbrev pub NotQuoted : Text → Type 0
NotQuoted [] = Unit
NotQuoted (c ∷ s) = c ≢ quote

abbrev pub IsItem : Item → Type 0
IsItem (raw v) = NotQuoted v × All (λ c. c ≢ comma) v
IsItem (quoted v) = NoBreak quote v

abbrev pub printed : List Item → Text
printed [] = []
printed (i ∷ []) = written i
printed (i ∷ j ∷ items) = written i ++ comma ∷ printed (j ∷ items)

-- The last value is not an empty one without quotes, which a line of values cannot show.
abbrev pub EndsWell : List Item → Type 0
EndsWell [] = Unit
EndsWell (i ∷ []) = written i ≢ []
EndsWell (i ∷ j ∷ items) = EndsWell (j ∷ items)

last-append_quote : (c : ℕ) (v : Text) → ends_with_quote (c ∷ v ++ quote ∷ []) ≡ true
last-append_quote c [] = refl
last-append_quote c (d ∷ v) = last-append_quote d v

pub slice_quoted :
    (v rest : Text) → slice {E = Error} (quote ∷ v ++ quote ∷ rest) 1 (suc (length v)) ≡ ok v
slice_quoted v rest =
    let count : suc (length v) - 1 ≡ length v = omega arith in
    slice_lem (quote ∷ v ++ quote ∷ rest) 1 (suc (length v)) (omega arith)
      (omega (arith, length-append v (quote ∷ rest)))
    ∙ ap ok (rw count (take-append (length v) v (quote ∷ rest) refl))

pub slice_plain : (v rest : Text) → slice {E = Error} (v ++ rest) 0 (length v) ≡ ok v
slice_plain v rest =
    let count : length v - 0 ≡ length v = omega arith in
    slice_lem (v ++ rest) 0 (length v) (omega arith) (omega (arith, length-append v rest))
    ∙ ap ok (rw count (take-append (length v) v rest refl))

module _ (split : List Text) (room : length split < 8) where
  quoted_value_lem :
      (v rest : Text)
      → ((suc (length v) == length (v ++ quote ∷ rest))
          && not (ends_with_quote (quote ∷ v ++ quote ∷ rest)))
        ≡ false
      → quoted_value (quote ∷ v ++ quote ∷ rest) split (suc (length v))
        ≡ ok (split ++ v ∷ [], suc (length v) + 1)
  unfolding quoted_value
  quoted_value_lem v rest e =
      let count : suc (length (v ++ quote ∷ rest)) - 1 ≡ length (v ++ quote ∷ rest) = omega arith in
      rw (count, e, slice_quoted v rest, lt→ltb _ _ room)

  plain_value_lem :
      (v rest : Text) → plain_value (v ++ rest) split (length v) ≡ ok (split ++ v ∷ [], length v)
  unfolding plain_value
  plain_value_lem v rest = rw (slice_plain v rest, lt→ltb _ _ room)

  not_closing :
      (v rest : Text)
      → ((suc (length v) == length (v ++ quote ∷ comma ∷ rest))
          && not (ends_with_quote (quote ∷ v ++ quote ∷ comma ∷ rest)))
        ≡ false
  not_closing v rest = ground (arith, length-append v (quote ∷ comma ∷ rest))

  pub not_open :
      (v : Text)
      → ((suc (length v) == length (v ++ quote ∷ []))
          && not (ends_with_quote (quote ∷ v ++ quote ∷ [])))
        ≡ false
  not_open v = rw (last-append_quote quote v) (ground arith)

  pub closed : (v : Text) → suc (length (v ++ quote ∷ [])) ≡ suc (length v) + 1
  closed v = omega (arith, length-append v (quote ∷ []))

  pub value_more :
      (i : Item) (rest : Text)
      → IsItem i
      → split_value (written i ++ comma ∷ rest) split
        ≡ ok (split ++ value i ∷ [], length (written i))
  unfolding split_value
  value_more (raw []) rest h = rw (find-comma [] rest tt) (plain_value_lem [] (comma ∷ rest))
  value_more (raw (c ∷ v)) rest h =
      let plain : (c == quote) ≡ false = ground arith in
      rw (plain, find-comma (c ∷ v) rest h.1) (plain_value_lem (c ∷ v) (comma ∷ rest))
  value_more (quoted v) rest h =
      rw (append_assoc v (quote ∷ []) (comma ∷ rest), find_break quote v rest h)
        (quoted_value_lem v (comma ∷ rest) (not_closing v rest) ∙ rw (closed v))

  value_last :
      (i : Item)
      → IsItem i
      → written i ≢ []
      → split_value (written i) split ≡ ok (split ++ value i ∷ [], length (written i))
  unfolding split_value
  value_last (raw []) h e = absurd (e refl)
  value_last (raw (c ∷ v)) h e =
      let plain : (c == quote) ≡ false = ground arith in
      rw (plain, find_no_comma (c ∷ v) h.1)
        (rw (append-nil (c ∷ v)) at (plain_value_lem (c ∷ v) []))
  value_last (quoted v) h e =
      let last : suc (length (v ++ quote ∷ [])) - 1 ≡ suc (length v) = omega (arith, closed v) in
      rw (find-NoBreak quote v h, last) (quoted_value_lem v [] (not_open v) ∙ rw (closed v))

length-written-printed :
    (i j : Item) (items : List Item)
    → length (printed (i ∷ j ∷ items)) ≡ length (written i) + 1 + length (printed (j ∷ items))
length-written-printed i j items =
    omega (arith, length-append (written i) (comma ∷ printed (j ∷ items)))

pub drop_past : (w : Text) (c : ℕ) (rest : Text) → drop (length w + 1) (w ++ c ∷ rest) ≡ rest
drop_past w c rest =
    rw (← append_assoc w (c ∷ []) rest)
      (drop-append (length w + 1) (w ++ c ∷ []) rest (length-append w (c ∷ [])))

pub nonempty : (w : Text) (c : ℕ) (rest : Text) → w ++ c ∷ rest ≢ []
nonempty [] c rest e = cc
nonempty (x ∷ w) c rest e = cc

pos_of_nonempty : (w : Text) → w ≢ [] → 0 < length w
pos_of_nonempty [] h = absurd (h refl)
pos_of_nonempty (x ∷ w) h = omega arith

-- The loop takes the items that are left, and puts their values behind those that it has.
loop-printed :
    (items : List Item) (split : List Text) (fuel : ℕ)
    → All IsItem items
    → EndsWell items
    → length split + length items ≤ 8
    → length (printed items) ≤ fuel
    → split_values_loop fuel (printed items) split ≡ ok (split ++ map value items)
loop-printed [] split zero h e room enough = unfold split_values_loop in rw (append-nil split)
loop-printed [] split (suc fuel) h e room enough = unfold split_values_loop in rw (append-nil split)
loop-printed (i ∷ []) split zero h e room enough =
    absurd (omega (arith, pos_of_nonempty (written i) e))
loop-printed (i ∷ []) split (suc fuel) h e room enough = rw (
  loop_step fuel (written i) split e,
  value_last split (omega arith) i h.0 e,
  le→leb (length (written i)) (length (written i)) (omega arith),
)
loop-printed (i ∷ j ∷ items) split zero h e room enough =
    absurd (omega (arith, length-written-printed i j items))
loop-printed (i ∷ j ∷ items) split (suc fuel) h e room enough =
    let rest = printed (j ∷ items) in
    let size = length-written-printed i j items in
    let more = length-append split (value i ∷ []) in
    rw (
      loop_step fuel (written i ++ comma ∷ rest) split (nonempty (written i) comma rest),
      value_more split (omega arith) i rest h.0,
      lt→leb (length (written i ++ comma ∷ rest)) (length (written i)) (omega (arith, size)),
      drop_past (written i) comma rest,
      loop-printed (j ∷ items) (split ++ value i ∷ []) fuel h.1 e (omega (arith, more))
          (omega (arith, size)),
      append_assoc split (value i ∷ []) (map value (j ∷ items)),
    )

-- A line of up to eight values, some in double quotes, is split into the values without the quotes:
-- a value without quotes has no comma and does not begin with a quote, one in quotes has no comma
-- behind a quote, and the last is not an empty one without quotes.
pub split_values-printed :
    (items : List Item)
    → All IsItem items
    → EndsWell items
    → length items ≤ 8
    → split_values (printed items) ≡ ok (map value items)
unfolding split_values
split_values-printed items h e room =
    loop-printed items [] (length (printed items)) h e (omega arith) (omega arith)
