-- ===== src/Python/Status/Tests.antt =====
-- The theorem on python/src/status.rs at a node that has punched three times, twice at one control.
use yaroc.Prelude.{ℕ, ◌≡◌, refl, true, ◌||◌, none, some, List, [], ◌∷◌}
use yaroc.Prelude.Int.{negsuc}
use yaroc.Prelude.Text.{codes}
use yaroc.Python.Status.{Punch, CellularRocStatus, contains, serialize_cellular, mqtt_connected}
use yaroc.Python.Status.Codes.{NoRepeats, after, serialize_cellular-after}

abbrev at_control : ℕ → ℕ → Punch ℕ ℕ ℕ
at_control code time = record { code = code; time = time }

abbrev visits : List (Punch ℕ ℕ ℕ)
visits = at_control 31 10 ∷ at_control 47 20 ∷ at_control 31 30 ∷ []

abbrev node : CellularRocStatus ℕ ℕ ℕ
node = record {
  name = codes "ROC1";
  state = mqtt_connected (negsuc 79) 5 none;
  voltage = none;
  codes = 60 ∷ [];
  last_update = some 5;
  last_punch = some 4;
}

no_repeats : NoRepeats (60 ∷ [])
unfolding contains
no_repeats = (refl, tt)

serialize_cellular-after_example :
    let info = serialize_cellular ℕ ℕ ℕ (λ z. 0) (after ℕ ℕ ℕ visits node) in
    let before = serialize_cellular ℕ ℕ ℕ (λ z. 0) node in
    (contains 31 info.codes ≡ (true || contains 31 before.codes))
    × NoRepeats info.codes
    × (info.last_punch ≡ some 30)
    × (info.cellid ≡ before.cellid)
    × (info.last_update ≡ before.last_update)
serialize_cellular-after_example = serialize_cellular-after ℕ ℕ ℕ (λ z. 0) 31 visits node no_repeats
