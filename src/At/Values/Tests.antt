-- ===== src/At/Values/Tests.antt =====
-- The theorems on common/src/at/response.rs at concrete answers.
use yaroc.Prelude.{ℕ, zero, suc, ◌≤◌, ◌≡◌, refl, arith, List, [], ◌∷◌, ◌++◌, length, All}
use yaroc.Prelude.Text.{Text, codes, starts_with, find, slice}
use yaroc.Prelude.Result.{ok, panic}
use yaroc.Prelude.Numbers.{parse_unsigned}
use yaroc.At.Types.{CommandResponse}
use yaroc.At.Values.{
  split_at_response, quoted_value, plain_value, split_value, split_values_loop, split_values, new,
  command, values, parse_values, parse_all, pick_values, picked, all_below,
}
use yaroc.At.Values.RoundTrip.{Item, raw, quoted, printed, IsItem, split_values-printed}
use yaroc.At.Values.Names.{colon, space, answer}
use yaroc.At.Values.Answers.{new-printed, new_sound}
use yaroc.At.Values.Overflow.{front, split_values_ninth}

-- `1,"a,b",15`.
abbrev three : List Item
three = raw (codes "1") ∷ quoted (codes "a,b") ∷ raw (codes "15") ∷ []

three_items : All IsItem three
three_items = (
  (omega arith, (omega arith, tt)),
  (
    (λ e. omega arith, (λ e. omega arith, (λ e. omega arith, tt))),
    ((omega arith, (omega arith, (omega arith, tt))), tt),
  ),
)

split_values-printed_example :
    split_values (printed three) ≡ ok (codes "1" ∷ codes "a,b" ∷ codes "15" ∷ [])
split_values-printed_example =
    split_values-printed three three_items (λ e. absurd (cc (e))) (omega arith)

abbrev name : Text
name = codes "CREG"

new-printed_example :
    (r : CommandResponse) × (new (answer name (printed three)) ≡ ok r)
    × (command r ≡ ok name)
    × (values r ≡ ok (codes "1" ∷ codes "a,b" ∷ codes "15" ∷ []))
new-printed_example =
    new-printed name three (omega arith, (omega arith, (omega arith, (omega arith, tt))))
      three_items (λ e. absurd (cc (e))) (omega arith) (omega arith)

-- The response that `+CREG: 0,5` is made into.
abbrev registered : CommandResponse
registered = record { line = codes "+CREG: 0,5"; prefix = record { start = 1; end = 5 } }

made : new (codes "+CREG: 0,5") ≡ ok registered
unfolding new split_at_response split_values split_values_loop split_value plain_value quoted_value
    starts_with find slice
made = refl

new_sound_example :
    (n : Text) × (rest : Text) × (vs : List Text) × (codes "+CREG: 0,5" ≡ answer n rest)
    × ((front back : Text)
        → codes "+CREG: 0,5" ≡ front ++ colon ∷ space ∷ back
        → suc (length n) ≤ length front)
    × (command registered ≡ ok n)
    × (split_values rest ≡ ok vs)
    × (values registered ≡ ok vs)
    × (registered.line ≡ codes "+CREG: 0,5")
    × (length (codes "+CREG: 0,5") ≤ 90)
new_sound_example = new_sound (codes "+CREG: 0,5") registered made

-- Eight values of one digit.
abbrev digits : ℕ → List Item
digits zero = []
digits (suc n) = raw (codes "7") ∷ digits n

digits_items : (n : ℕ) → All IsItem (digits n)
digits_items zero = tt
digits_items (suc n) = ((omega arith, (omega arith, tt)), digits_items n)

split_values_ninth_example : split_values (front (digits 8) (codes "\"x\"")) ≡ panic
split_values_ninth_example =
    split_values_ninth (digits 8) (quoted (codes "x")) (digits_items 8) (λ e. omega arith, tt)
      (λ e. absurd (cc (e))) refl

-- The report on the first message, after two retries.
abbrev pub report : CommandResponse
report = record { line = codes "+QMTPUB: 0,1,0,2"; prefix = record { start = 1; end = 7 } }

pub report_command : command report ≡ ok (codes "QMTPUB")
unfolding command slice
report_command = refl

pub report_values : parse_values (parse_unsigned 10 256) report ≡ ok (0 ∷ 1 ∷ 0 ∷ 2 ∷ [])
unfolding parse_values parse_all values split_values split_values_loop split_value plain_value
    quoted_value starts_with find slice parse_unsigned
report_values = refl

-- A report without its result.
abbrev short_report : CommandResponse
short_report = record { line = codes "+QMTPUB: 0,1"; prefix = record { start = 1; end = 7 } }

short_command : command short_report ≡ ok (codes "QMTPUB")
unfolding command slice
short_command = refl

short_values : parse_values (parse_unsigned 10 256) short_report ≡ ok (0 ∷ 1 ∷ [])
unfolding parse_values parse_all values split_values split_values_loop split_value plain_value
    quoted_value starts_with find slice parse_unsigned
short_values = refl

-- What the modem answers when it is asked for its clock.
abbrev pub clock_answer : CommandResponse
clock_answer = record {
  line = codes "+QLTS: \"2024/11/25,22:12:11+04,0\"";
  prefix = record { start = 1; end = 5 };
}

pub clock_command : command clock_answer ≡ ok (codes "QLTS")
unfolding command slice
clock_command = refl

pub clock_values : values clock_answer ≡ ok (codes "2024/11/25,22:12:11+04,0" ∷ [])
unfolding values split_values split_values_loop split_value plain_value quoted_value starts_with
    find slice
clock_values = refl

pub clock_picked : pick_values clock_answer (0 ∷ []) ≡ ok (codes "2024/11/25,22:12:11+04,0" ∷ [])
unfolding pick_values picked all_below
clock_picked = rw clock_values
