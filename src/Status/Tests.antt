-- ===== src/Status/Tests.antt =====
-- The theorems on common/src/status.rs at concrete inputs.
use yaroc.Prelude.{ℕ, ◌+◌, ◌-◌, ◌≡◌, refl, arith, Option, none, some, length}
use yaroc.Prelude.{ltb, if◌then◌else◌}
use yaroc.Prelude.Int.{pos}
use yaroc.Prelude.Numbers.{parse_unsigned}
use yaroc.Prelude.Result.{ok, panic}
use yaroc.Prelude.Text.{codes, slice}
use yaroc.Status.{Times, MiniCallHome, new, parse_qlts}
use yaroc.Status.ModemClock.{clock, parse_qlts-clock, parse_qlts_short}

abbrev minus : ℕ → ℕ → Option ℕ
minus t n = if ltb t n then none else some (t - n)

pub minus_plus : (t u n : ℕ) → minus t n ≡ some u → some (u + n) ≡ some t
minus_plus t u n h = ground arith

-- Times that count milliseconds.
abbrev pub counted : Times
counted = record {
  NaiveDateTime = ℕ;
  Time = ℕ;
  parse_from_str = λ s. some (length s);
  and_local_timezone = λ offset date. date;
  checked_sub = minus;
  checked_add = λ t n. some (t + n);
  timestamp_millis = pos;
  add_back = minus_plus;
}

abbrev fresh : MiniCallHome counted ℕ
fresh = new counted ℕ 9

parse_qlts-clock_example :
    parse_qlts counted (clock (codes "2024/11/25,22:12:11") 45 48 52 (codes "extra")) ≡ ok 19
unfolding parse_unsigned
parse_qlts-clock_example =
    parse_qlts-clock counted (codes "2024/11/25,22:12:11") (codes "extra") 45 48 52 19 4 refl refl
      refl

parse_qlts_short_example : parse_qlts counted (codes "2024/11/25") ≡ panic
parse_qlts_short_example = parse_qlts_short counted (codes "2024/11/25") (omega arith)

pub clock_time : parse_qlts counted (codes "2024/11/25,22:12:11+04,0") ≡ ok 19
unfolding parse_qlts slice parse_unsigned
clock_time = refl
