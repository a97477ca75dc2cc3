-- ===== src/Chrono/Sample.antt =====
-- A calendar that counts days, with times of day that hold their seconds: the laws asked of chrono
-- can be met, and the model can be run.
use yaroc.Prelude.{ℕ, ◌+◌, ◌-◌, ◌/◌, ◌%◌, ◌≤◌, ◌<◌, ◌≡◌, refl, arith, Option, none, some, ◌&&◌}
use yaroc.Prelude.{ltb, leb, if◌then◌else◌, not, ◌==◌, ◌||◌}
use yaroc.Chrono.{Chrono}

pub record ClockTime : Type 0 where
  pub secs : ℕ
  pub nanos : ℕ

-- A leap second is told by the nanoseconds beyond a second.
abbrev clock_time : ℕ → ℕ → Option ClockTime
clock_time s n =
    if leb 86_400 s || leb 1_000_000_000 n && not (s % 60 == 59)
    then none
    else some (record { secs = s; nanos = n })

abbrev days_back : ℕ → ℕ → Option ℕ
days_back d n = if ltb d n then none else some (d - n)

pub clock_time_law :
    (s n : ℕ)
    → s < 86_400
    → n < 1_000_000_000
    → (t : ClockTime) × (clock_time s n ≡ some t) × (t.secs % 86_400 ≡ s) × (t.nanos ≡ n)
clock_time_law s n p q = (record { secs = s; nanos = n }, ground arith, omega arith, refl)

pub days_back_law : (d n : ℕ) → n ≤ d → (e : ℕ) × (days_back d n ≡ some e) × (e + n ≡ d)
days_back_law d n h = (d - n, ground arith, omega arith)

pub days_back-none : (d n : ℕ) → d < n → days_back d n ≡ none
days_back-none d n h = ground arith

pub clock_time-none : (s n : ℕ) → 86_400 ≤ s → clock_time s n ≡ none
clock_time-none s n h = ground arith

pub below_day : (t : ClockTime) → t.secs % 86_400 < 86_400
below_day t = omega arith

-- Day 0 is a Sunday.
abbrev pub sample : Chrono
sample = record {
  Date = ℕ;
  Time = ClockTime;
  day_number = λ d. d;
  num_days_from_sunday = λ d. d % 7;
  checked_sub_days = days_back;
  from_num_seconds = clock_time;
  hour = λ t. t.secs % 86_400 / 3600;
  num_seconds_from_midnight = λ t. t.secs % 86_400;
  nanosecond = λ t. t.nanos;
  day_number_injective = λ d e h. h;
  earliest_weekday = 0;
  weekday_law = λ d. omega arith;
  sub_days_law = days_back_law;
  sub_days_none = days_back-none;
  from_num_seconds_law = clock_time_law;
  from_num_seconds_none = clock_time-none;
  num_seconds_below = below_day;
  hour_law = λ t. refl;
}
