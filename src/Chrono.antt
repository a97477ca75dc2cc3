-- ===== src/Chrono.antt =====
-- What the program uses of the chrono crate (its dates and its times of day), which is not part of
-- the repository: a parameter of the model, with the documented laws that the code relies on.
pub mod Sample
use yaroc.Prelude.{ℕ, ◌+◌, ◌/◌, ◌%◌, ◌≤◌, ◌<◌, ◌≡◌, Option, none, some}

pub record Chrono : Type 1 where
  -- `NaiveDate` and `NaiveTime`.
  pub Date : Type 0
  pub Time : Type 0
  -- The days since the earliest date that a `NaiveDate` can be.
  pub day_number : Date → ℕ
  pub num_days_from_sunday : Date → ℕ
  pub checked_sub_days : Date → ℕ → Option Date
  -- `NaiveTime::from_num_seconds_from_midnight_opt`: the seconds, then the nanoseconds.
  pub from_num_seconds : ℕ → ℕ → Option Time
  pub hour : Time → ℕ
  pub num_seconds_from_midnight : Time → ℕ
  pub nanosecond : Time → ℕ
  -- A date is known by its number, and the weekdays go round.
  pub day_number_injective : (d e : Date) → day_number d ≡ day_number e → d ≡ e
  pub earliest_weekday : ℕ
  pub weekday_law : (d : Date) → num_days_from_sunday d ≡ (day_number d + earliest_weekday) % 7
  pub sub_days_law :
      (d : Date) (n : ℕ)
      → n ≤ day_number d
      → (e : Date) × (checked_sub_days d n ≡ some e) × (day_number e + n ≡ day_number d)
  pub sub_days_none : (d : Date) (n : ℕ) → day_number d < n → checked_sub_days d n ≡ none
  -- Seconds of a day make a time of day, which has those seconds; any other number makes none.
  pub from_num_seconds_law :
      (s n : ℕ)
      → s < 86_400
      → n < 1_000_000_000
      → (t : Time) × (from_num_seconds s n ≡ some t)
        × (num_seconds_from_midnight t ≡ s)
        × (nanosecond t ≡ n)
  pub from_num_seconds_none : (s n : ℕ) → 86_400 ≤ s → from_num_seconds s n ≡ none
  pub num_seconds_below : (t : Time) → num_seconds_from_midnight t < 86_400
  pub hour_law : (t : Time) → hour t ≡ num_seconds_from_midnight t / 3600

-- `NaiveDateTime`.
pub record DateTime (c : Chrono) : Type 0 where
  pub date : c.Date
  pub time : c.Time
