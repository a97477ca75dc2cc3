-- ===== src/Punch/Clock.antt =====
-- Dates and times of day in a punch: `bytes_to_datetime` and `time_to_bytes` of
-- common/src/punch.rs.
use yaroc.Prelude.{ℕ, ◌+◌, ◌*◌, ◌/◌, ◌%◌, ◌≤◌, ◌<◌, ◌≡◌, bit_and, bit_or, arith, ltb}
use yaroc.Prelude.{List, [], ◌∷◌, lt→ltb, le→ltb, ◌∙◌, if◌then◌else◌}
use yaroc.Prelude.Bits.Masks.{bit_and_ones, or-zero}
use yaroc.Prelude.Bits.{bit_and_lowest, bit_or_lowest}
use yaroc.Prelude.Result.{ok, panic, unwrap, ◌>>=◌}
use yaroc.Chrono.{Chrono, DateTime}
use yaroc.Punch.Weekdays.{IsLast, IsLast-unique, last_dow-IsLast}
use yaroc.Punch.{
  last_dow, bytes_to_datetime, time_to_bytes, byte_at, u16_from_be_bytes, billion_by_256,
}

module _ (chrono : Chrono) where
  open chrono use {Date, Time, day_number, num_days_from_sunday, checked_sub_days}

  -- What the four time bytes of a punch say: the day of the week and the half of the day in the
  -- first, the seconds of the half day in the next two, and the fraction of a second.
  abbrev pub told_seconds : List ℕ → ℕ
  told_seconds bytes =
      byte_at bytes 0 % 2 * 43_200 + u16_from_be_bytes (byte_at bytes 1) (byte_at bytes 2)

  pub record IsTold (bytes : List ℕ) (today : Date) (t : DateTime chrono) : Type 0 where
    pub day : IsLast chrono (byte_at bytes 0 / 2 % 8) today t.date
    pub seconds : chrono.num_seconds_from_midnight t.time ≡ told_seconds bytes
    pub fraction : chrono.nanosecond t.time ≡ byte_at bytes 3 * billion_by_256

  weekday_bits : (b : ℕ) → bit_and b 14 / 2 ≡ b / 2 % 8
  weekday_bits b = omega (arith, bit_and_lowest b 14, bit_and_ones 3 (b / 2))

  -- With the tests of the bytes put in plain arithmetic.
  decoded :
      (bytes : List ℕ) (today d : Date)
      → last_dow chrono (byte_at bytes 0 / 2 % 8) today ≡ ok d
      → bytes_to_datetime chrono bytes today ≡ (
          unwrap (chrono.from_num_seconds (told_seconds bytes) (byte_at bytes 3 * billion_by_256))
          >>= λ time. ok (record { date = d; time = time }))
  unfolding bytes_to_datetime
  decoded bytes today d found =
      rw (weekday_bits (byte_at bytes 0), bit_and_ones 1 (byte_at bytes 0), found)

  module _ (bytes : List ℕ) (today : Date) (room : 6 ≤ day_number today) where
    -- Seconds of a day are read as the time that the bytes tell.
    pub bytes_to_datetime-IsTold :
        told_seconds bytes < 86_400
        → byte_at bytes 3 < 256
        → (t : DateTime chrono) × (bytes_to_datetime chrono bytes today ≡ ok t)
          × IsTold bytes today t
    bytes_to_datetime-IsTold short byte =
        let (d, found, last) =
          last_dow-IsLast chrono (byte_at bytes 0 / 2 % 8) today (omega arith) room in
        let (t, made, seconds, nanos) =
          chrono.from_num_seconds_law (told_seconds bytes) (byte_at bytes 3 * billion_by_256) short
            (omega arith) in
        (
          record { date = d; time = t },
          decoded bytes today d found ∙ rw made,
          record { day = last; seconds = seconds; fraction = nanos },
        )

    -- Any other count of seconds ends the program.
    pub bytes_to_datetime_panics :
        86_400 ≤ told_seconds bytes → bytes_to_datetime chrono bytes today ≡ panic
    bytes_to_datetime_panics long =
        let (d, found, last) =
          last_dow-IsLast chrono (byte_at bytes 0 / 2 % 8) today (omega arith) room in
        decoded bytes today d found
        ∙ rw (
            chrono.from_num_seconds_none (told_seconds bytes) (byte_at bytes 3 * billion_by_256)
              long)

  -- The time bytes that tell `t`, in plain arithmetic.
  abbrev pub telling : DateTime chrono → List ℕ
  telling t =
      let s = chrono.num_seconds_from_midnight t.time in
      (num_days_from_sunday t.date * 2 + s / 43_200)
      ∷ (s % 43_200 / 256)
      ∷ (s % 43_200 % 256)
      ∷ (chrono.nanosecond t.time / billion_by_256)
      ∷ []

  or_one : (w : ℕ) → w < 7 → bit_or (w * 2 % 256) 1 ≡ w * 2 + 1
  or_one w h = omega (arith, bit_or_lowest (w * 2 % 256) 1, or-zero (w * 2 % 256 / 2))

  -- A time of a leap second has a fraction of a second that does not fit its byte; any other time
  -- has its four bytes.
  time_to_bytes_lem :
      (t : DateTime chrono)
      → time_to_bytes chrono t
        ≡ (if ltb (chrono.nanosecond t.time) 1_000_000_000 then ok (telling t) else panic)
  unfolding time_to_bytes
  time_to_bytes_lem t = ground (
    arith,
    chrono.weekday_law t.date,
    chrono.num_seconds_below t.time,
    chrono.hour_law t.time,
    or_one (num_days_from_sunday t.date),
  )

  -- `read` is `t` with its fraction of a second cut to 256ths.
  pub record IsCut (t read : DateTime chrono) : Type 0 where
    pub date : read.date ≡ t.date
    pub seconds :
        chrono.num_seconds_from_midnight read.time ≡ chrono.num_seconds_from_midnight t.time
    pub fraction :
        chrono.nanosecond read.time ≡ chrono.nanosecond t.time / billion_by_256 * billion_by_256

  -- The day of `t` is one of the seven up to `today`.
  abbrev pub InLastWeek : DateTime chrono → Date → Type 0
  InLastWeek t today =
      (day_number t.date ≤ day_number today) × (day_number today < day_number t.date + 7)

  module _ (t : DateTime chrono) (today : Date) (room : 6 ≤ day_number today) where
    pub bytes_to_datetime-telling :
        chrono.nanosecond t.time < 1_000_000_000
        → InLastWeek t today
        → (read : DateTime chrono) × (bytes_to_datetime chrono (telling t) today ≡ ok read)
          × IsCut t read
    bytes_to_datetime-telling whole recent =
        let below = chrono.num_seconds_below t.time in
        let weekday = chrono.weekday_law t.date in
        let (read, decodes, told) =
          bytes_to_datetime-IsTold (telling t) today room (omega (arith, below, weekday))
            (omega arith) in
        let last : IsLast chrono (byte_at (telling t) 0 / 2 % 8) today t.date = record {
          on_weekday = omega (arith, below, weekday);
          not_later = recent.0;
          within_week = recent.1;
        } in
        (
          read,
          decodes,
          record {
            date =
                IsLast-unique chrono (byte_at (telling t) 0 / 2 % 8) today read.date t.date told.day
                  last;
            seconds = told.seconds ∙ omega (arith, below, weekday);
            fraction = told.fraction;
          },
        )

    -- A time of the last week is read back from its four bytes to the 256th of a second.
    pub bytes_to_datetime-time_to_bytes :
        chrono.nanosecond t.time < 1_000_000_000
        → InLastWeek t today
        → (bytes : List ℕ) × (time_to_bytes chrono t ≡ ok bytes)
          × (read : DateTime chrono) × (bytes_to_datetime chrono bytes today ≡ ok read)
          × IsCut t read
    bytes_to_datetime-time_to_bytes whole recent =
        let (read, decodes, cut) = bytes_to_datetime-telling whole recent in
        (telling t, time_to_bytes_lem t ∙ rw (lt→ltb _ _ whole), read, decodes, cut)

  -- Times to bytes: four bytes, or a panic in a leap second.
  pub time_to_bytes_total :
      (t : DateTime chrono)
      → chrono.nanosecond t.time < 1_000_000_000
      → time_to_bytes chrono t ≡ ok (telling t)
  time_to_bytes_total t whole = time_to_bytes_lem t ∙ rw (lt→ltb _ _ whole)

  pub time_to_bytes_panics :
      (t : DateTime chrono)
      → 1_000_000_000 ≤ chrono.nanosecond t.time
      → time_to_bytes chrono t ≡ panic
  time_to_bytes_panics t leap = time_to_bytes_lem t ∙ rw (le→ltb _ _ leap)
