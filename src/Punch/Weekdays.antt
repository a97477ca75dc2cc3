-- ===== src/Punch/Weekdays.antt =====
-- `last_dow` of common/src/punch.rs: the last day with a weekday.
use Prim.Native.Nat.{◌-◌}
use yaroc.Prelude.{ℕ, ◌+◌, ◌%◌, ◌≤◌, ◌<◌, ◌≡◌, ◌↔◌, arith}
use yaroc.Prelude.{le→leb, ap, ◌∙◌}
use yaroc.Prelude.Result.{ok}
use yaroc.Chrono.{Chrono}
use yaroc.Punch.{last_dow}

module _ (chrono : Chrono) where
  open chrono use {Date, Time, day_number, num_days_from_sunday, checked_sub_days}

  -- `d` is the last day up to `today` that is `dow` days after a Sunday.
  pub record IsLast (dow : ℕ) (today d : Date) : Type 0 where
    pub on_weekday : num_days_from_sunday d ≡ dow % 7
    pub not_later : day_number d ≤ day_number today
    pub within_week : day_number today < day_number d + 7

  pub IsLast-unique : (dow : ℕ) (today d e : Date) → IsLast dow today d → IsLast dow today e → d ≡ e
  IsLast-unique dow today d e p q =
      chrono.day_number_injective d e (omega (arith, chrono.weekday_law d, chrono.weekday_law e))

  pub last_dow-IsLast :
      (dow : ℕ) (today : Date)
      → dow ≤ 7
      → 6 ≤ day_number today
      → (d : Date) × (last_dow chrono dow today ≡ ok d) × IsLast dow today d
  unfolding last_dow
  last_dow-IsLast dow today h room =
      let n = (num_days_from_sunday today + 7 - dow) % 7 in
      let (d, back, number) = chrono.sub_days_law today n (omega arith) in
      (d, rw (le→leb dow 7 h, back), omega (arith, chrono.weekday_law d, chrono.weekday_law today))

  -- `last_dow` gives the one day of the last week that has the asked weekday.
  pub last_dow_iff :
      (dow : ℕ) (today d : Date)
      → dow ≤ 7
      → 6 ≤ day_number today
      → (last_dow chrono dow today ≡ ok d) ↔ IsLast dow today d
  last_dow_iff dow today d h room =
      let (e, found, last) = last_dow-IsLast dow today h room in
      (
        λ p. let same : e ≡ d = cc (p, found) in rw same at last,
        λ p. found ∙ ap ok (IsLast-unique dow today e d last p),
      )
