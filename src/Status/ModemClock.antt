-- ===== src/Status/ModemClock.antt =====
-- `parse_qlts` of common/src/status.rs on what the modem answers to AT+QLTS=2, a date and a time of
-- 19 bytes, a sign, and the offset of the time zone in quarters of an hour.
use mathlib.Core.List.{append_assoc}
use yaroc.Prelude.{ℕ, ◌*◌, ◌≤◌, ◌<◌, ◌≡◌, ap, ◌∙◌, arith, some}
use yaroc.Prelude.{[], ◌∷◌, ◌++◌, length, take, le→ltb, lt→ltb, ltb, if◌then◌else◌, refl}
use yaroc.Prelude.{length-append, take-append, drop-append}
use yaroc.Prelude.Numbers.{parse_unsigned}
use yaroc.Prelude.Result.{ok, panic}
use yaroc.Prelude.Text.{Text, slice, slice_lem}
use yaroc.Error.{Error}
use yaroc.Status.{Times, parse_qlts}

-- The answer with its sign, the two digits of its offset, and what comes behind.
abbrev pub clock : Text → ℕ → ℕ → ℕ → Text → Text
clock front sign d e rest = front ++ sign ∷ d ∷ e ∷ rest

module _ (front rest : Text) (sign d e : ℕ) (size : length front ≡ 19) where
  slice_front : slice {E = Error} (clock front sign d e rest) 0 19 ≡ ok front
  slice_front =
      slice_lem (clock front sign d e rest) 0 19 (omega arith)
        (omega (arith, size, length-append front (sign ∷ d ∷ e ∷ rest)))
      ∙ ap ok (take-append 19 front (sign ∷ d ∷ e ∷ rest) size)

  slice_digits : slice {E = Error} (clock front sign d e rest) 20 22 ≡ ok (d ∷ e ∷ [])
  slice_digits =
      let shift = append_assoc front (sign ∷ []) (d ∷ e ∷ rest) in
      slice_lem (clock front sign d e rest) 20 22 (omega arith)
        (omega (arith, size, length-append front (sign ∷ d ∷ e ∷ rest)))
      ∙ ap (λ t. ok (take 2 t))
          (rw shift at (
            drop-append 20 (front ++ sign ∷ []) (d ∷ e ∷ rest)
              (omega (arith, size, length-append front (sign ∷ [])))))

-- Of an answer of the modem, the time is the date and the time in its first 19 bytes with the offset
-- in its bytes 20 and 21, in quarters of an hour to the east: the sign in between is not read, so
-- that an offset to the west is taken for one to the east. An offset of 96 quarters or more panics.
pub parse_qlts-clock :
    (times : Times) (front rest : Text) (sign d e : ℕ) (date : times.NaiveDateTime) (quarters : ℕ)
    → length front ≡ 19
    → times.parse_from_str front ≡ some date
    → parse_unsigned 10 256 (d ∷ e ∷ []) ≡ some quarters
    → parse_qlts times (clock front sign d e rest)
      ≡ (if ltb quarters 96 then ok (times.and_local_timezone (quarters * 900) date) else panic)
unfolding parse_qlts
parse_qlts-clock times front rest sign d e date quarters size dated read =
    let date_part = slice_front front rest sign d e size in
    let digits = slice_digits front rest sign d e size in
    let day : ltb (quarters * 900) 86_400 ≡ ltb quarters 96 = ground arith in
    rw (date_part, dated, digits, read, day) refl

pub parse_qlts_panics :
    (times : Times) (front rest : Text) (sign d e : ℕ) (date : times.NaiveDateTime) (quarters : ℕ)
    → length front ≡ 19
    → times.parse_from_str front ≡ some date
    → parse_unsigned 10 256 (d ∷ e ∷ []) ≡ some quarters
    → 96 ≤ quarters
    → parse_qlts times (clock front sign d e rest) ≡ panic
unfolding parse_qlts
parse_qlts_panics times front rest sign d e date quarters size dated read many =
    let date_part = slice_front front rest sign d e size in
    let digits = slice_digits front rest sign d e size in
    rw (date_part, dated, digits, read, le→ltb (quarters * 900) 86_400 (omega arith))

-- An answer of less than 19 bytes is a panic.
pub parse_qlts_short :
    (times : Times) (modem_clock : Text)
    → length modem_clock < 19
    → parse_qlts times modem_clock ≡ panic
unfolding parse_qlts slice
parse_qlts_short times modem_clock h = rw (lt→ltb (length modem_clock) 19 h)
