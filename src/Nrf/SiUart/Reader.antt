-- ===== src/Nrf/SiUart/Reader.antt =====
-- `SiUart::read` and `si_uart_reader` of nrf52840/src/si_uart.rs: what goes to the channel of punches.
use yaroc.Prelude.{
  ℕ, ◌≤◌, ◌<◌, ◌≡◌, refl, sym, ap, ◌∙◌, arith, Bool, Option, some, ◌⊎◌, inl, inr, List, length, map,
  length-map,
}
use yaroc.Prelude.Result.{unwrap, Result, ok, ◌>>=◌, map_err, ok_or, ok_injective}
use yaroc.Nrf.Error.{Error, uart_read_error, from_common}
use yaroc.Chrono.{Chrono, DateTime}
use yaroc.Punch.{SiPunch, new, from_raw}
use yaroc.Punch.Cards.{IsCardNumber}
use yaroc.Punch.Clock.{InLastWeek}
use yaroc.Punch.RoundTrip.{IsReread, from_raw-new, length-new}
use yaroc.Nrf.SiUart.{Line, read, read_bytes}
use yaroc.Nrf.SiUart.Timing.{IsTimed}
use yaroc.Nrf.SiUart.Frames.{AreFrames, read_bytes-AreFrames}

-- `SiUart::read`: the 20 bytes that the receiver of the processor gives, if it gives them.
pub read_uart : {S : Type 0} → (S → Option (List ℕ) × S) → S → Result Error (List ℕ) × S
read_uart receive s = let received = receive s in (ok_or uart_read_error received.0, received.1)

module _ (chrono : Chrono) where
  open chrono use {Date, nanosecond, day_number}

  -- `NaiveDate::from_ymd_opt(2025, 1, 18).unwrap()`.
  pub reader_date : (ℕ → ℕ → ℕ → Option Date) → Result Error Date
  reader_date from_ymd_opt = unwrap (from_ymd_opt 2025 1 18)

  -- A round of `si_uart_reader`: what it sends, when one of the two readings ends first. Nothing is
  -- sent when `from_raw` panics.
  pub reader_sends : Date → Result Error (List ℕ) ⊎ List ℕ → Result Error (SiPunch chrono)
  reader_sends date (inl res) = res >>= λ buffer. map_err from_common (from_raw chrono buffer date)
  reader_sends date (inr buffer) = map_err from_common (from_raw chrono buffer date)

  -- What `si_uart_reader` sends in a round, its date included.
  pub si_uart_reader :
      (ℕ → ℕ → ℕ → Option Date) → Result Error (List ℕ) ⊎ List ℕ → Result Error (SiPunch chrono)
  si_uart_reader from_ymd_opt first = reader_date from_ymd_opt >>= λ date. reader_sends date first

  module _ {S : Type 0} (line : Line S) (level : ℕ → Bool) (timed : IsTimed line level) where
    -- A new punch whose 20 bytes are sent one after the other to the pin goes to the channel with its
    -- card, code, mode and bytes, and its time to a 256th of a second: if the card number is one of
    -- SportIdent's, the code has 9 bits and the mode 4, the time is of the week up to the date of the code
    -- and of no leap second, and every step of the device takes its time.
    pub si_uart_reader-new :
        (card code : ℕ) (t : DateTime chrono) (mode : ℕ) (whole : nanosecond t.time < 1_000_000_000)
        (from_ymd_opt : ℕ → ℕ → ℕ → Option Date) (today : Date) (p : SiPunch chrono)
        (frames : List (ℕ × ℕ)) (s : S)
        → IsCardNumber card
        → code < 512
        → mode < 16
        → from_ymd_opt 2025 1 18 ≡ some today
        → 6 ≤ day_number today
        → InLastWeek chrono t today
        → new chrono card code t mode ≡ ok p
        → map (λ (f : ℕ × ℕ). f.1) frames ≡ p.raw
        → AreFrames level (timed.clock s) frames
        → (q : SiPunch chrono) × (si_uart_reader from_ymd_opt (inr (read line s).0) ≡ ok q)
          × IsReread chrono card code t mode whole q
          × (q.raw ≡ p.raw)
    unfolding si_uart_reader reader_date reader_sends read
    si_uart_reader-new card code t mode whole from_ymd_opt today p frames s number c m date room
          recent made bytes sent =
        let (p', made', q, reads, kept, same) =
          from_raw-new chrono card code t mode whole today number c m room recent in
        let e : p ≡ p' = ok_injective (sym made ∙ made') in
        let twenty : length frames ≡ 20 =
          sym (length-map (λ (f : ℕ × ℕ). f.1) frames)
          ∙ ap length bytes
          ∙ length-new chrono card code t mode whole (omega arith) p made in
        let read_all : (read_bytes line 20 s).0 ≡ p'.raw =
          (rw twenty at (read_bytes-AreFrames line level timed frames s sent))
          ∙ bytes
          ∙ ap (λ (x : SiPunch chrono). x.raw) e in
        (
          q,
          rw (date, read_all, reads) refl,
          kept,
          same ∙ ap (λ (x : SiPunch chrono). x.raw) (sym e),
        )
