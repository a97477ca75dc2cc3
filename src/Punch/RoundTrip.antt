-- ===== src/Punch/RoundTrip.antt =====
-- `SiPunch::new` and `SiPunch::from_raw` of common/src/punch.rs: the 20 bytes of a punch, and the
-- punch that they are read as.
use yaroc.Prelude.{ℕ, ◌/◌, ◌%◌, ◌≤◌, ◌<◌, ◌≡◌, refl, sym, ap, ◌∙◌, arith, bit_and}
use native.Mathlib.Decide.{dec_lt}
use yaroc.Prelude.{◌⊎◌, inl, inr, drop-drop, List, [], ◌∷◌, ◌++◌, length, drop, All}
use yaroc.Prelude.Bits.Masks.{bit_and_ones}
use yaroc.Prelude.Result.{ok, panic, ◌>>=◌, ok_injective}
use yaroc.Chrono.{Chrono, DateTime}
use yaroc.Punch.{SiPunch, punch_to_bytes, new, from_raw, card_to_bytes, sportident_checksum}
use yaroc.Punch.{bytes_to_datetime, bytes_to_card, u16_to_be_bytes, u16_from_be_bytes, byte_at}
use yaroc.Punch.Cards.{IsCardNumber, reread, reread_iff}
use yaroc.Punch.Clock.{
  telling, IsCut, IsTold, told_seconds, bytes_to_datetime-IsTold, bytes_to_datetime_panics,
  InLastWeek, time_to_bytes_total, time_to_bytes_panics, bytes_to_datetime-telling,
}
use yaroc.Punch.Polynomials.{IsRemainder}
use yaroc.Punch.Message.{IsByte, polynomial, checksum-IsRemainder}

module _ (chrono : Chrono) where
  open chrono use {Date, day_number, nanosecond, num_seconds_from_midnight}

  -- The 15 bytes that the checksum is of.
  pub message : ℕ → ℕ → DateTime chrono → ℕ → List ℕ
  message card code t mode =
      0xd3 ∷ 0x0d ∷ u16_to_be_bytes code
      ++ card_to_bytes card
      ++ telling chrono t
      ++ mode ∷ 0 ∷ 1 ∷ []

  message_bytes :
      (card code : ℕ) (t : DateTime chrono) (mode : ℕ)
      → mode < 256
      → nanosecond t.time < 1_000_000_000
      → All IsByte (message card code t mode)
  unfolding message card_to_bytes
  message_bytes card code t mode m whole =
      omega (arith, chrono.weekday_law t.date, chrono.num_seconds_below t.time)

  -- The 20 bytes with the checksum `r`.
  abbrev pub frame : ℕ → ℕ → DateTime chrono → ℕ → ℕ → List ℕ
  frame card code t mode r =
      0xff ∷ 0x02 ∷ message card code t mode ++ u16_to_be_bytes r ++ 0x03 ∷ []

  length-message :
      (card code : ℕ) (t : DateTime chrono) (mode : ℕ) → length (message card code t mode) ≡ 15
  unfolding message card_to_bytes
  length-message card code t mode = refl

  module _ (card code : ℕ) (t : DateTime chrono) (mode : ℕ)
      (whole : nanosecond t.time < 1_000_000_000) where
    framed :
        (r : ℕ)
        → sportident_checksum (message card code t mode) ≡ ok r
        → punch_to_bytes chrono card code t mode ≡ ok (frame card code t mode r)
    unfolding punch_to_bytes message
    framed r gives = rw (time_to_bytes_total chrono t whole, gives)

    -- A punch is framed with the remainder of its message, which fits two bytes.
    pub punch_to_bytes-frame :
        mode < 256
        → (r : ℕ) × IsRemainder (polynomial (message card code t mode)) r
          × (punch_to_bytes chrono card code t mode ≡ ok (frame card code t mode r))
    punch_to_bytes-frame m =
        let (r, gives, rem) =
          checksum-IsRemainder (message card code t mode) (message_bytes card code t mode m whole)
            (omega (arith, length-message card code t mode)) in
        (r, rem, framed r gives)

    -- The punch that is read has the numbers that were written, and the time to a 256th of a second.
    pub record IsReread (p : SiPunch chrono) : Type 0 where
      pub card_kept : p.card ≡ card
      pub code_kept : p.code ≡ code
      pub mode_kept : p.mode ≡ mode
      pub time_cut : IsCut chrono t p.time

    -- The fields of the punch that a frame is read as, when its time is `read`.
    abbrev fields : ℕ → DateTime chrono → SiPunch chrono
    fields r read = record {
      card = reread card;
      code = u16_from_be_bytes (bit_and (code / 256 % 256) 1) (code % 256);
      time = read;
      mode = bit_and mode 15;
      raw = frame card code t mode r;
    }

    from_raw-fields :
        (r : ℕ) (today : Date)
        → from_raw chrono (frame card code t mode r) today
          ≡ (bytes_to_datetime chrono (telling chrono t) today >>= λ read. ok (fields r read))
    unfolding from_raw message card_to_bytes bytes_to_datetime
    from_raw-fields r today = refl

    from_raw-frame :
        (r : ℕ) (today : Date)
        → IsCardNumber card
        → code < 512
        → mode < 16
        → 6 ≤ day_number today
        → InLastWeek chrono t today
        → (q : SiPunch chrono) × (from_raw chrono (frame card code t mode r) today ≡ ok q)
          × IsReread q
          × (q.raw ≡ frame card code t mode r)
    from_raw-frame r today number c m room recent =
        let (read, decodes, cut) = bytes_to_datetime-telling chrono t today room whole recent in
        (
          fields r read,
          from_raw-fields r today ∙ rw decodes,
          record {
            card_kept = (reread_iff card (omega (arith, number.fits))).1 number;
            code_kept = omega (arith, bit_and_ones 1 (code / 256 % 256));
            mode_kept = omega (arith, bit_and_ones 4 mode);
            time_cut = cut;
          },
          refl,
        )

    -- A new punch is read back from its 20 bytes: the card, if it is one of SportIdent's, the code,
    -- if it has 9 bits, the mode, if it has 4, and the time to a 256th of a second, if it is of the
    -- last week and of no leap second.
    pub from_raw-new :
        (today : Date)
        → IsCardNumber card
        → code < 512
        → mode < 16
        → 6 ≤ day_number today
        → InLastWeek chrono t today
        → (p : SiPunch chrono) × (new chrono card code t mode ≡ ok p)
          × (q : SiPunch chrono) × (from_raw chrono p.raw today ≡ ok q)
          × IsReread q
          × (q.raw ≡ p.raw)
    unfolding new
    from_raw-new today number c m room recent =
        let (r, rem, made) = punch_to_bytes-frame (omega arith) in
        let (q, reads, kept, same) = from_raw-frame r today number c m room recent in
        (
          record {
            card = card;
            code = code;
            time = t;
            mode = mode;
            raw = frame card code t mode r;
          },
          rw made,
          q,
          reads,
          kept,
          same,
        )

    pub length-new :
        mode < 256 → (p : SiPunch chrono) → new chrono card code t mode ≡ ok p → length p.raw ≡ 20
    unfolding new message card_to_bytes
    length-new m p made =
        let (r, rem, gives) = punch_to_bytes-frame m in
        ap (λ (x : SiPunch chrono). length x.raw) (sym (ok_injective (rw gives at made)))

  -- In a leap second no punch can be made.
  pub new_panics :
      (card code : ℕ) (t : DateTime chrono) (mode : ℕ)
      → 1_000_000_000 ≤ nanosecond t.time
      → new chrono card code t mode ≡ panic
  unfolding new punch_to_bytes
  new_panics card code t mode leap = rw (time_to_bytes_panics chrono t leap)

  module _ (bytes : List ℕ) (today : Date) (fraction : byte_at (drop 10 bytes) 3 < 256)
      (room : 6 ≤ day_number today) where
    -- The punch that the bytes are read as, when their time is `read`.
    abbrev reading : DateTime chrono → SiPunch chrono
    reading read =
        let payload = drop 4 bytes in
        record {
          card =
              bytes_to_card (byte_at payload 2) (byte_at payload 3) (byte_at payload 4)
                (byte_at payload 5);
          code = u16_from_be_bytes (bit_and (byte_at payload 0) 1) (byte_at payload 1);
          time = read;
          mode = bit_and (byte_at (drop 6 payload) 4) 15;
          raw = bytes;
        }

    drop_twice : drop 6 (drop 4 bytes) ≡ drop 10 bytes
    drop_twice = drop-drop 4 6 bytes

    -- Any 20 bytes, whatever their checksum, are read as a punch exactly when their seconds are
    -- those of a day; if not, the program panics.
    pub from_raw_cases :
        ((told_seconds chrono (drop 10 bytes) < 86_400)
          × (q : SiPunch chrono) × (from_raw chrono bytes today ≡ ok q)
          × IsTold chrono (drop 10 bytes) today q.time
          × (q.raw ≡ bytes))
        ⊎ ((86_400 ≤ told_seconds chrono (drop 10 bytes)) × (from_raw chrono bytes today ≡ panic))
    unfolding from_raw
    from_raw_cases = elim (dec_lt (told_seconds chrono (drop 10 bytes)) 86_400) [
      | yes short ↦
          let (read, decodes, told) =
            bytes_to_datetime-IsTold chrono (drop 10 bytes) today room short fraction in
          inl (short, reading read, rw (drop_twice, decodes), told, refl)
      | no other ↦
          let long : 86_400 ≤ told_seconds chrono (drop 10 bytes) = omega arith in
          inr
            (long, rw (drop_twice, bytes_to_datetime_panics chrono (drop 10 bytes) today room long))
    ]
