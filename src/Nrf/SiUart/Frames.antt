-- ===== src/Nrf/SiUart/Frames.antt =====
-- What nrf52840/src/si_uart.rs reads from a pin, against the bytes that are sent to it.
use yaroc.Prelude.{
  ℕ, zero, suc, ◌+◌, ◌*◌, ◌%◌, ◌^◌, ◌≤◌, ◌<◌, bit_or, ◌≡◌, refl, ap, ap₂, ◌⊎◌, ◌∙◌, arith, Bool,
  true, false, inl, inr, List, [], ◌∷◌, length, map,
}
use yaroc.Prelude.{if◌then◌else◌, Bool-cases}
use yaroc.Nrf.SiUart.{Line, wait_for_bit, read_bits, read_byte, read_bytes}
use yaroc.Nrf.SiUart.Timing.{IsTimed, wait_for_bit_ends}
use yaroc.Nrf.SiUart.Digits.{digit, or_next}

-- The levels of a byte that starts at the time `t`: a low bit, the lowest digit first, a high bit.
pub record IsFrame (level : ℕ → Bool) (t b : ℕ) : Type 0 where
  pub byte : b < 256
  pub start_bit : (u : ℕ) → t ≤ u → u < t + 1664 → level u ≡ false
  pub data_bit :
      (i u : ℕ) → i < 8 → t + (i + 1) * 1664 ≤ u → u < t + (i + 2) * 1664 → level u ≡ digit b i
  pub stop_bit : (u : ℕ) → t + 9 * 1664 ≤ u → u < t + 10 * 1664 → level u ≡ true

pub le-lt : (a b : ℕ) → (a ≤ b) ⊎ (b < a)
le-lt a b = omega arith

module _ {S : Type 0} (line : Line S) (level : ℕ → Bool) (timed : IsTimed line level) where
  open timed use {clock}

  read_bits_next :
      (b start_cycles n i : ℕ) (s : S)
      → (line.is_high (wait_for_bit line start_cycles i s)).0 ≡ digit b i
      → read_bits line (suc n) i start_cycles (b % 2 ^ i) s
        ≡ read_bits line n
            (suc i)
            start_cycles
            (b % 2 ^ suc i)
            (line.is_high (wait_for_bit line start_cycles i s)).1
  unfolding read_bits
  read_bits_next b start_cycles n i s sample =
      let rest = λ (byte : ℕ).
        read_bits line n (suc i) start_cycles byte
          (line.is_high (wait_for_bit line start_cycles i s)).1 in
      ap (λ c. rest (if c then bit_or (b % 2 ^ i) (2 ^ i) else b % 2 ^ i)) sample
      ∙ ap rest (or_next i b)

  -- The bits of a frame that are still to come complete its byte.
  read_bits-IsFrame :
      (t b start n i : ℕ) (s : S)
      → IsFrame level t b
      → t ≤ start
      → start ≤ t + 1000
      → i + n ≡ 8
      → start + i * 1664 ≤ clock s
      → clock s ≤ start + i * 1664 + 500
      → let done = read_bits line n i (start % 4_294_967_296) (b % 2 ^ i) s in
        (done.0 ≡ b % 2 ^ 8)
        × (start + 8 * 1664 ≤ clock done.1)
        × (clock done.1 ≤ start + 8 * 1664 + 500)
  unfolding read_bits
  read_bits-IsFrame t b start zero i s frame p q count after before =
      let e : i ≡ 8 = omega arith in (ap (λ k. b % 2 ^ k) e, omega arith, omega arith)
  read_bits-IsFrame t b start (suc n) i s frame p q count after before =
      let waited = wait_for_bit line (start % 4_294_967_296) i s in
      let ends = wait_for_bit_ends line level timed start i s after before in
      let takes = timed.sample_takes waited in
      let sample : (line.is_high waited).0 ≡ digit b i =
        timed.samples waited
        ∙ frame.data_bit i (clock waited) (omega arith) (omega (arith, ends))
            (omega (arith, ends)) in
      rw (read_bits_next b (start % 4_294_967_296) n i s sample) (
        read_bits-IsFrame t b start n (suc i) (line.is_high waited).1 frame p q (omega arith)
          (omega (arith, ends, takes)) (omega (arith, ends, takes)))

  -- The wait at the end of a frame ends in it, while the level is high from there on.
  idle_after :
      (t b : ℕ) (s : S)
      → IsFrame level t b
      → t + 8 * 1664 ≤ clock s
      → clock s < t + 9 * 1664
      → let ended = clock (line.wait_for_high s) in
        (t + 8 * 1664 ≤ ended)
        × (ended < t + 10 * 1664)
        × ((u : ℕ) → ended ≤ u → u < t + 10 * 1664 → level u ≡ true)
  idle_after t b s frame after before = elim (Bool-cases (digit b 7)) [
    | inl one ↦
        let high : (u : ℕ) → clock s ≤ u → u < t + 10 * 1664 → level u ≡ true = λ u p q.
          elim (le-lt (t + 9 * 1664) u) [
            | inl stopped ↦ frame.stop_bit u stopped q
            | inr sent ↦ frame.data_bit 7 u (omega arith) (omega arith) (omega arith) ∙ one
          ] in
        let wakes =
          timed.high_wakes s (clock s) (omega arith)
            (λ u p q. absurd (omega arith), λ u p q. high u p (omega arith)) in
        (omega (arith, wakes), omega (arith, wakes), λ u p q. high u (omega (arith, wakes)) q)
    | inr nought ↦
        let wakes = timed.high_wakes s (t + 9 * 1664) (omega arith) (
          λ u p q. frame.data_bit 7 u (omega arith) (omega arith) (omega arith) ∙ nought,
          λ u p q. frame.stop_bit u p (omega arith),
        ) in
        (
          omega (arith, wakes),
          omega (arith, wakes),
          λ u p q. frame.stop_bit u (omega (arith, wakes)) q,
        )
  ]

  read_byte-IsFrame :
      (t b : ℕ) (s : S)
      → IsFrame level t b
      → clock s ≤ t
      → ((u : ℕ) → clock s ≤ u → u < t → level u ≡ true)
      → let done = read_byte line s in
        (done.0 ≡ b)
        × (clock done.1 < t + 10 * 1664)
        × ((u : ℕ) → clock done.1 ≤ u → u < t + 10 * 1664 → level u ≡ true)
  unfolding read_byte
  read_byte-IsFrame t b s frame before idle =
      let woken = line.wait_for_low s in
      let wakes = timed.low_wakes s t before (idle, λ u p q. frame.start_bit u p q) in
      let counted = timed.count_takes woken in
      let none_yet : b % 2 ^ 0 ≡ 0 = omega arith in
      let bits = rw none_yet at (
        read_bits-IsFrame t b (clock woken) 8 0 (line.cycle_count woken).1 frame
          (omega (arith, wakes)) (omega (arith, wakes)) refl (omega (arith, counted))
          (omega (arith, counted))) in
      let byte = frame.byte in
      let ended =
        idle_after t b
          (read_bits line 8 0 (clock woken % 4_294_967_296) 0 (line.cycle_count woken).1).1 frame
          (omega (arith, wakes, bits.1, bits.2)) (omega (arith, wakes, bits.1, bits.2)) in
      rw (timed.counts woken) (bits.0 ∙ omega (arith, byte), ended.1, ended.2)

-- Bytes that are sent one after the other, from the time `from` on, each with its start; the level is
-- high between them.
abbrev pub AreFrames : (ℕ → Bool) → ℕ → List (ℕ × ℕ) → Type 0
AreFrames level from [] = Unit
AreFrames level from (sent ∷ frames) =
    (from ≤ sent.0)
    × ((u : ℕ) → from ≤ u → u < sent.0 → level u ≡ true)
    × IsFrame level sent.0 sent.1
    × AreFrames level (sent.0 + 10 * 1664) frames

module _ {S : Type 0} (line : Line S) (level : ℕ → Bool) (timed : IsTimed line level) where
  open timed use {clock}

  frames_read :
      (from : ℕ) (frames : List (ℕ × ℕ)) (s : S)
      → clock s ≤ from
      → ((u : ℕ) → clock s ≤ u → u < from → level u ≡ true)
      → AreFrames level from frames
      → (read_bytes line (length frames) s).0 ≡ map (λ (f : ℕ × ℕ). f.1) frames
  unfolding read_bytes
  frames_read from [] s before idle sent = refl
  frames_read from ((t, b) ∷ frames) s before idle sent =
      let first = read_byte-IsFrame line level timed t b s sent.2 (omega (arith, sent.0)) (λ u p q.
        elim (le-lt from u) [ inl later ↦ sent.1 u later q | inr sooner ↦ idle u p sooner ]) in
      ap₂ ◌∷◌ first.0 (
        frames_read (t + 10 * 1664) frames (read_byte line s).1 (omega (arith, first.1)) first.2
          sent.3)

  -- When the level is high until bytes are sent one after the other, each with a low bit before and a
  -- high bit after it and high levels between them, and every step of the device takes its time, that
  -- many bytes are read, and they are the bytes sent.
  pub read_bytes-AreFrames :
      (frames : List (ℕ × ℕ)) (s : S)
      → AreFrames level (clock s) frames
      → (read_bytes line (length frames) s).0 ≡ map (λ (f : ℕ × ℕ). f.1) frames
  read_bytes-AreFrames frames s sent =
      frames_read (clock s) frames s (omega arith) (λ u p q. absurd (omega arith)) sent
