-- ===== src/Nrf/SiUart/Timing.antt =====
-- The bits that nrf52840/src/si_uart.rs samples, against those that are sent.
use yaroc.Prelude.{ℕ, ◌+◌, ◌-◌, ◌*◌, ◌/◌, ◌%◌, ◌≤◌, ◌<◌, ◌≡◌, arith, Bool, true, false, not}
use yaroc.Prelude.{ltb, lt→ltb}
use yaroc.Nrf.SiUart.{Line, discrepancy_of, wait_for_bit}

wrapped_difference :
    (a b k : ℕ)
    → b ≤ a + k
    → a + k - b < 4_294_967_296
    → (a % 4_294_967_296 + k + (4_294_967_296 - b % 4_294_967_296)) % 4_294_967_296 ≡ a + k - b
wrapped_difference a b k h small = omega arith

-- A level that comes after the time `from`, at the time `t`, and stays for a bit.
abbrev pub Comes : (ℕ → Bool) → Bool → ℕ → ℕ → Type 0
Comes level b from t =
    ((u : ℕ) → from ≤ u → u < t → level u ≡ not b) × ((u : ℕ) → t ≤ u → u < t + 1664 → level u ≡ b)

-- What the code relies on: nothing else runs, the clock counts cycles, each step takes few of them, and
-- a delay takes half as many again as it is asked for,
-- and a wait for a level ends soon after the level has come.
pub record IsTimed {S : Type 0} (line : Line S) (level : ℕ → Bool) : Type 0 where
  pub clock : S → ℕ
  pub counts : (s : S) → (line.cycle_count s).0 ≡ clock s % 4_294_967_296
  pub count_takes :
      (s : S)
      → (clock s ≤ clock (line.cycle_count s).1) × (clock (line.cycle_count s).1 ≤ clock s + 10)
  pub samples : (s : S) → (line.is_high s).0 ≡ level (clock s)
  pub sample_takes :
      (s : S) → (clock s ≤ clock (line.is_high s).1) × (clock (line.is_high s).1 ≤ clock s + 20)
  pub delay_takes :
      (n : ℕ) (s : S)
      → (clock s + n + n / 2 ≤ clock (line.delay n s))
        × (clock (line.delay n s) ≤ clock s + n + n / 2 + 100)
  pub low_wakes :
      (s : S) (t : ℕ)
      → clock s ≤ t
      → Comes level false (clock s) t
      → (t ≤ clock (line.wait_for_low s)) × (clock (line.wait_for_low s) ≤ t + 1000)
  pub high_wakes :
      (s : S) (t : ℕ)
      → clock s ≤ t
      → Comes level true (clock s) t
      → (t ≤ clock (line.wait_for_high s)) × (clock (line.wait_for_high s) ≤ t + 1000)

module _ {S : Type 0} (line : Line S) (level : ℕ → Bool) (timed : IsTimed line level) where
  open timed use {clock}

  -- The wait for a bit ends in the part of it that is sampled.
  pub wait_for_bit_ends :
      (start i : ℕ) (s : S)
      → start + i * 1664 ≤ clock s
      → clock s ≤ start + i * 1664 + 500
      → let ended = clock (wait_for_bit line (start % 4_294_967_296) i s) in
        (start + 199 + (i + 1) * 1664 ≤ ended) × (ended ≤ start + 310 + (i + 1) * 1664)
  unfolding wait_for_bit
  wait_for_bit_ends start i s after before =
      let d : ℕ = start + (200 + (i + 1) * 1664) - clock s in
      let e : discrepancy_of (start % 4_294_967_296) i (line.cycle_count s).0 ≡ d =
        rw (timed.counts s)
          (wrapped_difference start (clock s) (200 + (i + 1) * 1664) (omega arith) (omega arith)) in
      let short : ltb d 3328 ≡ true = lt→ltb d 3328 (omega arith) in
      let counted = timed.count_takes s in
      let delayed = timed.delay_takes (d * 2 / 3) (line.cycle_count s).1 in
      rw (e, short) (omega (arith, counted, delayed), omega (arith, counted, delayed))
