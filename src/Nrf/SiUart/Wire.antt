-- ===== src/Nrf/SiUart/Wire.antt =====
-- A device for the software UART of nrf52840/src/si_uart.rs: its state is its clock, and bytes are sent
-- to its pin without a pause.
use yaroc.Prelude.{
  ℕ, zero, suc, ◌+◌, ◌-◌, ◌*◌, ◌/◌, ◌%◌, ◌≤◌, ◌<◌, ◌≡◌, refl, ap, sym, ◌∙◌, arith, Bool, true,
  false, not, inl, inr, List, [], ◌∷◌, length, All,
}
use yaroc.Prelude.{ltb, if◌then◌else◌, lt→ltb, le→ltb}
use yaroc.Nrf.SiUart.{Line}
use yaroc.Nrf.SiUart.Timing.{IsTimed}
use yaroc.Nrf.SiUart.Frames.{le-lt, IsFrame, AreFrames}
use yaroc.Nrf.SiUart.Digits.{digit}

level_in : ℕ → ℕ → Bool
level_in b u =
    if ltb u 1664 then false else if ltb u (9 * 1664) then digit b (u / 1664 - 1) else true

pub wave : List ℕ → ℕ → Bool
wave [] u = true
wave (b ∷ bs) u = let rest = wave bs (u - 16_640) in if ltb u 16_640 then level_in b u else rest

abbrev pub starts : ℕ → List ℕ → List (ℕ × ℕ)
starts from [] = []
starts from (b ∷ bs) = (from, b) ∷ starts (from + 10 * 1664) bs

level_in_start : (b u : ℕ) → u < 1664 → level_in b u ≡ false
unfolding level_in
level_in_start b u h = rw (lt→ltb u 1664 h) refl

level_in_data :
    (b i u : ℕ) → i < 8 → (i + 1) * 1664 ≤ u → u < (i + 2) * 1664 → level_in b u ≡ digit b i
unfolding level_in
level_in_data b i u small after before =
    let e : u / 1664 - 1 ≡ i = omega arith in
    rw (le→ltb u 1664 (omega arith), lt→ltb u (9 * 1664) (omega arith), e) refl

level_in_stop : (b u : ℕ) → 9 * 1664 ≤ u → level_in b u ≡ true
unfolding level_in
level_in_stop b u h = rw (le→ltb u 1664 (omega arith), le→ltb u (9 * 1664) h) refl

-- A level that has the wave of `bs` from the time `o` on.
abbrev HasWave : (ℕ → Bool) → ℕ → List ℕ → Type 0
HasWave level o bs = (u : ℕ) → o ≤ u → level u ≡ wave bs (u - o)

module _ (level : ℕ → Bool) (o b : ℕ) (bs : List ℕ) (has : HasWave level o (b ∷ bs)) where
  in_first : (u : ℕ) → o ≤ u → u < o + 16_640 → level u ≡ level_in b (u - o)
  unfolding wave
  in_first u p q = has u p ∙ rw (lt→ltb (u - o) 16_640 (omega arith)) refl

  after_first : HasWave level (o + 10 * 1664) bs
  unfolding wave
  after_first u p =
      let e : u - o - 16_640 ≡ u - (o + 10 * 1664) = omega arith in
      has u (omega arith) ∙ rw (le→ltb (u - o) 16_640 (omega arith), e) refl

  first-IsFrame : b < 256 → IsFrame level o b
  first-IsFrame small = record {
    byte = small;
    start_bit = λ u p q. in_first u p (omega arith) ∙ level_in_start b (u - o) (omega arith);
    data_bit = λ i u small p q.
        in_first u (omega arith) (omega arith)
        ∙ level_in_data b i (u - o) small (omega arith) (omega arith);
    stop_bit = λ u p q. in_first u (omega arith) q ∙ level_in_stop b (u - o) (omega arith);
  }

wave-AreFrames :
    (level : ℕ → Bool) (o : ℕ) (bs : List ℕ)
    → HasWave level o bs
    → All (λ b. b < 256) bs
    → AreFrames level o (starts o bs)
wave-AreFrames level o [] has bytes = tt
wave-AreFrames level o (b ∷ bs) has bytes = (
  omega arith,
  λ u p q. absurd (omega arith),
  first-IsFrame level o b bs has bytes.0,
  wave-AreFrames level (o + 10 * 1664) bs (after_first level o b bs has) bytes.1,
)

-- The line is high once all is sent.
wave_ends : (bs : List ℕ) (u : ℕ) → wave bs u ≡ false → u < 16_640 * length bs
unfolding wave
wave_ends [] u low = absurd (cc low)
wave_ends (b ∷ bs) u low = elim (le-lt 16_640 u) [
  | inl later ↦
      let step : wave (b ∷ bs) u ≡ wave bs (u - 16_640) = rw (le→ltb u 16_640 later) refl in
      omega (arith, wave_ends bs (u - 16_640) (sym step ∙ low))
  | inr sooner ↦ omega arith
]

-- The first time from `s` on, within `n` cycles, at which the level is `b`.
next_time : (ℕ → Bool) → Bool → ℕ → ℕ → ℕ
next_time level b zero s = s
next_time level b (suc n) s =
    let later = next_time level b n (s + 1) in
    if level s then (if b then s else later) else (if b then later else s)

same_level :
    (b : Bool) (now later : ℕ)
    → (if b then (if b then now else later) else (if b then later else now)) ≡ now
same_level true now later = refl
same_level false now later = refl

other_level :
    (b : Bool) (now later : ℕ)
    → (if not b then (if b then now else later) else (if b then later else now)) ≡ later
other_level true now later = refl
other_level false now later = refl

next_time-Comes :
    (level : ℕ → Bool) (b : Bool) (n s t : ℕ)
    → s ≤ t
    → t ≤ s + n
    → ((u : ℕ) → s ≤ u → u < t → level u ≡ not b)
    → level t ≡ b
    → next_time level b n s ≡ t
unfolding next_time
next_time-Comes level b zero s t before bound others comes = omega arith
next_time-Comes level b (suc n) s t before bound others comes = elim (le-lt t s) [
  | inl now ↦ let e : s ≡ t = omega arith in rw (ap level e, comes) (same_level b s _ ∙ e)
  | inr later ↦ rw (others s (omega arith) later) (
      other_level b s _
      ∙ next_time-Comes level b n (s + 1) t (omega arith) (omega arith)
          (λ u p q. others u (omega arith) q) comes)
]

pub device : List ℕ → Line ℕ
device bs = record {
  wait_for_low = λ s. next_time (wave bs) false (16_640 * length bs) s;
  wait_for_high = λ s. next_time (wave bs) true (16_640 * length bs) s;
  is_high = λ s. (wave bs s, s + 1);
  cycle_count = λ s. (s % 4_294_967_296, s + 1);
  delay = λ n s. s + n + n / 2;
}

pub timed : (bs : List ℕ) → IsTimed (device bs) (wave bs)
unfolding device
timed bs = record {
  clock = λ s. s;
  counts = λ s. refl;
  count_takes = λ s. (omega arith, omega arith);
  samples = λ s. refl;
  sample_takes = λ s. (omega arith, omega arith);
  delay_takes = λ n s. (omega arith, omega arith);
  low_wakes = λ s t p comes.
      let low : wave bs t ≡ false = comes.1 t (omega arith) (omega arith) in
      let e =
        next_time-Comes (wave bs) false (16_640 * length bs) s t p
          (omega (arith, wave_ends bs t low)) comes.0 low in
      (omega (arith, e), omega (arith, e));
  high_wakes = λ s t p comes.
      let high : wave bs t ≡ true = comes.1 t (omega arith) (omega arith) in
      let e =
        next_time-Comes (wave bs) true (16_640 * length bs) s t p
          (elim (le-lt t s) [
            | inl now ↦ omega arith
            | inr later ↦
                omega (arith, wave_ends bs (t - 1) (comes.0 (t - 1) (omega arith) (omega arith)))
          ])
          comes.0 high in
      (omega (arith, e), omega (arith, e));
}

pub sent-AreFrames :
    (bs : List ℕ) → All (λ b. b < 256) bs → AreFrames (wave bs) ((timed bs).clock 0) (starts 0 bs)
unfolding timed
sent-AreFrames bs bytes = wave-AreFrames (wave bs) 0 bs (λ u p. ap (wave bs) (omega arith)) bytes
