-- ===== src/Nrf/SiUart/Digits.antt =====
-- The digits that nrf52840/src/si_uart.rs sets one by one.
use yaroc.Prelude.{ℕ, zero, suc, ◌+◌, ◌*◌, ◌/◌, ◌%◌, ◌^◌, ◌<◌, bit_or, ◌≡◌, refl, ap, arith, Bool}
use yaroc.Prelude.{◌==◌, if◌then◌else◌}
use yaroc.Prelude.Bits.{bit_or_lowest, two-pow-pos, mod_double, div_double}
use native.Mathlib.Nat.{pow-suc}

-- A place that is still free takes a digit.
bit_or-digit : (k a : ℕ) → a < 2 ^ k → bit_or a (2 ^ k) ≡ a + 2 ^ k
bit_or-digit zero a h = let e : a ≡ 0 = omega arith in rw e refl
bit_or-digit (suc k) a h =
    let half : 2 ^ suc k / 2 ≡ 2 ^ k = omega (arith, pow-suc 2 k) in
    let even : 2 ^ suc k % 2 ≡ 0 = omega (arith, pow-suc 2 k) in
    omega (
      arith,
      pow-suc 2 k,
      even,
      rw half at (bit_or_lowest a (2 ^ suc k)),
      bit_or-digit k (a / 2) (omega (arith, pow-suc 2 k)),
    )

-- One more digit of a number.
digit_next : (k b : ℕ) → b % 2 ^ suc k ≡ b % 2 ^ k + b / 2 ^ k % 2 * 2 ^ k
digit_next zero b = let one : b / 2 ^ 0 ≡ b = omega arith in rw one (omega arith)
digit_next (suc k) b =
    let d : b / 2 ^ suc k ≡ b / 2 / 2 ^ k =
      rw (← pow-suc 2 k) at (div_double b (2 ^ k) (two-pow-pos k)) in
    let m = λ (j : ℕ). rw (← pow-suc 2 j) at (mod_double b (2 ^ j) (two-pow-pos j)) in
    rw d (
      omega (
        arith,
        m (suc k),
        m k,
        digit_next k (b / 2),
        ap (λ (t : ℕ). b / 2 / 2 ^ k % 2 * t) (pow-suc 2 k),
      ))

abbrev pub digit : ℕ → ℕ → Bool
digit b i = b / 2 ^ i % 2 == 1

or_of_digit :
    (d p a : ℕ) → d < 2 → bit_or a p ≡ a + p → (if d == 1 then bit_or a p else a) ≡ a + d * p
or_of_digit zero p a h e = omega arith
or_of_digit (suc zero) p a h e = omega (arith, e)
or_of_digit (suc (suc d)) p a h e = absurd (omega arith)

pub or_next :
    (i b : ℕ) → (if digit b i then bit_or (b % 2 ^ i) (2 ^ i) else b % 2 ^ i) ≡ b % 2 ^ suc i
or_next i b = rw (digit_next i b) (
    or_of_digit (b / 2 ^ i % 2) (2 ^ i) (b % 2 ^ i) (omega arith)
      (bit_or-digit i (b % 2 ^ i) (omega (arith, two-pow-pos i))))
