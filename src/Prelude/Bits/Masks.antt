-- ===== src/Prelude/Bits/Masks.antt =====
-- Masks: what the program reads from a number by `&`.
use Prim.Native.Nat.{ℕ, zero, suc, ◌+◌, ◌*◌, ◌/◌, ◌%◌, ◌^◌, ◌-◌, ◌≤◌}
use Prim.Native.Nat.{bit_and, bit_or}
use mathlib.Core.Path.{◌≡◌, refl, ap}
use native.Mathlib.Omega.{arith}
use native.Mathlib.Nat.{pow-suc}
use yaroc.Prelude.Bits.{bit_and_lowest, bit_or_lowest, two-pow-pos, mod_double, div_double}

and_zero_below : (n a : ℕ) → a ≤ n → bit_and a 0 ≡ 0
and_zero_below n zero h = refl
and_zero_below zero (suc a) h = absurd (omega arith)
and_zero_below (suc n) (suc a) h =
    omega (arith, bit_and_lowest (suc a) 0, and_zero_below n (suc a / 2) (omega arith))

pub and-zero : (a : ℕ) → bit_and a 0 ≡ 0
and-zero a = and_zero_below a a (omega arith)

or_zero_below : (n a : ℕ) → a ≤ n → bit_or a 0 ≡ a
or_zero_below n zero h = refl
or_zero_below zero (suc a) h = absurd (omega arith)
or_zero_below (suc n) (suc a) h =
    omega (arith, bit_or_lowest (suc a) 0, or_zero_below n (suc a / 2) (omega arith))

pub or-zero : (a : ℕ) → bit_or a 0 ≡ a
or-zero a = or_zero_below a a (omega arith)

mask_step : (k a : ℕ) → bit_and a (2 ^ suc k - 1) ≡ bit_and (a / 2) (2 ^ k - 1) * 2 + a % 2
mask_step k a =
    let half : (2 ^ suc k - 1) / 2 ≡ 2 ^ k - 1 = omega (arith, pow-suc 2 k) in
    omega (arith, pow-suc 2 k, two-pow-pos k, rw half at (bit_and_lowest a (2 ^ suc k - 1)))

-- A mask of ones keeps the remainder by a power of two.
pub bit_and_ones : (k a : ℕ) → bit_and a (2 ^ k - 1) ≡ a % 2 ^ k
bit_and_ones zero a = rw and-zero (omega arith)
bit_and_ones (suc k) a = omega (
  arith,
  mask_step k a,
  bit_and_ones k (a / 2),
  rw (← pow-suc 2 k) at (mod_double a (2 ^ k) (two-pow-pos k)),
)

-- A mask of a single one keeps that digit.
pub bit_and_digit : (k a : ℕ) → bit_and a (2 ^ k) ≡ a / 2 ^ k % 2 * 2 ^ k
bit_and_digit zero a = omega (arith, bit_and_ones 1 a)
bit_and_digit (suc k) a =
    let half : 2 ^ suc k / 2 ≡ 2 ^ k = omega (arith, pow-suc 2 k) in
    let even : 2 ^ suc k % 2 ≡ 0 = omega (arith, pow-suc 2 k) in
    let d : a / 2 ^ suc k ≡ a / 2 / 2 ^ k =
      rw (← pow-suc 2 k) at (div_double a (2 ^ k) (two-pow-pos k)) in
    rw d (
      omega (
        arith,
        pow-suc 2 k,
        even,
        rw half at (bit_and_lowest a (2 ^ suc k)),
        bit_and_digit k (a / 2),
        ap (λ (t : ℕ). a / 2 / 2 ^ k % 2 * t) (pow-suc 2 k),
      ))
