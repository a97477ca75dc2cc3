-- ===== src/Prelude/Int.antt =====
-- Signed integers over the native numbers: what the program's i8, i16 and i32 stand for.
use Prim.Native.Nat.{ℕ, suc, ◌+◌, ◌-◌, ◌*◌, ◌%◌, ◌<◌}
use mathlib.Core.Path.{◌≡◌}
use mathlib.Core.Bool.{Bool, true, false}
use native.Mathlib.Omega.{arith}
use yaroc.Prelude.Tests.{ltb, leb, ◌==◌, if◌then◌else◌}

-- `negsuc n` is -(n + 1).
pub data ℤ : Type 0 where
  pos : ℕ → ℤ
  negsuc : ℕ → ℤ

abbrev pub pos_part : ℤ → ℕ
pos_part (pos n) = n
pos_part (negsuc n) = 0

abbrev pub neg_part : ℤ → ℕ
neg_part (pos n) = 0
neg_part (negsuc n) = suc n

-- a - b, as an integer.
abbrev pub sub_ℕ : ℕ → ℕ → ℤ
sub_ℕ a b = if leb b a then pos (a - b) else negsuc (b - a - 1)

infixl 65 ◌-ℤ◌
abbrev pub ◌-ℤ◌ : ℤ → ℤ → ℤ
a -ℤ b = sub_ℕ (pos_part a + neg_part b) (neg_part a + pos_part b)

abbrev pub eq_ℤ : ℤ → ℤ → Bool
eq_ℤ (pos a) (pos b) = a == b
eq_ℤ (negsuc a) (negsuc b) = a == b
eq_ℤ _ _ = false

-- The integer is one of those from -half to half - 1.
abbrev pub Fits : ℕ → ℤ → Type 0
Fits half (pos n) = n < half
Fits half (negsuc n) = n < half

abbrev pub fits : ℕ → ℤ → Bool
fits half (pos n) = ltb n half
fits half (negsuc n) = ltb n half

-- `as i8`, `as i16`: the integer of that range that has the same lower bits; `half` is 2 ^ 7, 2 ^ 15.
abbrev pub bits_of : ℕ → ℤ → ℕ
bits_of half (pos n) = n % (half * 2)
bits_of half (negsuc n) = half * 2 - 1 - n % (half * 2)

abbrev pub wrapped : ℕ → ℤ → ℤ
wrapped half z =
    let bits = bits_of half z in if ltb bits half then pos bits else negsuc (half * 2 - 1 - bits)

pub wrapped-Fits_i8 : (z : ℤ) → Fits 128 z → wrapped 128 z ≡ z
wrapped-Fits_i8 (pos n) h = ground arith
wrapped-Fits_i8 (negsuc n) h = ground arith

pub eq_ℤ_refl : (z : ℤ) → eq_ℤ z z ≡ true
eq_ℤ_refl (pos n) = ground arith
eq_ℤ_refl (negsuc n) = ground arith
