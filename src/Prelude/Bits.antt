-- ===== src/Prelude/Bits.antt =====
-- Laws of the bit operations at variables: one equation for the lowest digit, then what the
-- program's masks and exclusive ors need.
pub mod Masks
use Prim.Native.Nat.{ℕ, zero, suc, ◌+◌, ◌*◌, ◌/◌, ◌%◌, ◌^◌, ◌-◌, ◌≤◌, ◌<◌, min, max, differ}
use Prim.Native.Nat.{
  digits, bit_and, bit_or, bit_xor, bit_and-bitwise, bit_or-bitwise, bit_xor-bitwise,
}
use mathlib.Core.Path.{◌≡◌, refl, ap, ◌∙◌}
use native.Mathlib.Omega.{arith}
use native.Mathlib.Nat.{pow-suc}

-- Any count of digits that covers the first number gives one result.
digits_cover :
    (z : ℕ → ℕ) (f : ℕ → ℕ → ℕ) (n m a b : ℕ) → a ≤ n → a ≤ m → digits z f n a b ≡ digits z f m a b
digits_cover z f zero zero zero b p q = refl
digits_cover z f zero zero (suc a) b p q = absurd (omega arith)
digits_cover z f zero (suc m) zero b p q = refl
digits_cover z f zero (suc m) (suc a) b p q = absurd (omega arith)
digits_cover z f (suc n) zero zero b p q = refl
digits_cover z f (suc n) zero (suc a) b p q = absurd (omega arith)
digits_cover z f (suc n) (suc m) zero b p q = refl
digits_cover z f (suc n) (suc m) (suc a) b p q =
    rw (digits_cover z f n m (suc a / 2) (b / 2) (omega arith) (omega arith))

lowest_digit :
    (z : ℕ → ℕ) (f : ℕ → ℕ → ℕ) (a b : ℕ)
    → digits z f (suc a) (suc a) b
      ≡ digits z f (suc a / 2) (suc a / 2) (b / 2) * 2 + f (suc a % 2) (b % 2)
lowest_digit z f a b =
    rw (digits_cover z f a (suc a / 2) (suc a / 2) (b / 2) (omega arith) (omega arith))

pub bit_and_lowest : (a b : ℕ) → bit_and a b ≡ bit_and (a / 2) (b / 2) * 2 + min (a % 2) (b % 2)
bit_and_lowest zero b = simp bit_and-bitwise (omega arith)
bit_and_lowest (suc a) b = simp bit_and-bitwise (lowest_digit (λ _. 0) min a b)

pub bit_or_lowest : (a b : ℕ) → bit_or a b ≡ bit_or (a / 2) (b / 2) * 2 + max (a % 2) (b % 2)
bit_or_lowest zero b = simp bit_or-bitwise (omega arith)
bit_or_lowest (suc a) b = simp bit_or-bitwise (lowest_digit (λ c. c) max a b)

-- The exclusive or of two digits, in a form that `omega` reads.
abbrev differ_digits : ℕ → ℕ → ℕ
differ_digits x y = (x + y) % 2

differ_lem : (x y : ℕ) → x < 2 → y < 2 → differ x y ≡ differ_digits x y
differ_lem zero y p q = omega arith
differ_lem (suc zero) zero p q = refl
differ_lem (suc zero) (suc zero) p q = refl
differ_lem (suc zero) (suc (suc y)) p q = absurd (omega arith)
differ_lem (suc (suc x)) y p q = absurd (omega arith)

xor_raw : (a b : ℕ) → bit_xor a b ≡ bit_xor (a / 2) (b / 2) * 2 + differ (a % 2) (b % 2)
xor_raw zero b = simp bit_xor-bitwise (omega arith)
xor_raw (suc a) b = simp bit_xor-bitwise (lowest_digit (λ c. c) differ a b)

pub bit_xor_lowest : (a b : ℕ) → bit_xor a b ≡ bit_xor (a / 2) (b / 2) * 2 + (a + b) % 2
bit_xor_lowest a b =
    omega (arith, xor_raw a b, differ_lem (a % 2) (b % 2) (omega arith) (omega arith))

xor_zero_below : (n a : ℕ) → a ≤ n → bit_xor a 0 ≡ a
xor_zero_below n zero h = refl
xor_zero_below zero (suc a) h = absurd (omega arith)
xor_zero_below (suc n) (suc a) h =
    omega (arith, bit_xor_lowest (suc a) 0, xor_zero_below n (suc a / 2) (omega arith))

pub xor-zero : (a : ℕ) → bit_xor a 0 ≡ a
xor-zero a = xor_zero_below a a (omega arith)

pub zero-xor : (a : ℕ) → bit_xor 0 a ≡ a
zero-xor a = bit_xor-bitwise 0 a

xor_comm_below : (n a b : ℕ) → a + b ≤ n → bit_xor a b ≡ bit_xor b a
xor_comm_below zero a b h = let p : a ≡ 0 = omega arith in let q : b ≡ 0 = omega arith in rw (p, q)
xor_comm_below (suc n) a b h =
    omega (
      arith,
      bit_xor_lowest a b,
      bit_xor_lowest b a,
      xor_comm_below n (a / 2) (b / 2) (omega arith),
    )

pub xor_comm : (a b : ℕ) → bit_xor a b ≡ bit_xor b a
xor_comm a b = xor_comm_below (a + b) a b (omega arith)

xor_assoc_below : (n a b c : ℕ) → a + b + c ≤ n → bit_xor (bit_xor a b) c ≡ bit_xor a (bit_xor b c)
xor_assoc_below zero a b c h =
    let p : a ≡ 0 = omega arith in
    let q : b ≡ 0 = omega arith in let r : c ≡ 0 = omega arith in rw (p, q, r)
xor_assoc_below (suc n) a b c h =
    let x = bit_xor a b in
    let y = bit_xor b c in
    let p : x / 2 ≡ bit_xor (a / 2) (b / 2) = omega (arith, bit_xor_lowest a b) in
    let q : y / 2 ≡ bit_xor (b / 2) (c / 2) = omega (arith, bit_xor_lowest b c) in
    let ih = xor_assoc_below n (a / 2) (b / 2) (c / 2) (omega arith) in
    let l : bit_xor (x / 2) (c / 2) ≡ bit_xor (a / 2) (y / 2) = rw (p, q) ih in
    omega (arith, bit_xor_lowest a b, bit_xor_lowest b c, bit_xor_lowest x c, bit_xor_lowest a y, l)

pub xor_assoc : (a b c : ℕ) → bit_xor (bit_xor a b) c ≡ bit_xor a (bit_xor b c)
xor_assoc a b c = xor_assoc_below (a + b + c) a b c (omega arith)

xor_self_below : (n a : ℕ) → a ≤ n → bit_xor a a ≡ 0
xor_self_below n zero h = refl
xor_self_below zero (suc a) h = absurd (omega arith)
xor_self_below (suc n) (suc a) h =
    omega (arith, bit_xor_lowest (suc a) (suc a), xor_self_below n (suc a / 2) (omega arith))

pub xor_self : (a : ℕ) → bit_xor a a ≡ 0
xor_self a = xor_self_below a a (omega arith)

-- What is xored in twice is gone.
pub xor-xor_cancel : (a b : ℕ) → bit_xor (bit_xor a b) b ≡ a
xor-xor_cancel a b = rw (xor_assoc, xor_self b) (xor-zero a)

pub xor_left_injective : (a b c : ℕ) → bit_xor a b ≡ bit_xor a c → b ≡ c
xor_left_injective a b c h = cc (xor-xor_cancel b a, xor-xor_cancel c a, xor_comm a b, xor_comm a c)

-- The exclusive or of two sums is the sum, or the exclusive or, of the parts, pair by pair.
pub xor_interchange :
    (a b c d : ℕ) → bit_xor (bit_xor a b) (bit_xor c d) ≡ bit_xor (bit_xor a c) (bit_xor b d)
xor_interchange a b c d = cc (
  xor_assoc a b (bit_xor c d),
  xor_assoc a c (bit_xor b d),
  xor_assoc b c d,
  xor_assoc c b d,
  xor_comm b c,
)

-- A shift by one place, with a new lowest digit.
pub xor_shift :
    (a b x y : ℕ) → x < 2 → y < 2 → bit_xor (a * 2 + x) (b * 2 + y) ≡ bit_xor a b * 2 + (x + y) % 2
xor_shift a b x y p q =
    let l : (a * 2 + x) / 2 ≡ a = omega arith in
    let r : (b * 2 + y) / 2 ≡ b = omega arith in
    omega (arith, rw (l, r) at (bit_xor_lowest (a * 2 + x) (b * 2 + y)))

pub xor-lt : (k a b : ℕ) → a < 2 ^ k → b < 2 ^ k → bit_xor a b < 2 ^ k
xor-lt zero a b p q =
    let u : a ≡ 0 = omega arith in let v : b ≡ 0 = omega arith in rw (u, v) (omega arith)
xor-lt (suc k) a b p q = omega (
  arith,
  bit_xor_lowest a b,
  pow-suc 2 k,
  xor-lt k (a / 2) (b / 2) (omega (arith, pow-suc 2 k)) (omega (arith, pow-suc 2 k)),
)

pub two-pow-pos : (k : ℕ) → 0 < 2 ^ k
two-pow-pos zero = omega arith
two-pow-pos (suc k) = omega (arith, pow-suc 2 k, two-pow-pos k)

pub mod_double : (a p : ℕ) → 0 < p → a % (p * 2) ≡ a / 2 % p * 2 + a % 2
mod_double a p h = grind arith

pub div_double : (a p : ℕ) → 0 < p → a / (p * 2) ≡ a / 2 / p
div_double a p h = grind arith

-- An exclusive or works on the low and on the high digits apart.
pub xor_div : (k a b : ℕ) → bit_xor a b / 2 ^ k ≡ bit_xor (a / 2 ^ k) (b / 2 ^ k)
xor_div zero a b =
    let one : (n : ℕ) → n / 2 ^ 0 ≡ n = λ n. omega arith in rw (one a, one b) (one (bit_xor a b))
xor_div (suc k) a b =
    let half : bit_xor a b / 2 ≡ bit_xor (a / 2) (b / 2) = omega (arith, bit_xor_lowest a b) in
    let d = λ (n : ℕ). rw (← pow-suc 2 k) at (div_double n (2 ^ k) (two-pow-pos k)) in
    rw (d a, d b) (d (bit_xor a b) ∙ rw half (xor_div k (a / 2) (b / 2)))

pub xor_mod : (k a b : ℕ) → bit_xor a b % 2 ^ k ≡ bit_xor (a % 2 ^ k) (b % 2 ^ k)
xor_mod zero a b =
    let one : (n : ℕ) → n % 2 ^ 0 ≡ 0 = λ n. omega arith in rw (one a, one b) (one (bit_xor a b))
xor_mod (suc k) a b =
    let half : bit_xor a b / 2 ≡ bit_xor (a / 2) (b / 2) = omega (arith, bit_xor_lowest a b) in
    let m = λ (n : ℕ). rw (← pow-suc 2 k) at (mod_double n (2 ^ k) (two-pow-pos k)) in
    rw (m a, m b)
      (rw (xor_shift (a / 2 % 2 ^ k) (b / 2 % 2 ^ k) (a % 2) (b % 2) (omega arith) (omega arith)) (
        omega (
          arith,
          m (bit_xor a b),
          ap (λ (n : ℕ). n % 2 ^ k) half,
          bit_xor_lowest a b,
          xor_mod k (a / 2) (b / 2),
        )))
