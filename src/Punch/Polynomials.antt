-- ===== src/Punch/Polynomials.antt =====
-- Polynomials over two elements, written as numbers whose binary digits are the coefficients, and
-- division by the generator of SportIdent's checksum.
use yaroc.Prelude.{
  ℕ, zero, suc, ◌+◌, ◌*◌, ◌/◌, ◌%◌, ◌^◌, ◌≤◌, ◌<◌, ◌≡◌, refl, ap, ap₂, sym, ◌∙◌, arith,
}
use mathlib.Core.Path.{◌≡⟨◌⟩◌, ◌∎}
use native.Mathlib.Decide.{dec_lt}
use yaroc.Prelude.{bit_xor}
use yaroc.Prelude.Bits.{bit_xor_lowest, xor_shift, xor_div, xor-zero, zero-xor}
use yaroc.Prelude.Bits.{xor_interchange, xor_self, xor-lt, xor-xor_cancel}

-- x^16 + x^15 + x^2 + 1.
abbrev pub generator : ℕ
generator = 0x18005

-- The product of a polynomial and the generator, digit by digit; `n` digits are looked at.
multiple_digits : ℕ → ℕ → ℕ
multiple_digits zero q = 0
multiple_digits (suc n) q = bit_xor (multiple_digits n (q / 2) * 2) (q % 2 * generator)

pub multiple : ℕ → ℕ
multiple q = multiple_digits q q

digits_zero : (n : ℕ) → multiple_digits n 0 ≡ 0
unfolding multiple_digits
digits_zero zero = refl
digits_zero (suc n) = rw (digits_zero n)

digits_enough : (n m q : ℕ) → q ≤ n → q ≤ m → multiple_digits n q ≡ multiple_digits m q
unfolding multiple_digits
digits_enough n m zero p r = digits_zero n ∙ sym (digits_zero m)
digits_enough zero m (suc q) p r = absurd (omega arith)
digits_enough (suc n) zero (suc q) p r = absurd (omega arith)
digits_enough (suc n) (suc m) (suc q) p r =
    rw (digits_enough n m (suc q / 2) (omega arith) (omega arith))

multiple_lowest : (q : ℕ) → multiple q ≡ bit_xor (multiple (q / 2) * 2) (q % 2 * generator)
unfolding multiple multiple_digits
multiple_lowest zero = refl
multiple_lowest (suc q) = rw (digits_enough q (suc q / 2) (suc q / 2) (omega arith) (omega arith))

multiple_shift : (q t : ℕ) → t < 2 → multiple (q * 2 + t) ≡ bit_xor (multiple q * 2) (t * generator)
multiple_shift q t h =
    let half : (q * 2 + t) / 2 ≡ q = omega arith in
    let low : (q * 2 + t) % 2 ≡ t = omega arith in multiple_lowest (q * 2 + t) ∙ rw (half, low)

-- `m` is a multiple of the generator plus `r`.
pub record IsRemainder (m r : ℕ) : Type 0 where
  pub quotient : ℕ
  pub divides : bit_xor (multiple quotient) r ≡ m
  pub small : r < 2 ^ 16

-- What is of lower degree is its own remainder.
pub small-IsRemainder : (m : ℕ) → m < 2 ^ 16 → IsRemainder m m
unfolding multiple multiple_digits
small-IsRemainder m p = record { quotient = 0; divides = zero-xor m; small = p }

scaled :
    (x y : ℕ) → x < 2 → y < 2 → bit_xor (x * generator) (y * generator) ≡ (x + y) % 2 * generator
scaled zero zero p q = refl
scaled zero (suc zero) p q = refl
scaled (suc zero) zero p q = refl
scaled (suc zero) (suc zero) p q = refl
scaled zero (suc (suc y)) p q = absurd (omega arith)
scaled (suc zero) (suc (suc y)) p q = absurd (omega arith)
scaled (suc (suc x)) y p q = absurd (omega arith)

xor_twice : (a b : ℕ) → bit_xor (a * 2) (b * 2) ≡ bit_xor a b * 2
xor_twice a b =
    let zero_digit : (n : ℕ) → n * 2 + 0 ≡ n * 2 = λ n. omega arith in
    omega
      (arith, rw (zero_digit a, zero_digit b) at (xor_shift a b 0 0 (omega arith) (omega arith)))

multiple_xor_below :
    (n a b : ℕ) → a + b ≤ n → multiple (bit_xor a b) ≡ bit_xor (multiple a) (multiple b)
multiple_xor_below zero a b h =
    let p : a ≡ 0 = omega arith in
    let q : b ≡ 0 = omega arith in rw (p, q) (unfold multiple multiple_digits in refl)
multiple_xor_below (suc n) a b h =
    multiple (bit_xor a b)
    ≡⟨ ap multiple (bit_xor_lowest a b) ⟩ multiple (bit_xor (a / 2) (b / 2) * 2 + (a + b) % 2)
    ≡⟨ multiple_shift (bit_xor (a / 2) (b / 2)) ((a + b) % 2) (omega arith) ⟩
      bit_xor (multiple (bit_xor (a / 2) (b / 2)) * 2) ((a + b) % 2 * generator)
    ≡⟨ (rw (multiple_xor_below n (a / 2) (b / 2) (omega arith))) ⟩
      bit_xor (bit_xor (multiple (a / 2)) (multiple (b / 2)) * 2) ((a + b) % 2 * generator)
    ≡⟨ ap₂ bit_xor (sym (xor_twice (multiple (a / 2)) (multiple (b / 2)))) (sym digit) ⟩
      bit_xor (bit_xor (multiple (a / 2) * 2) (multiple (b / 2) * 2))
        (bit_xor (a % 2 * generator) (b % 2 * generator))
    ≡⟨ xor_interchange (multiple (a / 2) * 2) (multiple (b / 2) * 2) (a % 2 * generator)
        (b % 2 * generator) ⟩
      bit_xor (bit_xor (multiple (a / 2) * 2) (a % 2 * generator))
        (bit_xor (multiple (b / 2) * 2) (b % 2 * generator))
    ≡⟨ ap₂ bit_xor (sym (multiple_lowest a)) (sym (multiple_lowest b)) ⟩
      bit_xor (multiple a) (multiple b) ∎
  where
    digit : bit_xor (a % 2 * generator) (b % 2 * generator) ≡ (a + b) % 2 * generator
    digit = omega (arith, scaled (a % 2) (b % 2) (omega arith) (omega arith))

multiple-xor : (a b : ℕ) → multiple (bit_xor a b) ≡ bit_xor (multiple a) (multiple b)
multiple-xor a b = multiple_xor_below (a + b) a b (omega arith)

-- A multiple that is not zero has at least the generator's degree.
degree_below : (n q : ℕ) → q ≤ n → 0 < q → 2 ^ 16 ≤ multiple q
degree_below zero q h p = absurd (omega arith)
degree_below (suc n) q h p = elim (dec_lt 0 (q / 2)) [
  | yes more ↦
      let ih = degree_below n (q / 2) (omega arith) more in
      let high : multiple q / 2 ^ 17 ≡ multiple (q / 2) * 2 / 2 ^ 17 =
        ap (λ (t : ℕ). t / 2 ^ 17) (multiple_lowest q)
        ∙ xor_div 17 (multiple (q / 2) * 2) (q % 2 * generator)
        ∙ (let gone : q % 2 * generator / 2 ^ 17 ≡ 0 = omega arith in
            rw gone (xor-zero (multiple (q / 2) * 2 / 2 ^ 17))) in
      omega arith
  | no last ↦
      let one : q ≡ 1 = omega arith in rw one (unfold multiple multiple_digits in omega arith)
]

xor_zero→eq : (a b : ℕ) → bit_xor a b ≡ 0 → a ≡ b
xor_zero→eq a b h = cc (xor-xor_cancel a b, zero-xor b)

-- Division by the generator has one remainder.
pub IsRemainder-unique : (m r s : ℕ) → IsRemainder m r → IsRemainder m s → r ≡ s
IsRemainder-unique m r s h k = xor_zero→eq r s (elim (dec_lt 0 q) [
  | yes differ ↦
      absurd
        (omega (arith, degree_below q q (omega arith) differ, same, xor-lt 16 r s h.small k.small))
  | no equal ↦
      let none_left : q ≡ 0 = omega arith in
      sym same ∙ rw none_left (unfold multiple multiple_digits in refl)
])
  where
    q : ℕ
    q = bit_xor h.quotient k.quotient

    same : multiple q ≡ bit_xor r s
    same =
        multiple-xor h.quotient k.quotient
        ∙ cc (
          h.divides,
          k.divides,
          xor-xor_cancel (multiple h.quotient) r,
          xor-xor_cancel (multiple k.quotient) s,
          xor_interchange m r m s,
          xor_self m,
          zero-xor (bit_xor r s),
        )

digit_in : (a r b : ℕ) → b < 2 → bit_xor (a * 2) (r * 2 + b) ≡ bit_xor a r * 2 + b
digit_in a r b h =
    let zero_digit : a * 2 + 0 ≡ a * 2 = omega arith in
    omega (arith, rw zero_digit at (xor_shift a r 0 b (omega arith) h))

-- The remainder of `m` with one more digit: shifted, and less the generator where it got too long.
pub IsRemainder-step :
    (m r b : ℕ)
    → b < 2
    → IsRemainder m r
    → IsRemainder (m * 2 + b) (bit_xor (r * 2 + b) (r / 2 ^ 15 * generator))
IsRemainder-step m r b h k = record {
  quotient = k.quotient * 2 + r / 2 ^ 15;
  divides = rw (multiple_shift k.quotient top (omega (arith, k.small))) (
      xor_interchange (multiple k.quotient * 2) (top * generator) (r * 2 + b) (top * generator)
      ∙ rw (xor_self (top * generator)) (
          xor-zero _ ∙ digit_in (multiple k.quotient) r b h ∙ ap (λ (t : ℕ). t * 2 + b) k.divides));
  small =
      let high : bit_xor (r * 2 + b) (top * generator) / 2 ^ 16 ≡ 0 =
        xor_div 16 (r * 2 + b) (top * generator)
        ∙ (let left : (r * 2 + b) / 2 ^ 16 ≡ top = omega arith in
            let right : top * generator / 2 ^ 16 ≡ top = omega (arith, k.small) in
            rw (left, right) (xor_self top)) in
      omega arith;
}
  where
    top : ℕ
    top = r / 2 ^ 15
