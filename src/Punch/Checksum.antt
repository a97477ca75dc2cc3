-- ===== src/Punch/Checksum.antt =====
-- `sportident_checksum` of common/src/punch.rs is a division of polynomials.
use native.Mathlib.Decide.{dec_lt}
use native.Mathlib.Nat.{pow-suc}
use yaroc.Prelude.{ℕ, zero, suc, ◌+◌, ◌*◌, ◌/◌, ◌%◌, ◌^◌, ◌<◌, ◌≡◌, ap, ◌∙◌, arith}
use yaroc.Prelude.{bit_and, bit_xor, ltb, leb}
use yaroc.Prelude.Bits.Masks.{bit_and_digit}
use yaroc.Prelude.Bits.{xor_div, xor_mod, xor-zero}
use yaroc.Punch.{checksum_round, checksum_rounds}
use yaroc.Punch.Polynomials.{generator, IsRemainder, IsRemainder-step}

top_digit : (x : ℕ) → x < 2 ^ 16 → ltb 0 (bit_and x 0x8000) ≡ leb 0x8000 x
top_digit x h = ground (arith, bit_and_digit 15 x)

-- The generator takes the place of its lower digits, since the top digit falls out of 16.
xor_overflow : (x : ℕ) → x < 2 ^ 16 → bit_xor (2 ^ 16 + x) generator ≡ bit_xor x 0x8005
xor_overflow x h =
    let high : (2 ^ 16 + x) / 2 ^ 16 ≡ 1 = omega arith in
    let low : (2 ^ 16 + x) % 2 ^ 16 ≡ x = omega arith in
    omega (
      arith,
      rw high at (xor_div 16 (2 ^ 16 + x) generator),
      rw low at (xor_mod 16 (2 ^ 16 + x) generator),
    )

-- A round shifts the top digit of the word into the remainder and divides.
checksum_round_lem :
    (c v : ℕ)
    → c < 2 ^ 16
    → v < 2 ^ 16
    → checksum_round c v ≡ bit_xor (c * 2 + v / 2 ^ 15) (c / 2 ^ 15 * generator)
unfolding checksum_round
checksum_round_lem c v p q = elim (dec_lt c (2 ^ 15)) [
  | yes low ↦
      let none_out : c / 2 ^ 15 ≡ 0 = omega arith in
      rw (none_out, xor-zero (c * 2 + v / 2 ^ 15), top_digit c p, top_digit v q) (ground arith)
  | no high ↦
      let one_out : c / 2 ^ 15 ≡ 1 = omega arith in
      let x = c * 2 % 2 ^ 16 + v / 2 ^ 15 in
      let split : c * 2 + v / 2 ^ 15 ≡ 2 ^ 16 + x = omega arith in
      rw (one_out, split, xor_overflow x (omega arith), top_digit c p, top_digit v q) (ground arith)
]

-- What `left` rounds append to the number `m` from the word `v`.
appended : ℕ → ℕ → ℕ → ℕ
appended zero m v = m
appended (suc left) m v = appended left (m * 2 + v / 2 ^ 15) (v * 2 % 2 ^ 16)

rounds-IsRemainder :
    (left m c v : ℕ)
    → v < 2 ^ 16
    → IsRemainder m c
    → IsRemainder (appended left m v) (checksum_rounds left c v)
unfolding appended checksum_rounds
rounds-IsRemainder zero m c v p h = h
rounds-IsRemainder (suc left) m c v p h =
    rounds-IsRemainder left (m * 2 + v / 2 ^ 15) (checksum_round c v) (v * 2 % 2 ^ 16) (omega arith)
      (rw (checksum_round_lem c v h.small p) (IsRemainder-step m c (v / 2 ^ 15) (omega arith) h))

-- Rounds shift the number and the word together.
appended_shifts :
    (left m v : ℕ)
    → v < 2 ^ 16
    → (w : ℕ) × (w < 2 ^ 16) × (appended left m v * 2 ^ 16 + w ≡ 2 ^ left * (m * 2 ^ 16 + v))
unfolding appended
appended_shifts zero m v p = (v, p, omega arith)
appended_shifts (suc left) m v p =
    let (w, small, e) = appended_shifts left (m * 2 + v / 2 ^ 15) (v * 2 % 2 ^ 16) (omega arith) in
    let twice : (m * 2 + v / 2 ^ 15) * 2 ^ 16 + v * 2 % 2 ^ 16 ≡ 2 * (m * 2 ^ 16 + v) =
      omega arith in
    (
      w,
      small,
      e
          ∙ omega (
            arith,
            ap (λ (t : ℕ). 2 ^ left * t) twice,
            ap (λ (t : ℕ). t * (m * 2 ^ 16 + v)) (pow-suc 2 left),
          ),
    )

appended_word : (m v : ℕ) → v < 2 ^ 16 → appended 16 m v ≡ m * 2 ^ 16 + v
appended_word m v p = let (w, small, e) = appended_shifts 16 m v p in omega arith

pub word-IsRemainder :
    (m c v : ℕ)
    → v < 2 ^ 16
    → IsRemainder m c
    → IsRemainder (m * 2 ^ 16 + v) (checksum_rounds 16 c v)
word-IsRemainder m c v p h = rw (← appended_word m v p) (rounds-IsRemainder 16 m c v p h)
