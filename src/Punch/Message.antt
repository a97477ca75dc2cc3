-- ===== src/Punch/Message.antt =====
-- `sportident_checksum` of common/src/punch.rs on a whole message: what it computes, and the
-- lengths that it takes.
use mathlib.Core.List.{append-nil}
use native.Mathlib.Decide.{ℕ_discrete}
use yaroc.Prelude.{ℕ, suc, ◌+◌, ◌*◌, ◌%◌, ◌^◌, ◌≤◌, ◌<◌, ◌≡◌, ◌↔◌, refl, ap, ◌∙◌, arith}
use yaroc.Prelude.{◌==◌, if◌then◌else◌, lt→ltb, le→ltb, List, [], ◌∷◌, ◌++◌}
use yaroc.Prelude.{true, false, length, All, length-append}
use yaroc.Prelude.Result.{ok, panic}
use yaroc.Punch.{checksum_rounds, checksum_words, padded, sportident_checksum}
use yaroc.Punch.{u16_from_be_bytes}
use yaroc.Punch.Polynomials.{IsRemainder, IsRemainder-unique, small-IsRemainder}
use yaroc.Punch.Checksum.{word-IsRemainder}

abbrev pub IsByte : ℕ → Type 0
IsByte x = x < 256

-- The bytes of a message as the digits of a number, after the number `m`.
pub number : ℕ → List ℕ → ℕ
number m [] = m
number m (x ∷ xs) = number (m * 256 + x) xs

number-append_zero : (m : ℕ) (xs : List ℕ) → number m (xs ++ 0 ∷ []) ≡ number m xs * 256
unfolding number
number-append_zero m [] = omega arith
number-append_zero m (x ∷ xs) = number-append_zero (m * 256 + x) xs

-- The polynomial of a message: its bytes, made up to words by a zero byte at the end.
pub polynomial : List ℕ → ℕ
polynomial message = if length message % 2 == 1 then number 0 message * 256 else number 0 message

-- Past the message nothing more is read.
words_past : (xs : List ℕ) (i len c : ℕ) → len ≤ i → checksum_words xs i len c ≡ c
unfolding checksum_words
words_past [] i len c h = refl
words_past (x ∷ []) i len c h = refl
words_past (x ∷ y ∷ xs) i len c h = rw (le→ltb i len h)

words_more :
    (x y : ℕ) (xs : List ℕ) (i len c : ℕ)
    → i < len
    → checksum_words (x ∷ y ∷ xs) i len c
      ≡ checksum_words xs (i + 2) len (checksum_rounds 16 c (u16_from_be_bytes x y))
unfolding checksum_words
words_more x y xs i len c h = rw (lt→ltb i len h)

-- The words of `xs` are appended to the number, and the `spare` bytes are not looked at.
words-IsRemainder :
    (xs spare : List ℕ) (i len m c : ℕ)
    → All IsByte xs
    → length xs % 2 ≡ 0
    → len ≤ i + length xs
    → i + length xs ≤ len + 1
    → IsRemainder m c
    → IsRemainder (number m xs) (checksum_words (xs ++ spare) i len c)
unfolding number
words-IsRemainder [] spare i len m c bytes even lo hi h =
    rw (words_past spare i len c (omega arith)) h
words-IsRemainder (x ∷ []) spare i len m c bytes even lo hi h = absurd (omega arith)
words-IsRemainder (x ∷ y ∷ xs) spare i len m c bytes even lo hi h =
    let v = u16_from_be_bytes x y in
    let joined : (m * 256 + x) * 256 + y ≡ m * 2 ^ 16 + v = omega arith in
    rw (words_more x y (xs ++ spare) i len c (omega arith), joined)
      (words-IsRemainder xs spare (i + 2) len (m * 2 ^ 16 + v) (checksum_rounds 16 c v) bytes.1.1
        (omega arith) (omega arith) (omega arith) (word-IsRemainder m c v (omega arith) h))

bytes-append_zero : (xs : List ℕ) → All IsByte xs → All IsByte (xs ++ 0 ∷ [])
bytes-append_zero [] h = (omega arith, tt)
bytes-append_zero (x ∷ xs) h = (h.0, bytes-append_zero xs h.1)

module _ (x y : ℕ) (xs : List ℕ) (bytes : All IsByte (x ∷ y ∷ xs)) where
  first_word : IsRemainder ((0 * 256 + x) * 256 + y) (u16_from_be_bytes x y)
  first_word =
      let joined : (0 * 256 + x) * 256 + y ≡ x * 256 + y = omega arith in
      rw joined (small-IsRemainder (x * 256 + y) (omega arith))

  checksum_even :
      length xs % 2 ≡ 0
      → IsRemainder
          (number 0 (x ∷ y ∷ xs))
          (checksum_words (xs ++ 0 ∷ 0 ∷ []) 2 (suc (suc (length xs))) (u16_from_be_bytes x y))
  unfolding number
  checksum_even even =
      words-IsRemainder xs (0 ∷ 0 ∷ []) 2 (suc (suc (length xs))) ((0 * 256 + x) * 256 + y)
        (u16_from_be_bytes x y) bytes.1.1 even (omega arith) (omega arith) first_word

  checksum_odd :
      length xs % 2 ≡ 1
      → IsRemainder
          (number 0 (x ∷ y ∷ xs) * 256)
          (checksum_words (xs ++ 0 ∷ []) 2 (suc (suc (length xs))) (u16_from_be_bytes x y))
  unfolding number
  checksum_odd odd =
      let l = length-append xs (0 ∷ []) in
      let p =
        words-IsRemainder (xs ++ 0 ∷ []) [] 2 (suc (suc (length xs))) ((0 * 256 + x) * 256 + y)
          (u16_from_be_bytes x y) (bytes-append_zero xs bytes.1.1) (omega (arith, l))
          (omega (arith, l)) (omega (arith, l)) first_word in
      rw (← number-append_zero ((0 * 256 + x) * 256 + y) xs) (rw (append-nil (xs ++ 0 ∷ [])) at p)

-- The remainder that `sportident_checksum` gives for a message that fits its buffer.
pub checksum-IsRemainder :
    (message : List ℕ)
    → All IsByte message
    → length message ≤ 19
    → (r : ℕ) × (sportident_checksum message ≡ ok r) × IsRemainder (polynomial message) r
unfolding sportident_checksum padded polynomial
checksum-IsRemainder [] bytes fits =
    (0, unfold checksum_words in refl, unfold number in small-IsRemainder 0 (omega arith))
checksum-IsRemainder (x ∷ []) bytes fits =
    let joined : (0 + x) * 256 ≡ x * 256 + 0 = omega arith in
    (
      x * 256 + 0,
      unfold checksum_words in refl,
      unfold number in rw joined (small-IsRemainder (x * 256 + 0) (omega arith)),
    )
checksum-IsRemainder (x ∷ y ∷ xs) bytes fits = elim (ℕ_discrete (length xs % 2) 0) [
  | yes even ↦
      let odd_length : (suc (suc (length xs)) % 2 == 1) ≡ false = ground arith in
      (
        checksum_words (xs ++ 0 ∷ 0 ∷ []) 2 (suc (suc (length xs))) (u16_from_be_bytes x y),
        ground arith,
        rw odd_length (checksum_even x y xs bytes even),
      )
  | no other ↦
      let odd_length : (suc (suc (length xs)) % 2 == 1) ≡ true = ground arith in
      (
        checksum_words (xs ++ 0 ∷ []) 2 (suc (suc (length xs))) (u16_from_be_bytes x y),
        ground arith,
        rw odd_length (checksum_odd x y xs bytes (omega arith)),
      )
]

-- The checksum of a message of at most 19 bytes is the remainder, by x^16 + x^15 + x^2 + 1, of the
-- polynomial of the message, which is made up to whole words by a zero byte.
pub sportident_checksum_iff :
    (message : List ℕ) (r : ℕ)
    → All IsByte message
    → length message ≤ 19
    → (sportident_checksum message ≡ ok r) ↔ IsRemainder (polynomial message) r
sportident_checksum_iff message r bytes fits =
    let (s, gives, rem) = checksum-IsRemainder message bytes fits in
    (
      λ p. let same : s ≡ r = cc (p, gives) in rw same at rem,
      λ h. gives ∙ ap ok (IsRemainder-unique (polynomial message) s r rem h),
    )

-- A longer message does not fit the buffer.
pub sportident_checksum_panics :
    (message : List ℕ) → 19 < length message → sportident_checksum message ≡ panic
unfolding sportident_checksum padded
sportident_checksum_panics message long = rw (lt→ltb 19 (length message) long)
