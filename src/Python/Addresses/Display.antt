-- ===== src/Python/Addresses/Display.antt =====
-- `Display` of `MacAddress` in python/src/logs.rs, against the addresses that `MessageHandler::new` of
-- python/src/message_handler.rs takes.
use yaroc.Prelude.{
  ℕ, zero, suc, ◌+◌, ◌*◌, ◌/◌, ◌%◌, ◌^◌, ◌<◌, ◌≤◌, ◌≡◌, refl, arith, ◌∙◌, ap, false,
}
use yaroc.Prelude.{
  Option, none, some, [], ◌∷◌, ◌++◌, length, length-append, ltb, ◌==◌, if◌then◌else◌,
}
use yaroc.Prelude.{le→ltb, lt→ltb}
use native.Mathlib.Decide.{dec_lt}
use yaroc.Prelude.Numbers.{read_digits, parse_unsigned, digit, digit_below, below}
use yaroc.Prelude.Text.{Text}
use yaroc.Python.Punches.{MacAddress, full, meshtastic}

abbrev hex_char : ℕ → ℕ
hex_char d = if ltb d 10 then d + 48 else d + 87

-- The last digits of a number, as many as are asked for.
hex_digits : ℕ → ℕ → Text
hex_digits zero n = []
hex_digits (suc k) n = hex_digits k (n / 16) ++ hex_char (n % 16) ∷ []

-- The digits that a number has, with fuel for them: 16 for a u64.
digits_of : ℕ → ℕ → ℕ
digits_of zero n = 0
digits_of (suc fuel) n = if n == 0 then 0 else suc (digits_of fuel (n / 16))

-- `{:08x}` and `{:012x}`: at least so many digits.
padded : ℕ → ℕ → Text
unfolding hex_digits digits_of
padded width n = let k = digits_of 16 n in hex_digits (if ltb width k then k else width) n

pub display : MacAddress → Text
unfolding padded
display (meshtastic mac) = padded 8 mac
display (full mac) = padded 12 mac

pow_above : (k n : ℕ) → n < 16 ^ suc k → n / 16 < 16 ^ k
pow_above k n h = omega (arith, h)

digits_of_few : (fuel k n : ℕ) → n < 16 ^ k → digits_of fuel n ≤ k
unfolding digits_of
digits_of_few zero k n h = omega arith
digits_of_few (suc fuel) zero n h = ground arith
digits_of_few (suc fuel) (suc k) n h = (elim (dec_lt 0 n) [
  | yes some_left ↦ ground (arith, digits_of_few fuel k (n / 16) (pow_above k n h))
  | no none_left ↦ ground arith
])

length-hex_digits : (k n : ℕ) → length (hex_digits k n) ≡ k
unfolding hex_digits
length-hex_digits zero n = refl
length-hex_digits (suc k) n =
    length-append (hex_digits k (n / 16)) (hex_char (n % 16) ∷ [])
    ∙ omega (arith, length-hex_digits k (n / 16))

abbrev then_digit : ℕ → Option ℕ → Option ℕ
then_digit c none = none
then_digit c (some m) = read_digits 16 m (c ∷ [])

append_step :
    (o : Option ℕ) (f g : ℕ → Option ℕ) (c : ℕ)
    → ((d : ℕ) → f d ≡ then_digit c (g d))
    → elim o [ none ↦ none | some d ↦ f d ] ≡ then_digit c (elim o [ none ↦ none | some d ↦ g d ])
append_step none f g c h = refl
append_step (some d) f g c h = h d

read_digits-append :
    (acc : ℕ) (s : Text) (c : ℕ)
    → read_digits 16 acc (s ++ c ∷ []) ≡ then_digit c (read_digits 16 acc s)
unfolding read_digits
read_digits-append acc [] c = refl
read_digits-append acc (x ∷ s) c =
    append_step (digit_below 16 x) (λ d. read_digits 16 (acc * 16 + d) (s ++ c ∷ []))
      (λ d. read_digits 16 (acc * 16 + d) s) c (λ d. read_digits-append (acc * 16 + d) s c)

digit-hex_char : (d : ℕ) → d < 16 → digit (hex_char d) ≡ some d
unfolding digit
digit-hex_char d h = ground arith

digit_below-hex_char : (d : ℕ) → d < 16 → digit_below 16 (hex_char d) ≡ some d
digit_below-hex_char d h =
    ap (λ o. elim o [ none ↦ none | some e ↦ if ltb e 16 then some e else none ])
      (digit-hex_char d h)
    ∙ rw (lt→ltb d 16 h) refl

then_digit-hex_char : (m d : ℕ) → d < 16 → then_digit (hex_char d) (some m) ≡ some (m * 16 + d)
unfolding read_digits
then_digit-hex_char m d h =
    ap (λ o. elim o [ none ↦ none | some e ↦ some (m * 16 + e) ]) (digit_below-hex_char d h)

read_digits-hex_digits : (k n : ℕ) → n < 16 ^ k → read_digits 16 0 (hex_digits k n) ≡ some n
unfolding hex_digits read_digits
read_digits-hex_digits zero n h = ap some (omega arith)
read_digits-hex_digits (suc k) n h =
    read_digits-append 0 (hex_digits k (n / 16)) (hex_char (n % 16))
    ∙ ap (then_digit (hex_char (n % 16))) (read_digits-hex_digits k (n / 16) (pow_above k n h))
    ∙ then_digit-hex_char (n / 16) (n % 16) (omega arith)
    ∙ ap some (omega arith)

-- A text of digits is not signed.
abbrev IsUnsigned : Text → Type 0
IsUnsigned [] = ⊥
IsUnsigned (c ∷ s) = (c == b'+') ≡ false

IsUnsigned-append : (s t : Text) → IsUnsigned s → IsUnsigned (s ++ t)
IsUnsigned-append [] t h = absurd h
IsUnsigned-append (c ∷ s) t h = h

hex_digits-IsUnsigned : (k n : ℕ) → IsUnsigned (hex_digits (suc k) n)
unfolding hex_digits
hex_digits-IsUnsigned zero n = ground arith
hex_digits-IsUnsigned (suc k) n =
    IsUnsigned-append (hex_digits (suc k) (n / 16)) _ (hex_digits-IsUnsigned k (n / 16))

parse_unsigned-IsUnsigned :
    (bound n : ℕ) (s : Text)
    → IsUnsigned s
    → read_digits 16 0 s ≡ some n
    → n < bound
    → parse_unsigned 16 bound s ≡ some n
unfolding parse_unsigned
parse_unsigned-IsUnsigned bound n [] h read small = absurd h
parse_unsigned-IsUnsigned bound n (c ∷ s) h read small =
    rw h (ap (below bound) read ∙ rw (lt→ltb n bound small) refl)

parse_unsigned-hex_digits :
    (bound k n : ℕ)
    → n < 16 ^ suc k
    → n < bound
    → parse_unsigned 16 bound (hex_digits (suc k) n) ≡ some n
parse_unsigned-hex_digits bound k n h small =
    parse_unsigned-IsUnsigned bound n (hex_digits (suc k) n) (hex_digits-IsUnsigned k n)
      (read_digits-hex_digits (suc k) n h) small

-- No more digits than the width are needed.
padded_few : (k n : ℕ) → n < 16 ^ k → padded k n ≡ hex_digits k n
unfolding padded
padded_few k n h = rw (le→ltb k (digits_of 16 n) (digits_of_few 16 k n h)) refl

pub display_meshtastic :
    (n : ℕ)
    → n < 4_294_967_296
    → (length (display (meshtastic n)) ≡ 8)
      × (parse_unsigned 16 4_294_967_296 (display (meshtastic n)) ≡ some n)
unfolding display
display_meshtastic n h =
    rw (padded_few 8 n h) (length-hex_digits 8 n, parse_unsigned-hex_digits 4_294_967_296 7 n h h)

pub display_full :
    (n : ℕ)
    → n < 281_474_976_710_656
    → (length (display (full n)) ≡ 12)
      × (parse_unsigned 16 18_446_744_073_709_551_616 (display (full n)) ≡ some n)
unfolding display
display_full n h = rw (padded_few 12 n h) (
  length-hex_digits 12 n,
  parse_unsigned-hex_digits 18_446_744_073_709_551_616 11 n h (omega arith),
)
