-- ===== src/Prelude/Numbers.antt =====
-- `str::parse` for numbers, `from_str_radix`, and numbers as decimal text.
use Prim.Native.Nat.{ℕ, zero, suc, ◌+◌, ◌-◌, ◌*◌, ◌/◌, ◌%◌}
use mathlib.Core.Bool.{◌&&◌}
use mathlib.Core.Option.{Option, none, some}
use mathlib.Core.List.{[], ◌∷◌, ◌++◌}
use yaroc.Prelude.Tests.{ltb, leb, ◌==◌, if◌then◌else◌}
use yaroc.Prelude.Lists.{length}
use yaroc.Prelude.Text.{Text}
use yaroc.Prelude.Int.{ℤ, pos, negsuc}

-- The value of a digit of base 16.
unfoldable pub digit : ℕ → Option ℕ
digit c =
    if leb b'0' c && leb c b'9'
    then some (c - 48)
    else if leb b'a' c && leb c b'f'
    then some (c - 87)
    else if leb b'A' c && leb c b'F'
    then some (c - 55)
    else none

abbrev pub digit_below : ℕ → ℕ → Option ℕ
digit_below radix c = elim (digit c) [ none ↦ none | some d ↦ if ltb d radix then some d else none ]

unfoldable pub read_digits : ℕ → ℕ → Text → Option ℕ
read_digits radix n [] = some n
read_digits radix n (c ∷ s) = elim (digit_below radix c) [
  | none ↦ none
  | some d ↦ read_digits radix (n * radix + d) s
]

abbrev pub nonempty_digits : ℕ → Text → Option ℕ
nonempty_digits radix [] = none
nonempty_digits radix (c ∷ s) = read_digits radix 0 (c ∷ s)

abbrev pub below : ℕ → Option ℕ → Option ℕ
below bound none = none
below bound (some n) = if ltb n bound then some n else none

-- An unsigned number below `bound`, in base `radix`; a plus may stand in front.
unfoldable pub parse_unsigned : ℕ → ℕ → Text → Option ℕ
unfolding read_digits digit
parse_unsigned radix bound [] = none
parse_unsigned radix bound (c ∷ s) =
    if c == b'+'
    then below bound (nonempty_digits radix s)
    else below bound (read_digits radix 0 (c ∷ s))

abbrev negated : Option ℕ → Option ℤ
negated none = none
negated (some zero) = some (pos 0)
negated (some (suc n)) = some (negsuc n)

abbrev positive : Option ℕ → Option ℤ
positive none = none
positive (some n) = some (pos n)

-- A signed number from -half to half - 1, in base 10.
unfoldable pub parse_signed : ℕ → Text → Option ℤ
unfolding read_digits digit
parse_signed half [] = none
parse_signed half (c ∷ s) =
    if c == b'-'
    then negated (below (half + 1) (nonempty_digits 10 s))
    else if c == b'+'
    then positive (below half (nonempty_digits 10 s))
    else positive (below half (read_digits 10 0 (c ∷ s)))

-- The decimal digits, with fuel for them: one more than the number is enough.
decimal_digits : ℕ → ℕ → Text
decimal_digits zero n = []
decimal_digits (suc fuel) n =
    let front = decimal_digits fuel (n / 10) in
    if ltb n 10 then (n + 48) ∷ [] else front ++ (n % 10 + 48) ∷ []

unfoldable pub decimal : ℕ → Text
unfolding decimal_digits
decimal n = decimal_digits (suc n) n

-- `String<N>` from a text that fits.
abbrev pub parse_text : ℕ → Text → Option Text
parse_text capacity s = if ltb capacity (length s) then none else some s
