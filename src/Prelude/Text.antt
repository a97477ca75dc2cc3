-- ===== src/Prelude/Text.antt =====
-- Rust's `str`: a text is the list of its UTF-8 bytes, since slices and lengths count bytes.
use Prim.Native.Nat.{ℕ, suc, ◌-◌, ◌≤◌}
use Prim.Native.Char.{code}
use Prim.Native.String.{String}
use mathlib.Core.Path.{◌≡◌, refl}
use mathlib.Core.Bool.{Bool, true, false, ◌&&◌}
use mathlib.Core.Option.{Option, none, some}
use mathlib.Core.List.{List, [], ◌∷◌}
use native.Mathlib.Omega.{arith}
use yaroc.Prelude.Tests.{◌==◌, ltb, le→ltb, if◌then◌else◌}
use yaroc.Prelude.Lists.{length, take, drop}
use yaroc.Prelude.Result.{Result, ok, panic}

abbrev pub Text : Type 0
Text = List ℕ

-- The bytes of an ASCII literal.
abbrev pub codes : String → Text
codes String.[] = []
codes (String.◌∷◌ c s) = code c ∷ codes s

unfoldable pub text_eq : Text → Text → Bool
text_eq [] [] = true
text_eq [] (y ∷ ys) = false
text_eq (x ∷ xs) [] = false
text_eq (x ∷ xs) (y ∷ ys) = x == y && text_eq xs ys

pub text_eq→eq : (s t : Text) → text_eq s t ≡ true → s ≡ t
unfolding text_eq
text_eq→eq [] [] h = refl
text_eq→eq [] (y ∷ ys) h = cc
text_eq→eq (x ∷ xs) [] h = cc
text_eq→eq (x ∷ xs) (y ∷ ys) h = ground (arith, text_eq→eq xs ys)

pub text_eq_refl : (s : Text) → text_eq s s ≡ true
unfolding text_eq
text_eq_refl [] = refl
text_eq_refl (x ∷ xs) = ground (arith, text_eq_refl xs)

-- `starts_with`, the pattern first.
unfoldable pub starts_with : Text → Text → Bool
starts_with [] s = true
starts_with (p ∷ ps) [] = false
starts_with (p ∷ ps) (c ∷ s) = p == c && starts_with ps s

-- `find` of a pattern that is not empty: the position of its first occurrence.
unfoldable pub find : Text → Text → Option ℕ
unfolding starts_with
find p [] = none
find p (c ∷ s) =
    if starts_with p (c ∷ s)
    then some 0
    else elim (find p s) [ none ↦ none | some i ↦ some (suc i) ]

-- `&s[a..b]`, which panics out of range.
unfoldable pub slice : {E : Type 0} → Text → ℕ → ℕ → Result E Text
slice s a b =
    if ltb b a then panic else if ltb (length s) b then panic else ok (take (b - a) (drop a s))

pub slice_lem :
    {E : Type 0} (s : Text) (a b : ℕ)
    → a ≤ b
    → b ≤ length s
    → slice {E = E} s a b ≡ ok (take (b - a) (drop a s))
unfolding slice
slice_lem s a b p q = rw (le→ltb _ _ p, le→ltb _ _ q)
