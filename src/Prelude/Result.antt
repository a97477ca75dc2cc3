-- ===== src/Prelude/Result.antt =====
-- What a Rust function that may fail gives back: a value, an error, or a panic (`unwrap`, an index
-- out of range, `assert!`), which ends the program.
use mathlib.Core.Path.{◌≡◌, refl, ap}
use mathlib.Core.Logic.{◌≢◌, ◌⊎◌, inl, inr}
use mathlib.Core.Option.{Option, none, some}
use Prim.Native.Nat.{ℕ, ◌-◌}
use yaroc.Prelude.Tests.{ltb, if◌then◌else◌}

pub data Result (E A : Type 0) : Type 0 where
  ok : A → Result E A
  err : E → Result E A
  panic : Result E A

infixl 5 ◌>>=◌ ◌>>◌
abbrev pub ◌>>=◌ : {E A B : Type 0} → Result E A → (A → Result E B) → Result E B
panic >>= next = panic
err fault >>= next = err fault
ok value >>= next = next value

abbrev pub ◌>>◌ : {E A B : Type 0} → Result E A → Result E B → Result E B
first >> second = first >>= λ _. second

-- `map_err`, and the conversion that `?` makes.
abbrev pub map_err : {E F A : Type 0} → (E → F) → Result E A → Result F A
map_err f (ok a) = ok a
map_err f (err e) = err (f e)
map_err f panic = panic

-- `ok_or`.
abbrev pub ok_or : {E A : Type 0} → E → Option A → Result E A
ok_or e none = err e
ok_or e (some a) = ok a

-- `Option::unwrap`.
abbrev pub unwrap : {E A : Type 0} → Option A → Result E A
unwrap none = panic
unwrap (some a) = ok a

pub unwrap-ok : {E A : Type 0} (o : Option A) {a : A} → unwrap {E = E} o ≡ ok a → o ≡ some a
unwrap-ok none h = cc
unwrap-ok (some x) h = cc (h)

-- `uN::try_from(n).unwrap()`, with the first number that does not fit.
abbrev pub try_below : {E : Type 0} → ℕ → ℕ → Result E ℕ
try_below bound n = if ltb n bound then ok n else panic

-- Subtraction of unsigned numbers, which panics below 0.
abbrev pub checked_sub : {E : Type 0} → ℕ → ℕ → Result E ℕ
checked_sub a b = if ltb a b then panic else ok (a - b)

-- A chain that succeeds does so by its parts.
pub >>=-eq-ok :
    {E A B : Type 0} (r : Result E A) (next : A → Result E B) {y : B}
    → (r >>= next) ≡ ok y
    → (x : A) × (r ≡ ok x) × (next x ≡ ok y)
>>=-eq-ok panic next h = cc
>>=-eq-ok (err fault) next h = cc
>>=-eq-ok (ok x) next h = (x, refl, h)

-- What follows a computation that makes no error decides a panic.
pub >>=-panic :
    {E A B : Type 0} (m : Result E A) (f : A → Result E B)
    → ((e : E) → m ≢ err e)
    → ((a : A) → f a ≡ panic)
    → (m >>= f) ≡ panic
>>=-panic (ok a) f h p = p a
>>=-panic (err e) f h p = absurd (h e refl)
>>=-panic panic f h p = refl

abbrev or_first : {E A : Type 0} → A → Result E A → A
or_first x (ok a) = a
or_first x _ = x

pub ok_injective : {E A : Type 0} {a b : A} → Path (Result E A) (ok a) (ok b) → a ≡ b
ok_injective {a} e = ap (or_first a) e

pub Result-cases : {E A : Type 0} (r : Result E A) → ((a : A) × (r ≡ ok a)) ⊎ ((a : A) → r ≢ ok a)
Result-cases (ok a) = inl (a, refl)
Result-cases (err e) = inr (λ a h. cc h)
Result-cases panic = inr (λ a h. cc h)
