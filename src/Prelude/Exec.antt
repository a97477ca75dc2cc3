-- ===== src/Prelude/Exec.antt =====
-- Methods that change a state and may fail: what was done before an error or a panic stays done, so
-- the state comes back beside the result.
use mathlib.Core.Path.{◌≡◌, refl}
use mathlib.Core.Bool.{Bool, true, false}
use yaroc.Prelude.Result.{Result, ok, err, panic}

abbrev pub Exec : Type 0 → Type 0 → Type 0 → Type 0
Exec S E A = S → Result E A × S

module _ {S E A : Type 0} where
  abbrev pub pure : A → Exec S E A
  pure a s = (ok a, s)

  abbrev pub fail : E → Exec S E A
  fail e s = (err e, s)

  -- A result that was computed without the state.
  abbrev pub lift : Result E A → Exec S E A
  lift r s = (r, s)

  abbrev pub gets : (S → A) → Exec S E A
  gets f s = (ok (f s), s)

abbrev pub modify : {S E : Type 0} → (S → S) → Exec S E (Unit {0})
modify f s = (ok tt, f s)

abbrev pub continue : {S E A B : Type 0} → Result E A → (A → Exec S E B) → Exec S E B
continue (ok a) f s = f a s
continue (err e) f s = (err e, s)
continue panic f s = (panic, s)

infixl 5 ◌>>=◌ ◌>>◌
abbrev pub ◌>>=◌ : {S E A B : Type 0} → Exec S E A → (A → Exec S E B) → Exec S E B
◌>>=◌ m f s = continue (m s).0 f (m s).1

abbrev pub ◌>>◌ : {S E A B : Type 0} → Exec S E A → Exec S E B → Exec S E B
m >> k = m >>= λ _. k

-- The conversion of the error that `?` and `map_err` make.
abbrev pub convert : {E F A : Type 0} → (E → F) → Result E A → Result F A
convert f (ok a) = ok a
convert f (err e) = err (f e)
convert f panic = panic

abbrev pub with_error : {S E F A : Type 0} → (E → F) → Exec S E A → Exec S F A
with_error f m s = (convert f (m s).0, (m s).1)

-- `let _ = …;`: an error is passed over, a panic is not.
abbrev pub ignored : {E A : Type 0} → Result E A → Result E (Unit {0})
ignored (ok a) = ok tt
ignored (err e) = ok tt
ignored panic = panic

abbrev pub ignore : {S E A : Type 0} → Exec S E A → Exec S E (Unit {0})
ignore m s = (ignored (m s).0, (m s).1)

abbrev pub is_err : {E A : Type 0} → Result E A → Bool
is_err (err e) = true
is_err _ = false

-- What holds before a step and after each of its continuations holds after it.
pub continue-keeps :
    {S E A B : Type 0} (P : S → Type 0) (r : Result E A) (f : A → Exec S E B) (s : S)
    → P s
    → ((a : A) → P (f a s).1)
    → P (continue r f s).1
continue-keeps P (ok a) f s h k = k a
continue-keeps P (err e) f s h k = h
continue-keeps P panic f s h k = h

pub >>-pure-keeps :
    {S E A B : Type 0} (P : S → Type 0) (m : Exec S E A) (b : B) (s : S)
    → P (m s).1
    → P ((m >> pure b) s).1
>>-pure-keeps P m b s h = continue-keeps P (m s).0 _ (m s).1 h (λ a. h)

-- A pure end changes nothing.
pub continue-pure :
    {S E A B : Type 0} (r : Result E A) (f : A → B) (s : S) → (continue r (λ a. pure (f a)) s).1 ≡ s
continue-pure (ok a) f s = refl
continue-pure (err e) f s = refl
continue-pure panic f s = refl

-- A chain in which no error comes behind a change leaves the state as it is, if it ends in an error.
pub continue_unchanged :
    {S E A B : Type 0} (r : Result E A) (f : A → Exec S E B) (s : S)
    → ((a : A) → is_err (f a s).0 ≡ true → (f a s).1 ≡ s)
    → is_err (continue r f s).0 ≡ true
    → (continue r f s).1 ≡ s
continue_unchanged (ok a) f s h failed = h a failed
continue_unchanged (err e) f s h failed = refl
continue_unchanged panic f s h failed = refl

pub is_err-convert : {E F A : Type 0} (f : E → F) (r : Result E A) → is_err (convert f r) ≡ is_err r
is_err-convert f (ok a) = refl
is_err-convert f (err e) = refl
is_err-convert f panic = refl

pub is_err-continue :
    {S E A B : Type 0} (r : Result E A) (f : A → B) (s : S)
    → is_err (continue r (λ a. pure (f a)) s).0 ≡ is_err r
is_err-continue (ok a) f s = refl
is_err-continue (err e) f s = refl
is_err-continue panic f s = refl
