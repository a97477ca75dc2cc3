-- ===== src/At/Values/Names.antt =====
-- The name in an answer of the modem, and the place where it ends, for `CommandResponse::new` and
-- `split_at_response` of common/src/at/response.rs.
use Prim.Native.Nat.{◌-◌}
use mathlib.Core.Logic.{◌≢◌}
use mathlib.Core.List.{append_assoc}
use yaroc.Prelude.{ℕ, suc, ◌+◌, ◌≤◌, ◌≡◌, refl, ap, ◌∙◌, arith, true, false}
use yaroc.Prelude.{some, inl, inr, [], ◌∷◌, ◌++◌, length, All}
use yaroc.Prelude.{length-append, drop-append, take-append, take_all, Bool-cases}
use yaroc.Prelude.Text.{Text, find, slice, slice_lem, starts_with}
use yaroc.Prelude.Result.{ok}
use yaroc.Error.{Error}

abbrev pub colon : ℕ
colon = 58

abbrev pub space : ℕ
space = 32

abbrev pub plus : ℕ
plus = 43

-- The line of an answer.
abbrev pub answer : Text → Text → Text
answer name rest = plus ∷ name ++ colon ∷ space ∷ rest

abbrev pub IsName : Text → Type 0
IsName name = All (λ c. c ≢ colon) name

find-colon :
    (v rest : Text)
    → All (λ c. c ≢ colon) v
    → find (colon ∷ space ∷ []) (v ++ colon ∷ space ∷ rest) ≡ some (length v)
unfolding find
find-colon [] rest h = refl
find-colon (c ∷ v) rest h = ground (arith, find-colon v rest h.1)

pub slice-answer :
    (name rest : Text)
    → (slice {E = Error} (answer name rest) 1 (suc (length name)) ≡ ok name)
      × (slice {E = Error} (answer name rest) (suc (length name) + 2) (length (answer name rest))
          ≡ ok rest)
slice-answer name rest =
    let size = length-append name (colon ∷ space ∷ rest) in
    let front : suc (length name) - 1 ≡ length name = omega arith in
    let past =
      drop-append (suc (length name) + 2) (plus ∷ name ++ colon ∷ space ∷ []) rest
        (omega (arith, length-append name (colon ∷ space ∷ []))) in
    (
      slice_lem (answer name rest) 1 (suc (length name)) (omega arith) (omega (arith, size))
          ∙ ap ok (rw front (take-append (length name) name (colon ∷ space ∷ rest) refl)),
      slice_lem (answer name rest) (suc (length name) + 2) (length (answer name rest))
            (omega (arith, size)) (omega arith)
          ∙ ap ok (
              rw (rw (append_assoc name (colon ∷ space ∷ []) rest) at past)
                (take_all _ rest (omega (arith, size)))),
    )

-- The first `: ` of the line stands behind the name.
abbrev pub NameEnds : Text → Text → Type 0
NameEnds name rest = find (colon ∷ space ∷ []) (answer name rest) ≡ some (suc (length name))

pub name_ends : (name rest : Text) → IsName name → NameEnds name rest
name_ends name rest h =
    let differ : ◌≢◌ {A = ℕ} plus colon = omega arith in find-colon (plus ∷ name) rest (differ, h)

starts_with_break :
    (s : Text)
    → starts_with (colon ∷ space ∷ []) s ≡ true
    → (rest : Text) × (s ≡ colon ∷ space ∷ rest)
unfolding starts_with
starts_with_break [] h = cc
starts_with_break (c ∷ []) h = absurd (ground arith)
starts_with_break (c ∷ d ∷ s) h = (s, ground arith)

found_here :
    (c : ℕ) (s : Text) (n : ℕ)
    → starts_with (colon ∷ space ∷ []) (c ∷ s) ≡ true
    → find (colon ∷ space ∷ []) (c ∷ s) ≡ some n
    → 0 ≡ n
unfolding find
found_here c s n here h = ground arith

found_later :
    (c : ℕ) (s : Text) (n : ℕ)
    → starts_with (colon ∷ space ∷ []) (c ∷ s) ≡ false
    → find (colon ∷ space ∷ []) (c ∷ s) ≡ some n
    → (m : ℕ) × (find (colon ∷ space ∷ []) s ≡ some m) × (suc m ≡ n)
unfolding find
found_later c s n later h = ground arith

-- What `find` gives is a place where the pattern stands.
pub find-some :
    (s : Text) (n : ℕ)
    → find (colon ∷ space ∷ []) s ≡ some n
    → (name : Text) × (rest : Text) × (s ≡ name ++ colon ∷ space ∷ rest) × (length name ≡ n)
find-some [] n h = unfold find in cc
find-some (c ∷ s) n h = elim (Bool-cases (starts_with (colon ∷ space ∷ []) (c ∷ s))) [
  | inl here ↦
      let (rest, e) = starts_with_break (c ∷ s) here in ([], rest, e, found_here c s n here h)
  | inr later ↦
      let (m, found, e) = found_later c s n later h in
      let (name, rest, p, q) = find-some s m found in
      (c ∷ name, rest, ap (λ t. c ∷ t) p, ap suc q ∙ e)
]

at_front :
    (c : ℕ) (s back : Text)
    → c ∷ s ≡ colon ∷ space ∷ back
    → starts_with (colon ∷ space ∷ []) (c ∷ s) ≡ true
unfolding starts_with
at_front c s back e = ap (starts_with (colon ∷ space ∷ [])) e

-- The pattern stands nowhere before the place that `find` gives.
pub find-first :
    (s : Text) (n : ℕ) (front back : Text)
    → find (colon ∷ space ∷ []) s ≡ some n
    → s ≡ front ++ colon ∷ space ∷ back
    → n ≤ length front
find-first [] n front back h e = unfold find in absurd (cc (h))
find-first (c ∷ s) n [] back h e = omega (arith, found_here c s n (at_front c s back e) h)
find-first (c ∷ s) n (d ∷ front) back h e =
    elim (Bool-cases (starts_with (colon ∷ space ∷ []) (c ∷ s))) [
      | inl here ↦ omega (arith, found_here c s n here h)
      | inr later ↦
          let (m, found, size) = found_later c s n later h in
          omega (arith, size, find-first s m front back found (cc (e)))
    ]

-- A line with a plus in front has its name behind it.
pub behind_plus :
    (line front rest : Text)
    → starts_with (plus ∷ []) line ≡ true
    → line ≡ front ++ colon ∷ space ∷ rest
    → (name : Text) × (front ≡ plus ∷ name)
unfolding starts_with
behind_plus [] front rest h e = absurd (cc)
behind_plus (c ∷ s) [] rest h e = absurd (ground arith)
behind_plus (c ∷ s) (d ∷ front) rest h e = (front, ground arith)
