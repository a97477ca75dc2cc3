-- ===== src/Prelude/Sorting.antt =====
-- Rust's `sort_by`, which is stable, and `str::cmp`.
use mathlib.Core.Path.{◌≡◌, refl, ◌∙◌}
use mathlib.Core.Bool.{Bool, true, false}
use mathlib.Core.Logic.{inl, inr}
use mathlib.Core.List.{List, [], ◌∷◌, ◌++◌}
use native.Mathlib.Omega.{arith}
use yaroc.Prelude.Tests.{ltb, ◌==◌, if◌then◌else◌, Bool-cases}
use yaroc.Prelude.Text.{Text, text_eq, text_eq→eq}

-- `a <= b` in the order of `str`, byte by byte.
unfoldable pub text_leb : Text → Text → Bool
text_leb [] t = true
text_leb (x ∷ s) [] = false
text_leb (x ∷ s) (y ∷ t) = if x == y then text_leb s t else ltb x y

pub text_leb_total : (s t : Text) → text_leb s t ≡ false → text_leb t s ≡ true
unfolding text_leb
text_leb_total [] t h = cc
text_leb_total (x ∷ s) [] h = refl
text_leb_total (x ∷ s) (y ∷ t) h = ground (arith, text_leb_total s t)

pub text_leb_trans :
    (s t u : Text) → text_leb s t ≡ true → text_leb t u ≡ true → text_leb s u ≡ true
unfolding text_leb
text_leb_trans [] t u h k = refl
text_leb_trans (x ∷ s) [] u h k = cc
text_leb_trans (x ∷ s) (y ∷ t) [] h k = cc
text_leb_trans (x ∷ s) (y ∷ t) (z ∷ u) h k = ground (arith, text_leb_trans s t u)

pub text_leb-eq : (s t : Text) → text_leb s t ≡ false → text_eq t s ≡ false
unfolding text_leb text_eq
text_leb-eq [] t h = cc
text_leb-eq (x ∷ s) [] h = refl
text_leb-eq (x ∷ s) (y ∷ t) h = ground (arith, text_leb-eq s t)

-- A sort by names.
module _ {A : Type 0} (name : A → Text) where
  pub insert_sorted : A → List A → List A
  insert_sorted x [] = x ∷ []
  insert_sorted x (y ∷ ys) =
      if text_leb (name x) (name y) then x ∷ y ∷ ys else y ∷ insert_sorted x ys

  unfoldable pub sort_by : List A → List A
  unfolding insert_sorted
  sort_by [] = []
  sort_by (x ∷ xs) = insert_sorted x (sort_by xs)

  -- The name comes before those of the list.
  abbrev pub IsFirst : Text → List A → Type 0
  IsFirst n [] = Unit
  IsFirst n (x ∷ xs) = (text_leb n (name x) ≡ true) × IsFirst n xs

  abbrev pub IsSorted : List A → Type 0
  IsSorted [] = Unit
  IsSorted (x ∷ xs) = IsFirst (name x) xs × IsSorted xs

  -- Those of the list with the name, in their order.
  abbrev pub named : Text → List A → List A
  named n [] = []
  named n (x ∷ xs) = if text_eq (name x) n then x ∷ named n xs else named n xs

  IsFirst-trans : (m n : Text) (xs : List A) → text_leb m n ≡ true → IsFirst n xs → IsFirst m xs
  IsFirst-trans m n [] h k = tt
  IsFirst-trans m n (x ∷ xs) h k = (text_leb_trans m n (name x) h k.0, IsFirst-trans m n xs h k.1)

  insert_sorted-IsFirst :
      (n : Text) (x : A) (xs : List A)
      → text_leb n (name x) ≡ true
      → IsFirst n xs
      → IsFirst n (insert_sorted x xs)
  unfolding insert_sorted
  insert_sorted-IsFirst n x [] h k = (h, tt)
  insert_sorted-IsFirst n x (y ∷ ys) h k = elim (Bool-cases (text_leb (name x) (name y))) [
    | inl before ↦ rw before (h, k)
    | inr behind ↦ rw behind (k.0, insert_sorted-IsFirst n x ys h k.1)
  ]

  insert_sorted-IsSorted : (x : A) (xs : List A) → IsSorted xs → IsSorted (insert_sorted x xs)
  unfolding insert_sorted
  insert_sorted-IsSorted x [] h = (tt, tt)
  insert_sorted-IsSorted x (y ∷ ys) h = elim (Bool-cases (text_leb (name x) (name y))) [
    | inl before ↦ rw before ((before, IsFirst-trans (name x) (name y) ys before h.0), h)
    | inr behind ↦ rw behind (
      insert_sorted-IsFirst (name y) x ys (text_leb_total (name x) (name y) behind) h.0,
      insert_sorted-IsSorted x ys h.1,
    )
  ]

  pub sort_by-IsSorted : (xs : List A) → IsSorted (sort_by xs)
  unfolding sort_by
  sort_by-IsSorted [] = tt
  sort_by-IsSorted (x ∷ xs) = insert_sorted-IsSorted x (sort_by xs) (sort_by-IsSorted xs)

  named-insert_sorted :
      (n : Text) (x : A) (xs : List A) → named n (insert_sorted x xs) ≡ named n (x ∷ xs)
  unfolding insert_sorted
  named-insert_sorted n x [] = refl
  named-insert_sorted n x (y ∷ ys) = elim (Bool-cases (text_leb (name x) (name y))) [
    | inl before ↦ rw before refl
    | inr behind ↦
        rw (behind, named-insert_sorted n x ys)
          (elim (Bool-cases (text_eq (name x) n)) [
            | inr other ↦ rw other refl
            | inl same ↦
                let e : name x ≡ n = text_eq→eq (name x) n same in
                let differ : text_eq (name y) n ≡ false =
                  rw (← e) (text_leb-eq (name x) (name y) behind) in
                rw (same, differ) refl
          ])
  ]

  -- The sort is stable: those of one name keep their order.
  pub named-sort_by : (n : Text) (xs : List A) → named n (sort_by xs) ≡ named n xs
  unfolding sort_by
  named-sort_by n [] = refl
  named-sort_by n (x ∷ xs) = named-insert_sorted n x (sort_by xs) ∙ rw (named-sort_by n xs) refl

  pub named-append : (n : Text) (xs ys : List A) → named n (xs ++ ys) ≡ named n xs ++ named n ys
  named-append n [] ys = refl
  named-append n (x ∷ xs) ys = elim (Bool-cases (text_eq (name x) n)) [
    | inl same ↦ rw (same, named-append n xs ys) refl
    | inr other ↦ rw (other, named-append n xs ys) refl
  ]
