-- ===== src/Prelude/Dict.antt =====
-- Rust's `HashMap`, as the list of its entries, in an order that nothing depends on: each key has one
-- entry. What the keys are compared by is an instance.
use mathlib.Core.Path.{◌≡◌, refl, sym, ◌∙◌, subst}
use mathlib.Core.Logic.{◌↔◌, inl, inr}
use mathlib.Core.Bool.{Bool, true, false}
use mathlib.Core.Option.{Option, none, some}
use mathlib.Core.List.{List, [], ◌∷◌, map}
use yaroc.Prelude.Tests.{if◌then◌else◌, Bool-cases, Option-cases}
use yaroc.Prelude.Lists.{All}
use yaroc.Prelude.Exec.{Exec}

pub record Eq (A : Type 0) : Type 0 where
  pub beq : A → A → Bool
  pub beq_iff : (a b : A) → (beq a b ≡ true) ↔ (a ≡ b)

abbrev pub values : {K V : Type 0} → List (K × V) → List V
values d = map (λ entry. entry.1) d

abbrev pub or_else : {V : Type 0} → V → Option V → V
or_else v none = v
or_else v (some w) = w

pub beq_refl : {K : Type 0} ⦃eq : Eq K⦄ (k : K) → eq.beq k k ≡ true
beq_refl ⦃eq⦄ k = (eq.beq_iff k k).1 refl

-- Two keys, of which one is equal to a third and the other not, differ.
pub beq-false :
    {K : Type 0} ⦃eq : Eq K⦄ (a b c : K)
    → eq.beq a b ≡ false
    → eq.beq a c ≡ true
    → eq.beq b c ≡ false
beq-false ⦃eq⦄ a b c other same = elim (Bool-cases (eq.beq b c)) [
  | inr differ ↦ differ
  | inl e ↦
      let a_c : a ≡ c = (eq.beq_iff a c).0 same in
      let b_c : b ≡ c = (eq.beq_iff b c).0 e in
      let a_b : eq.beq a b ≡ true = (eq.beq_iff a b).1 (a_c ∙ sym b_c) in absurd (cc (a_b, other))
]

pub beq_false_sym : {K : Type 0} ⦃eq : Eq K⦄ (a b : K) → eq.beq a b ≡ false → eq.beq b a ≡ false
beq_false_sym ⦃eq⦄ a b other = beq-false a b a other (beq_refl a)

module _ {K V : Type 0} ⦃eq : Eq K⦄ where
  unfoldable pub get : K → List (K × V) → Option V
  get k [] = none
  get k (entry ∷ d) = if eq.beq entry.0 k then some entry.1 else get k d

  unfoldable pub insert : K → V → List (K × V) → List (K × V)
  insert k v [] = (k, v) ∷ []
  insert k v (entry ∷ d) = if eq.beq entry.0 k then (entry.0, v) ∷ d else entry ∷ insert k v d

  -- `entry(k).or_insert(v)`, and what is done with the reference that it gives.
  unfoldable pub with_entry : {E A : Type 0} → K → V → Exec V E A → Exec (List (K × V)) E A
  unfolding get insert
  with_entry k v body d = let r = body (or_else v (get k d)) in (r.0, insert k r.1 d)

  pub get-insert :
      (j k : K) (v : V) (d : List (K × V))
      → get j (insert k v d) ≡ (if eq.beq k j then some v else get j d)
  unfolding get insert
  get-insert j k v [] = refl
  get-insert j k v (entry ∷ d) = elim (Bool-cases (eq.beq entry.0 k)) [
    | inl same ↦
        let e : entry.0 ≡ k = (eq.beq_iff entry.0 k).0 same in
        rw (← e, beq_refl entry.0)
          (elim (Bool-cases (eq.beq entry.0 j)) [
            | inl here ↦ rw here refl
            | inr other ↦ rw other refl
          ])
    | inr other ↦ rw other (elim (Bool-cases (eq.beq entry.0 j)) [
      | inl here ↦ rw (here, beq-false entry.0 k j other here) refl
      | inr there ↦ rw there (get-insert j k v d)
    ])
  ]

  -- The keys of the entries differ.
  abbrev pub NoRepeats : List (K × V) → Type 0
  NoRepeats [] = Unit
  NoRepeats (entry ∷ d) = (get entry.0 d ≡ none) × NoRepeats d

  pub insert-NoRepeats : (k : K) (v : V) (d : List (K × V)) → NoRepeats d → NoRepeats (insert k v d)
  unfolding insert get
  insert-NoRepeats k v [] h = (refl, tt)
  insert-NoRepeats k v (entry ∷ d) h = elim (Bool-cases (eq.beq entry.0 k)) [
    | inl same ↦ rw same h
    | inr other ↦ rw other (
      get-insert entry.0 k v d ∙ rw (beq_false_sym entry.0 k other) h.0,
      insert-NoRepeats k v d h.1,
    )
  ]

  -- What holds of every entry stays so, if it holds of the new value at its key.
  pub insert-All :
      (P : K × V → Type 0) (k : K) (v : V) (d : List (K × V))
      → P (k, v)
      → All P d
      → All P (insert k v d)
  unfolding insert
  insert-All P k v [] new h = (new, tt)
  insert-All P k v (entry ∷ d) new h = elim (Bool-cases (eq.beq entry.0 k)) [
    | inl same ↦
        let e : entry.0 ≡ k = (eq.beq_iff entry.0 k).0 same in
        rw same (subst (λ j. P (j, v)) (sym e) new, h.1)
    | inr other ↦ rw other (h.0, insert-All P k v d new h.1)
  ]

  pub get-All :
      (P : K × V → Type 0) (k : K) (v : V) (d : List (K × V))
      → All P d
      → get k d ≡ some v
      → P (k, v)
  unfolding get
  get-All P k v [] h found = absurd (cc found)
  get-All P k v (entry ∷ d) h found = elim (Bool-cases (eq.beq entry.0 k)) [
    | inl same ↦
        let e : entry.0 ≡ k = (eq.beq_iff entry.0 k).0 same in
        let w : entry.1 ≡ v =
          cc (subst (λ b. (if b then some entry.1 else get k d) ≡ some v) same found) in
        subst (λ j. P (j, v)) e (subst (λ x. P (entry.0, x)) w h.0)
    | inr other ↦
        get-All P k v d h.1
          (subst (λ b. (if b then some entry.1 else get k d) ≡ some v) other found)
  ]

  pub get-with_entry :
      {E A : Type 0} (j k : K) (v : V) (body : Exec V E A) (d : List (K × V))
      → get j (with_entry k v body d).1
        ≡ (if eq.beq k j then some (body (or_else v (get k d))).1 else get j d)
  unfolding with_entry
  get-with_entry j k v body d = get-insert j k (body (or_else v (get k d))).1 d

  pub with_entry-NoRepeats :
      {E A : Type 0} (k : K) (v : V) (body : Exec V E A) (d : List (K × V))
      → NoRepeats d
      → NoRepeats (with_entry k v body d).1
  unfolding with_entry
  with_entry-NoRepeats k v body d h = insert-NoRepeats k (body (or_else v (get k d))).1 d h

  pub with_entry-All :
      {E A : Type 0} (P : K × V → Type 0) (k : K) (v : V) (body : Exec V E A) (d : List (K × V))
      → P (k, v)
      → ((w : V) → P (k, w) → P (k, (body w).1))
      → All P d
      → All P (with_entry k v body d).1
  unfolding with_entry
  with_entry-All P k v body d new keeps h =
      insert-All P k (body (or_else v (get k d))).1 d (keeps (or_else v (get k d)) found) h
    where
      found : P (k, or_else v (get k d))
      found = elim (Option-cases (get k d)) [
        | inl e ↦ rw e new
        | inr (w, e) ↦ rw e (get-All P k w d h e)
      ]

  pub get-with_entry_same :
      {E A : Type 0} (k : K) (v : V) (body : Exec V E A) (d : List (K × V))
      → get k (with_entry k v body d).1 ≡ some (body (or_else v (get k d))).1
  get-with_entry_same k v body d = get-with_entry k k v body d ∙ rw (beq_refl k) refl
