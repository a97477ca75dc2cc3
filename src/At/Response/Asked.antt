-- ===== src/At/Response/Asked.antt =====
-- Which answers `AtResponse::response` of common/src/at/response.rs is asked for: the name of the
-- command, and a value that a filter is for.
use yaroc.Prelude.{
  ℕ, ◌-◌, ◌≡◌, ◌≢◌, refl, ap, sym, ◌∙◌, arith, Bool, true, false, Option, none, some,
}
use yaroc.Prelude.{◌⊎◌, ◌↔◌, inl, inr, List, ◌∷◌, length, take_all, get_elem?, Option-cases}
use yaroc.Prelude.{if◌then◌else◌, Bool-cases}
use yaroc.Prelude.Result.{ok, unwrap, unwrap-ok, >>=-eq-ok, ok_injective}
use yaroc.Prelude.Text.{Text, slice, slice_lem, text_eq, text_eq→eq, text_eq_refl}
use yaroc.Error.{Error}
use yaroc.At.Types.{CommandResponse, FromModem}
use yaroc.At.Values.{command, values}
use yaroc.At.Response.{passes, parses_to, selects}

module _ {T : Type 0} (parse : Text → Option T) (eq : T → T → Bool) where
  -- A value is read as one that equals the filter's.
  abbrev pub Reads : T → Text → Type 0
  Reads t text = (val : T) × (parse text ≡ some val) × (eq val t ≡ true)

  -- The value at the position of the filter is one that it is for; without a filter all values are.
  abbrev pub AskedBy : Option (T × ℕ) → List Text → Type 0
  AskedBy none vs = Unit
  AskedBy (some (t, idx)) vs = (text : Text) × (get_elem? vs idx ≡ some text) × Reads t text

  -- There is a value at the position of the filter, but none that it is for.
  abbrev pub LeftBy : Option (T × ℕ) → List Text → Type 0
  LeftBy none vs = ⊥
  LeftBy (some (t, idx)) vs = (text : Text) × (get_elem? vs idx ≡ some text) × ¬ Reads t text

  parses_to-Reads : (t : T) (text : Text) → parses_to parse eq t text ≡ true → Reads t text
  unfolding parses_to
  parses_to-Reads t text h = elim (Option-cases (parse text)) [
    | inl lost ↦ absurd (let k = rw (parses_to, lost) at h in cc (k))
    | inr (val, found) ↦ (val, found, rw (parses_to, found) at h)
  ]

  Reads-parses_to : (t : T) (text : Text) → Reads t text → parses_to parse eq t text ≡ true
  unfolding parses_to
  Reads-parses_to t text (val, found, same) = rw (parses_to, found) same

  passes-AskedBy :
      (filter : Option (T × ℕ)) (r : CommandResponse)
      → passes parse eq filter r ≡ ok true
      → (vs : List Text) × (values r ≡ ok vs) × AskedBy filter vs
  unfolding passes
  passes-AskedBy none r h = let (vs, e, k) = >>=-eq-ok (values r) _ h in (vs, e, tt)
  passes-AskedBy (some (t, idx)) r h =
      let (vs, e, k) = >>=-eq-ok (values r) _ h in
      let (text, place, fits) = >>=-eq-ok (unwrap (get_elem? vs idx)) _ k in
      (
        vs,
        e,
        (text, unwrap-ok (get_elem? vs idx) place, parses_to-Reads t text (ok_injective fits)),
      )

  AskedBy-passes :
      (filter : Option (T × ℕ)) (r : CommandResponse) (vs : List Text)
      → values r ≡ ok vs
      → AskedBy filter vs
      → passes parse eq filter r ≡ ok true
  unfolding passes
  AskedBy-passes none r vs e asked = rw e refl
  AskedBy-passes (some (t, idx)) r vs e (text, place, reads) =
      rw (e, place) (ap ok (Reads-parses_to t text reads))

  passes-LeftBy :
      (filter : Option (T × ℕ)) (r : CommandResponse)
      → passes parse eq filter r ≡ ok false
      → (vs : List Text) × (values r ≡ ok vs) × LeftBy filter vs
  unfolding passes
  passes-LeftBy none r h = let (vs, e, k) = >>=-eq-ok (values r) _ h in absurd (cc (ok_injective k))
  passes-LeftBy (some (t, idx)) r h =
      let (vs, e, k) = >>=-eq-ok (values r) _ h in
      let (text, place, fits) = >>=-eq-ok (unwrap (get_elem? vs idx)) _ k in
      (
        vs,
        e,
        (
          text,
          unwrap-ok (get_elem? vs idx) place,
          λ reads. absurd (cc (ok_injective fits, Reads-parses_to t text reads)),
        ),
      )

  LeftBy-passes :
      (filter : Option (T × ℕ)) (r : CommandResponse) (vs : List Text)
      → values r ≡ ok vs
      → LeftBy filter vs
      → passes parse eq filter r ≡ ok false
  unfolding passes
  LeftBy-passes none r vs e left = absurd left
  LeftBy-passes (some (t, idx)) r vs e (text, place, other) =
      rw (e, place)
        (elim (Bool-cases (parses_to parse eq t text)) [
          | inl reads ↦ absurd (other (parses_to-Reads t text reads))
          | inr no_match ↦ ap ok no_match
        ])

  module _ (filter : Option (T × ℕ)) (sign : ℕ) (name : Text) where
    -- The response is to the command, and with values that are asked for.
    abbrev pub IsAsked : CommandResponse → Type 0
    IsAsked r = (command r ≡ ok name) × (vs : List Text) × (values r ≡ ok vs) × AskedBy filter vs

    -- The response is to another command, or with other values.
    abbrev pub IsOther : CommandResponse → Type 0
    IsOther r =
        ((other : Text) × (command r ≡ ok other) × (other ≢ name))
        ⊎ ((command r ≡ ok name) × (vs : List Text) × (values r ≡ ok vs) × LeftBy filter vs)

    -- A line that is not asked for: any that is no response, and a response that is another.
    abbrev pub Skipped : FromModem → Type 0
    Skipped (FromModem.command_response r) = IsOther r
    Skipped _ = Unit

    slice_tail : slice {E = Error} (sign ∷ name) 1 (length (sign ∷ name)) ≡ ok name
    slice_tail =
        slice_lem (sign ∷ name) 1 (length (sign ∷ name)) (omega arith) (omega arith)
        ∙ ap ok (take_all (length (sign ∷ name) - 1) name (omega arith))

    -- What is left of the test once the command is read.
    selects_named :
        (r : CommandResponse) (n : Text)
        → command r ≡ ok n
        → selects parse eq (sign ∷ name) filter r
          ≡ (if text_eq n name then passes parse eq filter r else ok false)
    unfolding selects
    selects_named r n named = rw (named, slice_tail) refl

    same_name :
        (n : Text) (r : CommandResponse) (b : Bool)
        → (if text_eq n name then passes parse eq filter r else ok false) ≡ ok b
        → ((n ≡ name) × (passes parse eq filter r ≡ ok b)) ⊎ ((n ≢ name) × (b ≡ false))
    same_name n r b h = elim (Bool-cases (text_eq n name)) [
      | inl same ↦ inl (text_eq→eq n name same, rw same at h)
      | inr differs ↦ inr (
        λ same. absurd (let e = rw same at differs in cc (e, text_eq_refl name)),
        sym (ok_injective (rw differs at h)),
      )
    ]

    selects_split :
        (r : CommandResponse) (b : Bool)
        → selects parse eq (sign ∷ name) filter r ≡ ok b
        → (n : Text) × (command r ≡ ok n)
          × (((n ≡ name) × (passes parse eq filter r ≡ ok b)) ⊎ ((n ≢ name) × (b ≡ false)))
    unfolding selects
    selects_split r b h =
        let (n, named, k) = >>=-eq-ok (command r) _ h in
        (n, named, same_name n r b (sym (selects_named r n named) ∙ h))

    -- The test of a response is passed exactly by those that are asked for.
    pub selects-IsAsked :
        (r : CommandResponse) → (selects parse eq (sign ∷ name) filter r ≡ ok true) ↔ IsAsked r
    selects-IsAsked r = (
      λ h.
          let (n, named, how) = selects_split r true h in
          elim how [
            | inl (same, passed) ↦
                let (vs, reads, asked) = passes-AskedBy filter r passed in
                (named ∙ ap ok same, vs, reads, asked)
            | inr (differs, never) ↦ absurd (cc (never))
          ],
      λ (named, vs, reads, asked).
          selects_named r name named
          ∙ rw (text_eq_refl name) (AskedBy-passes filter r vs reads asked),
    )

    -- It fails without an error exactly for the others.
    pub selects-IsOther :
        (r : CommandResponse) → (selects parse eq (sign ∷ name) filter r ≡ ok false) ↔ IsOther r
    selects-IsOther r = (
      λ h.
          let (n, named, how) = selects_split r false h in
          elim how [
            | inl (same, passed) ↦
                let (vs, reads, left) = passes-LeftBy filter r passed in
                inr (named ∙ ap ok same, vs, reads, left)
            | inr (differs, e) ↦ inl (n, named, differs)
          ],
      λ other. elim other [
        | inl (n, named, differs) ↦
            let unequal : text_eq n name ≡ false = elim (Bool-cases (text_eq n name)) [
              | inl same ↦ absurd (differs (text_eq→eq n name same))
              | inr e ↦ e
            ] in
            selects_named r n named ∙ rw unequal refl
        | inr (named, vs, reads, left) ↦
            selects_named r name named
            ∙ rw (text_eq_refl name) (LeftBy-passes filter r vs reads left)
      ],
    )
