-- ===== src/At/Values/Answers.antt =====
-- `CommandResponse::new` of common/src/at/response.rs against `command` and `values`.
use yaroc.Prelude.{ℕ, suc, ◌+◌, ◌≤◌, ◌≡◌, ap, sym, ◌∙◌, arith, false}
use yaroc.Prelude.{none, some, inl, inr, List, [], ◌∷◌, ◌++◌, map, length, All, ltb, if◌then◌else◌}
use yaroc.Prelude.{le→ltb, Bool-cases, Option-cases}
use yaroc.Prelude.Text.{Text, find, starts_with}
use yaroc.Prelude.Result.{ok, err, ◌>>=◌, >>=-eq-ok}
use yaroc.Error.{parse_error, buffer_too_small_error}
use yaroc.At.Types.{CommandResponse}
use yaroc.At.Values.{split_at_response, split_values, new, command, values, unwrap_result}
use yaroc.At.Values.RoundTrip.{Item, value, printed, IsItem, EndsWell, split_values-printed}
use yaroc.At.Values.Names.{
  colon, space, plus, answer, IsName, slice-answer, NameEnds, name_ends, find-some, find-first,
  behind_plus,
}

split_at_response-answer :
    (name rest : Text)
    → NameEnds name rest
    → split_at_response (answer name rest) ≡ ok (some (name, rest))
unfolding split_at_response starts_with
split_at_response-answer name rest found =
    rw (found, (slice-answer name rest).0, (slice-answer name rest).1)

module _ (name rest : Text) (h : NameEnds name rest) where
  -- The response that `new` makes of an answer.
  abbrev pub response : CommandResponse
  response = record {
    line = answer name rest;
    prefix = record { start = 1; end = 1 + length name };
  }

  new-answer : new (answer name rest) ≡ (
      split_values rest >>= λ _.
      if ltb 90 (length (answer name rest)) then err buffer_too_small_error else ok response)
  unfolding new
  new-answer = rw (split_at_response-answer name rest h)

  command-response : command response ≡ ok name
  unfolding command
  command-response =
      let e : 1 + length name ≡ suc (length name) = omega arith in rw e ((slice-answer name rest).0)

  values-response : values response ≡ unwrap_result (split_values rest)
  unfolding values
  values-response =
      let e : 1 + length name ≡ suc (length name) = omega arith in
      rw (e, (slice-answer name rest).1)

-- An answer that fits a line, with a name that has no colon and with up to eight values, gives a
-- response with that name and those values.
pub new-printed :
    (name : Text) (items : List Item)
    → IsName name
    → All IsItem items
    → EndsWell items
    → length items ≤ 8
    → length (answer name (printed items)) ≤ 90
    → (r : CommandResponse) × (new (answer name (printed items)) ≡ ok r)
      × (command r ≡ ok name)
      × (values r ≡ ok (map value items))
new-printed name items h items_ok ends room fits =
    let found = name_ends name (printed items) h in
    let splits = split_values-printed items items_ok ends room in
    (
      response name (printed items) found,
      new-answer name (printed items) found ∙ rw (splits, le→ltb _ _ fits),
      command-response name (printed items) found,
      values-response name (printed items) found ∙ rw splits,
    )

pub not_answer : (line : Text) → split_at_response line ≡ ok none → new line ≡ err parse_error
unfolding new
not_answer line h = rw h

pub no_plus :
    (line : Text) → starts_with (plus ∷ []) line ≡ false → split_at_response line ≡ ok none
unfolding split_at_response
no_plus line h = rw h

no_break : (line : Text) → find (colon ∷ space ∷ []) line ≡ none → split_at_response line ≡ ok none
unfolding split_at_response
no_break line h = rw h (ground arith)

-- A line that `new` takes is an answer.
new-answers :
    (line : Text) {r : CommandResponse}
    → new line ≡ ok r
    → (name : Text) × (rest : Text) × (line ≡ answer name rest) × NameEnds name rest
new-answers line h = elim (Bool-cases (starts_with (plus ∷ []) line)) [
  | inr bare ↦ absurd (let e = not_answer line (no_plus line bare) in cc (e))
  | inl plussed ↦ elim (Option-cases (find (colon ∷ space ∷ []) line)) [
    | inl lost ↦ absurd (let e = not_answer line (no_break line lost) in cc (e))
    | inr (n, found) ↦
        let (front, rest, e, size) = find-some line n found in
        let (name, f) = behind_plus line front rest plussed e in
        let shape : line ≡ answer name rest = cc (e, f) in
        (name, rest, shape, rw (← shape) (found ∙ ap some (sym size ∙ ap length f)))
  ]
]

within :
    (n : ℕ) (x r : CommandResponse)
    → (if ltb 90 n then err buffer_too_small_error else ok x) ≡ ok r
    → (n ≤ 90) × (x ≡ r)
within n x r h = ground arith

-- Whatever line `new` takes, its response is the line's: `command` is the text between the plus and
-- the first `: `, of which no other stands before it, and `values` splits what stands behind. Neither
-- panics.
pub new_sound :
    (line : Text) (r : CommandResponse)
    → new line ≡ ok r
    → (name : Text) × (rest : Text) × (vs : List Text) × (line ≡ answer name rest)
      × ((front back : Text)
          → line ≡ front ++ colon ∷ space ∷ back
          → suc (length name) ≤ length front)
      × (command r ≡ ok name)
      × (split_values rest ≡ ok vs)
      × (values r ≡ ok vs)
      × (r.line ≡ line)
      × (length line ≤ 90)
new_sound line r h =
    let (name, rest, shape, ends) = new-answers line h in
    let made : new (answer name rest) ≡ ok r = rw shape at h in
    let (vs, splits, k) =
      >>=-eq-ok (split_values rest) _ (sym (new-answer name rest ends) ∙ made) in
    let (fits, same) = within (length (answer name rest)) (response name rest ends) r k in
    (
      name,
      rest,
      vs,
      shape,
      λ front back e.
          find-first (answer name rest) (suc (length name)) front back ends (sym shape ∙ e),
      ap command (sym same) ∙ command-response name rest ends,
      splits,
      ap values (sym same) ∙ values-response name rest ends ∙ rw splits,
      ap (λ (x : CommandResponse). x.line) (sym same) ∙ sym shape,
      rw shape fits,
    )
