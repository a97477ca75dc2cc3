-- ===== src/At/Response/Selection.antt =====
-- `AtResponse::response` of common/src/at/response.rs: which of the lines of a reply is its answer.
use yaroc.Prelude.Text.{slice}
use yaroc.At.Values.{command}
use yaroc.Prelude.{ℕ, ◌≡◌, refl, ap, sym, ◌∙◌, Bool, true, false, Option, ◌⊎◌, ◌↔◌, inl, inr}
use yaroc.Prelude.{List, [], ◌∷◌, ◌++◌, All, if◌then◌else◌, if◌then◌else◌}
use yaroc.Prelude.Result.{Result, ok, >>=-eq-ok}
use yaroc.Prelude.Text.{Text}
use yaroc.Error.{Error}
use yaroc.At.Types.{CommandResponse, FromModem, AtResponse}
use yaroc.At.Response.{selects, response_loop, response}
use yaroc.At.Response.Asked.{IsAsked, Skipped, selects-IsAsked, selects-IsOther}

module _ {T : Type 0} (parse : Text → Option T) (eq : T → T → Bool) (cmd : Text)
    (filter : Option (T × ℕ)) where
  -- The line does not end the loop.
  Passed : FromModem → Type 0
  Passed (FromModem.command_response r) = selects parse eq cmd filter r ≡ ok false
  Passed _ = Unit

  -- The line that ends the loop.
  record Found (lines : List FromModem) (r : CommandResponse) : Type 0 where
    pub before : List FromModem
    pub after : List FromModem
    pub place : lines ≡ before ++ FromModem.command_response r ∷ after
    pub skips : All Passed before
    pub fits : selects parse eq cmd filter r ≡ ok true

  further :
      (m : FromModem) (lines : List FromModem) (r : CommandResponse)
      → Passed m
      → Found lines r
      → Found (m ∷ lines) r
  further m lines r h first = record {
    before = m ∷ first.before;
    after = first.after;
    place = ap (λ t. m ∷ t) first.place;
    skips = (h, first.skips);
    fits = first.fits;
  }

  chosen :
      (b : Bool) (x : CommandResponse) (rest : Result Error CommandResponse) {r : CommandResponse}
      → (if b then ok x else rest) ≡ ok r
      → ((b ≡ true) × (x ≡ r)) ⊎ ((b ≡ false) × (rest ≡ ok r))
  chosen true x rest h = inl (refl, cc (h))
  chosen false x rest h = inr (refl, h)

  loop-Found :
      (lines : List FromModem) {r : CommandResponse}
      → response_loop parse eq cmd filter lines ≡ ok r
      → Found lines r
  unfolding response_loop Passed
  loop-Found [] h = absurd (cc)
  loop-Found (FromModem.line t ∷ lines) h =
      further (FromModem.line t) lines _ tt (loop-Found lines h)
  loop-Found (FromModem.ok ∷ lines) h = further FromModem.ok lines _ tt (loop-Found lines h)
  loop-Found (FromModem.error ∷ lines) h = further FromModem.error lines _ tt (loop-Found lines h)
  loop-Found (FromModem.eof ∷ lines) h = further FromModem.eof lines _ tt (loop-Found lines h)
  loop-Found (FromModem.command_response x ∷ lines) {r = r} h =
      let (b, e, k) = >>=-eq-ok (selects parse eq cmd filter x) _ h in
      elim (chosen b x (response_loop parse eq cmd filter lines) k) [
        | inl (wanted, same) ↦ record {
          before = [];
          after = lines;
          place = ap (λ t. FromModem.command_response t ∷ lines) same;
          skips = tt;
          fits = ap (selects parse eq cmd filter) (sym same) ∙ e ∙ ap ok wanted;
        }
        | inr (other, found) ↦
            further (FromModem.command_response x) lines r (e ∙ ap ok other)
              (loop-Found lines found)
      ]

  first-loop :
      (before after : List FromModem) (r : CommandResponse)
      → All Passed before
      → selects parse eq cmd filter r ≡ ok true
      → response_loop parse eq cmd filter (before ++ FromModem.command_response r ∷ after) ≡ ok r
  unfolding response_loop Passed
  first-loop [] after r skips fits = rw fits
  first-loop (FromModem.line t ∷ before) after r skips fits = first-loop before after r skips.1 fits
  first-loop (FromModem.ok ∷ before) after r skips fits = first-loop before after r skips.1 fits
  first-loop (FromModem.error ∷ before) after r skips fits = first-loop before after r skips.1 fits
  first-loop (FromModem.eof ∷ before) after r skips fits = first-loop before after r skips.1 fits
  first-loop (FromModem.command_response x ∷ before) after r skips fits =
      rw skips.0 (first-loop before after r skips.1 fits)

-- The response is the first of the lines that is asked for: an answer to the command, which stands
-- behind its first character, with a value that the filter is for. No line before it is one.
pub record IsFirst {T : Type 0} (parse : Text → Option T) (eq : T → T → Bool) (cmd : Text)
    (filter : Option (T × ℕ)) (lines : List FromModem) (r : CommandResponse) : Type 0 where
  pub sign : ℕ
  pub name : Text
  pub named : cmd ≡ sign ∷ name
  pub before : List FromModem
  pub after : List FromModem
  pub place : lines ≡ before ++ FromModem.command_response r ∷ after
  pub skips : All (Skipped parse eq filter sign name) before
  pub asked : IsAsked parse eq filter sign name r

module _ {T : Type 0} (parse : Text → Option T) (eq : T → T → Bool) (filter : Option (T × ℕ))
    (sign : ℕ) (name : Text) where
  Passed-Skipped :
      (before : List FromModem)
      → All (Passed parse eq (sign ∷ name) filter) before
        ↔ All (Skipped parse eq filter sign name) before
  unfolding Passed
  Passed-Skipped [] = (λ h. h, λ h. h)
  Passed-Skipped (FromModem.command_response r ∷ before) =
      let here = selects-IsOther parse eq filter sign name r in
      let later = Passed-Skipped before in
      (λ h. (here.0 h.0, later.0 h.1), λ h. (here.1 h.0, later.1 h.1))
  Passed-Skipped (FromModem.line t ∷ before) =
      let later = Passed-Skipped before in (λ h. (tt, later.0 h.1), λ h. (tt, later.1 h.1))
  Passed-Skipped (FromModem.ok ∷ before) =
      let later = Passed-Skipped before in (λ h. (tt, later.0 h.1), λ h. (tt, later.1 h.1))
  Passed-Skipped (FromModem.error ∷ before) =
      let later = Passed-Skipped before in (λ h. (tt, later.0 h.1), λ h. (tt, later.1 h.1))
  Passed-Skipped (FromModem.eof ∷ before) =
      let later = Passed-Skipped before in (λ h. (tt, later.0 h.1), λ h. (tt, later.1 h.1))

-- A response that is selected is so by a command that is not empty.
selects_begins :
    {T : Type 0} (parse : Text → Option T) (eq : T → T → Bool) (cmd : Text)
    (filter : Option (T × ℕ)) (r : CommandResponse) (b : Bool)
    → selects parse eq cmd filter r ≡ ok b
    → (sign : ℕ) × (name : Text) × (cmd ≡ sign ∷ name)
unfolding selects slice
selects_begins parse eq [] filter r b h =
    let (n, named, k) = >>=-eq-ok (command r) _ h in absurd (cc (k))
selects_begins parse eq (sign ∷ name) filter r b h = (sign, name, refl)

Found-IsFirst :
    {T : Type 0} (parse : Text → Option T) (eq : T → T → Bool) (cmd : Text)
    (filter : Option (T × ℕ)) (lines : List FromModem) (r : CommandResponse)
    → Found parse eq cmd filter lines r
    → IsFirst parse eq cmd filter lines r
Found-IsFirst parse eq [] filter lines r found =
    let (sign, name, e) = selects_begins parse eq [] filter r true found.fits in absurd (cc (e))
Found-IsFirst parse eq (sign ∷ name) filter lines r found = record {
  sign = sign;
  name = name;
  named = refl;
  before = found.before;
  after = found.after;
  place = found.place;
  skips = (Passed-Skipped parse eq filter sign name found.before).0 found.skips;
  asked = (selects-IsAsked parse eq filter sign name r).0 found.fits;
}

-- `response` gives a response exactly when it is the first of the lines that has the name of the
-- command, which is the command without its first character, and, where a filter is given, a value at
-- its position that is read as one that equals the filter's; and when each response before it has
-- another name, or a value at that position that is not read as such a one.
pub response_iff :
    {T : Type 0} (parse : Text → Option T) (eq : T → T → Bool) (self : AtResponse)
    (filter : Option (T × ℕ)) (r : CommandResponse)
    → (response parse eq self filter ≡ ok r) ↔ IsFirst parse eq self.command filter self.lines r
unfolding response
response_iff parse eq self filter r = (
  λ h.
      Found-IsFirst parse eq self.command filter self.lines r
        (loop-Found parse eq self.command filter self.lines h),
  λ first.
      let skips =
        (Passed-Skipped parse eq filter first.sign first.name first.before).1 first.skips in
      let fits = (selects-IsAsked parse eq filter first.sign first.name r).1 first.asked in
      rw (first.place, first.named)
        (first-loop parse eq (first.sign ∷ first.name) filter first.before first.after r skips
          fits),
)
