-- ===== src/At/Response.antt =====
-- `AtResponse` of common/src/at/response.rs: the lines that a modem sent to a command, and the
-- answer among them. A parser of a type is what `str::parse` is there: an argument.
pub mod Selection
pub mod Asked
pub mod Tests
use yaroc.Prelude.{ℕ, zero, suc, Bool, true, false, ◌||◌, Option, none, some, List, [], ◌∷◌}
use yaroc.Prelude.{length, take, get_elem?, ltb, ◌==◌, if◌then◌else◌}
use yaroc.Prelude.Result.{Result, ok, err, panic, ◌>>=◌, ok_or, unwrap}
use yaroc.Prelude.Text.{Text, text_eq, slice}
use yaroc.Error.{Error, parse_error, modem_error}
use yaroc.At.Types.{CommandResponse, FromModem, AtResponse, at_command_size}
use yaroc.At.Values.{command, values, pick_values, or_else}

-- `find(['=', '?'])`.
pub find_sign : Text → Option ℕ
find_sign [] = none
find_sign (c ∷ s) =
    if c == b'=' || c == b'?'
    then some 0
    else elim (find_sign s) [ none ↦ none | some i ↦ some (suc i) ]

-- `AtResponse::new`.
pub new : List FromModem → Text → Result Error AtResponse
new lines command =
    let pos = or_else (find_sign command) (length command) in
    let prefix = take pos command in
    if ltb at_command_size (length prefix)
    then panic
    else ok (record { lines = lines; command = prefix })

module _ {T : Type 0} (parse : Text → Option T) (eq : T → T → Bool) where
  -- `str::parse(values[*idx]).ok().as_ref() == Some(t)`.
  pub parses_to : T → Text → Bool
  parses_to t value = elim (parse value) [ none ↦ false | some val ↦ eq val t ]

  -- Whether the values of an answer to the command are those that are asked for.
  pub passes : Option (T × ℕ) → CommandResponse → Result Error Bool
  passes filter response = do
    vs ← values response
    elim filter [
      | none ↦ ok true
      | some (t, idx) ↦ unwrap (get_elem? vs idx) >>= λ value. ok (parses_to t value)
    ]

  -- The test of one `CommandResponse` of the loop.
  pub selects : Text → Option (T × ℕ) → CommandResponse → Result Error Bool
  selects cmd filter response = do
    name ← command response
    wanted ← slice cmd 1 (length cmd)
    (if text_eq name wanted then passes filter response else ok false)

  -- `for line in &self.lines`.
  pub response_loop : Text → Option (T × ℕ) → List FromModem → Result Error CommandResponse
  response_loop cmd filter [] = err modem_error
  response_loop cmd filter (FromModem.command_response response ∷ lines) =
      let rest = response_loop cmd filter lines in
      selects cmd filter response >>= λ selected. if selected then ok response else rest
  response_loop cmd filter (_ ∷ lines) = response_loop cmd filter lines

  pub response : AtResponse → Option (T × ℕ) → Result Error CommandResponse
  response self filter = response_loop self.command filter self.lines

  -- `filter.map(|t| (t, indices[0]))`.
  abbrev pub filter_at : List ℕ → Option T → Result Error (Option (T × ℕ))
  filter_at indices none = ok none
  filter_at indices (some t) = unwrap (get_elem? indices 0) >>= λ idx. ok (some (t, idx))

  pub pick_response_values : AtResponse → List ℕ → Option T → Result Error (List Text)
  pick_response_values self indices filter = do
    at ← filter_at indices filter
    found ← response self at
    pick_values found indices

-- `AtResponse::parse` of the value at a position.
pub parse_value : {T : Type 0} → (Text → Option T) → List Text → ℕ → Result Error T
parse_value parse values i =
    unwrap (get_elem? values i) >>= λ value. ok_or parse_error (parse value)

pub count_response_values : AtResponse → Result Error ℕ
count_response_values self = do
  found ← response {T = ℕ} (λ _. none) (λ _ _. false) self none
  vs ← values found
  ok (length vs)

module _ {T : Type 0} (parse : Text → Option T) (eq : T → T → Bool) where
  pub parse1 : AtResponse → ℕ → Option T → Result Error T
  parse1 self i filter = do
    vs ← pick_response_values parse eq self (i ∷ []) filter
    parse_value parse vs 0

  pub parse2 :
      {U : Type 0} → (Text → Option U) → AtResponse → ℕ × ℕ → Option T → Result Error (T × U)
  parse2 parse_u self (i, j) filter = do
    vs ← pick_response_values parse eq self (i ∷ j ∷ []) filter
    t ← parse_value parse vs 0
    u ← parse_value parse_u vs 1
    ok (t, u)

  pub parse3 :
      {U V : Type 0}
      → (Text → Option U)
      → (Text → Option V)
      → AtResponse
      → ℕ × ℕ × ℕ
      → Option T
      → Result Error (T × U × V)
  parse3 parse_u parse_v self (i, j, k) filter = do
    vs ← pick_response_values parse eq self (i ∷ j ∷ k ∷ []) filter
    t ← parse_value parse vs 0
    u ← parse_value parse_u vs 1
    v ← parse_value parse_v vs 2
    ok (t, u, v)

  pub parse4 :
      {U V W : Type 0}
      → (Text → Option U)
      → (Text → Option V)
      → (Text → Option W)
      → AtResponse
      → ℕ × ℕ × ℕ × ℕ
      → Result Error (T × U × V × W)
  parse4 parse_u parse_v parse_w self (i, j, k, l) = do
    vs ← pick_response_values parse eq self (i ∷ j ∷ k ∷ l ∷ []) none
    t ← parse_value parse vs 0
    u ← parse_value parse_u vs 1
    v ← parse_value parse_v vs 2
    w ← parse_value parse_w vs 3
    ok (t, u, v, w)
