-- ===== src/At/Values/Split.antt =====
-- One round of `split_values` of common/src/at/response.rs: what it takes from the front of a line
-- of values, and that a round for each byte is enough.
use mathlib.Core.Logic.{◌≢◌}
use mathlib.Core.Path.{fun_ext}
use yaroc.Prelude.{ℕ, zero, suc, ◌+◌, ◌≤◌, ◌≡◌, refl, ap, arith}
use yaroc.Prelude.{none, some, List, [], ◌∷◌, ◌++◌, length, drop, All, leb, if◌then◌else◌}
use yaroc.Prelude.{length-drop}
use yaroc.Prelude.Text.{Text, find, starts_with}
use yaroc.Prelude.Result.{Result, ok, ◌>>=◌}
use yaroc.Error.{Error}
use yaroc.At.Values.{split_value, split_values_loop, quote, comma}

pub loop_step :
    (fuel : ℕ) (t : Text) (split : List Text)
    → t ≢ []
    → split_values_loop (suc fuel) t split ≡ (
        split_value t split >>= λ next.
        if leb (length t) next.1
        then ok next.0
        else split_values_loop fuel (drop (next.1 + 1) t) next.0)
unfolding split_values_loop
loop_step fuel [] split h = absurd (h refl)
loop_step fuel (c ∷ s) split h = refl

-- Every fuel that covers the bytes gives one result.
pub loop_fuel :
    (f g : ℕ) (t : Text) (split : List Text)
    → length t ≤ f
    → length t ≤ g
    → split_values_loop f t split ≡ split_values_loop g t split
unfolding split_values_loop
loop_fuel zero zero [] split p q = refl
loop_fuel zero (suc g) [] split p q = refl
loop_fuel (suc f) zero [] split p q = refl
loop_fuel (suc f) (suc g) [] split p q = refl
loop_fuel zero g (c ∷ s) split p q = absurd (omega arith)
loop_fuel (suc f) zero (c ∷ s) split p q = absurd (omega arith)
loop_fuel (suc f) (suc g) (c ∷ s) split p q =
    ap (λ (k : List Text × ℕ → Result Error (List Text)). split_value (c ∷ s) split >>= k)
      (fun_ext λ next.
        ap (λ rest. if leb (length (c ∷ s)) next.1 then ok next.0 else rest)
          (loop_fuel f g (drop (next.1 + 1) (c ∷ s)) next.0
            (omega (arith, length-drop (next.1 + 1) (c ∷ s)))
            (omega (arith, length-drop (next.1 + 1) (c ∷ s)))))

-- A quote and then a comma end a quoted value: the text has no such pair, also with the byte before.
abbrev pub NoBreak : ℕ → Text → Type 0
NoBreak p [] = Unit
NoBreak p (c ∷ s) = (p ≡ quote → c ≢ comma) × NoBreak c s

pub find_break :
    (p : ℕ) (v rest : Text)
    → NoBreak p v
    → find (quote ∷ comma ∷ []) (p ∷ v ++ quote ∷ comma ∷ rest) ≡ some (suc (length v))
unfolding find starts_with
find_break p [] rest h = ground arith
find_break p (c ∷ v) rest h = ground (arith, find_break c v rest h.1)

pub find-NoBreak :
    (p : ℕ) (v : Text) → NoBreak p v → find (quote ∷ comma ∷ []) (p ∷ v ++ quote ∷ []) ≡ none
unfolding find starts_with
find-NoBreak p [] h = ground arith
find-NoBreak p (c ∷ v) h = ground (arith, find-NoBreak c v h.1)

pub find-comma :
    (v rest : Text)
    → All (λ c. c ≢ comma) v
    → find (comma ∷ []) (v ++ comma ∷ rest) ≡ some (length v)
unfolding find starts_with
find-comma [] rest h = refl
find-comma (c ∷ v) rest h = ground (arith, find-comma v rest h.1)

pub find_no_comma : (v : Text) → All (λ c. c ≢ comma) v → find (comma ∷ []) v ≡ none
unfolding find starts_with
find_no_comma [] h = refl
find_no_comma (c ∷ v) h = ground (arith, find_no_comma v h.1)
