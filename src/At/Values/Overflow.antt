-- ===== src/At/Values/Overflow.antt =====
-- `split_values` of common/src/at/response.rs on what it has no room for, and on a quote that is
-- not closed: where it gives an error and where it panics.
use Prim.Native.Nat.{◌-◌}
use mathlib.Core.List.{append_assoc, append-nil}
use yaroc.Prelude.{ℕ, zero, suc, ◌+◌, ◌≤◌, ◌≡◌, ◌≢◌, refl, ◌∙◌, arith, false}
use yaroc.Prelude.{List, [], ◌∷◌, ◌++◌, map, length, All, ◌==◌}
use yaroc.Prelude.{length-append, length-map, lt→leb, le→ltb}
use yaroc.Prelude.Text.{Text, find, starts_with, slice}
use yaroc.Prelude.Result.{Result, err, panic}
use yaroc.Error.{Error, buffer_too_small_error}
use yaroc.At.Values.{
  quoted_value, plain_value, split_value, split_values_loop, split_values, quote, comma,
}
use yaroc.At.Values.Split.{loop_step, loop_fuel, find_no_comma, find-NoBreak}
use yaroc.At.Values.RoundTrip.{
  Item, raw, quoted, value, written, IsItem, value_more, drop_past, nonempty, slice_plain,
  slice_quoted, not_open,
}

-- The values, each with a comma behind it, and then the rest.
abbrev pub front : List Item → Text → Text
front [] rest = rest
front (i ∷ items) rest = written i ++ comma ∷ front items rest

size_front :
    (i : Item) (items : List Item) (rest : Text)
    → length (front (i ∷ items) rest) ≡ length (written i) + 1 + length (front items rest)
size_front i items rest = omega (arith, length-append (written i) (comma ∷ front items rest))

shorter : (items : List Item) (rest : Text) → length rest ≤ length (front items rest)
shorter [] rest = omega arith
shorter (i ∷ items) rest = omega (arith, size_front i items rest, shorter items rest)

-- The loop takes the values in front, whatever comes behind them.
loop-front :
    (items : List Item) (rest : Text) (split : List Text) (fuel : ℕ)
    → All IsItem items
    → length split + length items ≤ 8
    → length (front items rest) ≤ fuel
    → split_values_loop fuel (front items rest) split
      ≡ split_values_loop fuel rest (split ++ map value items)
loop-front [] rest split fuel h room enough = rw (append-nil split)
loop-front (i ∷ items) rest split zero h room enough =
    absurd (omega (arith, size_front i items rest))
loop-front (i ∷ items) rest split (suc fuel) h room enough =
    let later = front items rest in
    let size = size_front i items rest in
    rw
      (
        loop_step fuel (written i ++ comma ∷ later) split (nonempty (written i) comma later),
        value_more split (omega arith) i later h.0,
        lt→leb (length (written i ++ comma ∷ later)) (length (written i)) (omega (arith, size)),
        drop_past (written i) comma later,
        loop-front items rest (split ++ value i ∷ []) fuel h.1
            (omega (arith, length-append split (value i ∷ []))) (omega (arith, size)),
        append_assoc split (value i ∷ []) (map value items),
      )
      (loop_fuel fuel (suc fuel) rest (split ++ map value (i ∷ items))
        (omega (arith, size, shorter items rest)) (omega (arith, size, shorter items rest)))

-- What a ninth value comes to.
abbrev pub refused : Item → Result Error (List Text)
refused (raw v) = err buffer_too_small_error
refused (quoted v) = panic

module _ (split : List Text) (full : length split ≡ 8) where
  plain_full : (v : Text) → plain_value v split (length v) ≡ err buffer_too_small_error
  unfolding plain_value
  plain_full v =
      let whole = rw (append-nil v) at (slice_plain v []) in
      rw (whole, le→ltb (length split) 8 (omega arith))

  quoted_full : (v : Text) → quoted_value (quote ∷ v ++ quote ∷ []) split (suc (length v)) ≡ panic
  unfolding quoted_value
  quoted_full v =
      let count : suc (length (v ++ quote ∷ [])) - 1 ≡ length (v ++ quote ∷ []) = omega arith in
      rw (
        count,
        not_open [] (omega arith) v,
        slice_quoted v [],
        le→ltb (length split) 8 (omega arith),
      )

  value_full :
      (i : Item) (fuel : ℕ)
      → IsItem i
      → written i ≢ []
      → split_values_loop (suc fuel) (written i) split ≡ refused i
  unfolding split_values_loop split_value
  value_full (raw []) fuel h e = absurd (e refl)
  value_full (raw (c ∷ v)) fuel h e =
      let plain : (c == quote) ≡ false = ground arith in
      rw (plain, find_no_comma (c ∷ v) h.1, plain_full (c ∷ v))
  value_full (quoted v) fuel h e =
      let last : suc (length (v ++ quote ∷ [])) - 1 ≡ suc (length v) =
        omega (arith, length-append v (quote ∷ [])) in
      rw (find-NoBreak quote v h, last, quoted_full v)

-- A ninth value behind eight: one without quotes is an error of the buffer, but one in quotes is a
-- panic.
pub split_values_ninth :
    (items : List Item) (last : Item)
    → All IsItem items
    → IsItem last
    → written last ≢ []
    → length items ≡ 8
    → split_values (front items (written last)) ≡ refused last
unfolding split_values
split_values_ninth items last h last_ok e eight =
    let text = front items (written last) in
    loop-front items (written last) [] (length text) h (omega arith) (omega arith)
    ∙ loop_fuel (length text) (suc (length (written last))) (written last) (map value items)
        (shorter items (written last)) (omega arith)
    ∙ value_full (map value items) (omega (arith, length-map value items)) last
        (length (written last)) last_ok e

unclosed : (rest : Text) (split : List Text) → quoted_value (quote ∷ comma ∷ rest) split 0 ≡ panic
unfolding quoted_value slice
unclosed rest split = ground arith

-- A string that is not closed: a quote with nothing behind it, or with a comma behind it, is a
-- panic whatever comes then, behind up to seven values.
pub split_values_lone_quote :
    (items : List Item) (rest : Text)
    → All IsItem items
    → length items ≤ 7
    → (split_values (front items (quote ∷ [])) ≡ panic)
      × (split_values (front items (quote ∷ comma ∷ rest)) ≡ panic)
unfolding split_values split_values_loop split_value quoted_value find starts_with slice
split_values_lone_quote items rest h room =
    let text : Text = quote ∷ comma ∷ rest in
    (
      loop-front items (quote ∷ []) [] (length (front items (quote ∷ []))) h (omega arith)
            (omega arith)
          ∙ loop_fuel (length (front items (quote ∷ []))) 1 (quote ∷ []) (map value items)
              (shorter items (quote ∷ [])) (omega arith),
      loop-front items text [] (length (front items text)) h (omega arith) (omega arith)
          ∙ loop_fuel (length (front items text)) (suc (suc (length rest))) text (map value items)
              (shorter items text) (omega arith)
          ∙ rw (unclosed rest (map value items)),
    )
