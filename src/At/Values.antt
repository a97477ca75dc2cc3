-- ===== src/At/Values.antt =====
-- `CommandResponse` of common/src/at/response.rs: an answer `+COMMAND: value,"value"` is split into
-- its command and its values.
pub mod Split
pub mod RoundTrip
pub mod Names
pub mod Answers
pub mod Overflow
pub mod Tests
use yaroc.Prelude.{ℕ, zero, suc, ◌+◌, ◌-◌, Bool, true, false, ◌&&◌, not, Option, none, some}
use yaroc.Prelude.{
  List, [], ◌∷◌, ◌++◌, length, drop, get_elem?, last?, ltb, leb, ◌==◌, if◌then◌else◌,
}
use yaroc.Prelude.Result.{Result, ok, err, panic, ◌>>=◌, ◌>>◌, ok_or, unwrap}
use yaroc.Prelude.Text.{Text, codes, starts_with, find, slice}
use yaroc.Error.{Error, parse_error, buffer_too_small_error, modem_error}
use yaroc.At.Types.{Substring, CommandResponse, at_command_size, at_value_count, at_value_len}

abbrev pub quote : ℕ
quote = 34

abbrev pub comma : ℕ
comma = 44

-- `unwrap_or`.
abbrev pub or_else : Option ℕ → ℕ → ℕ
or_else none n = n
or_else (some i) n = i

abbrev pub ends_with_quote : Text → Bool
ends_with_quote s = elim (last? s) [ none ↦ false | some c ↦ c == quote ]

pub split_at_response : Text → Result Error (Option (Text × Text))
split_at_response line =
    if starts_with (codes "+") line
    then elim (find (codes ": ") line) [
      | none ↦ ok none
      | some prefix_len ↦ do
        prefix ← slice line 1 prefix_len
        rest ← slice line (prefix_len + 2) (length line)
        ok (some (prefix, rest))
    ]
    else ok none

-- A value in quotes, up to `pos`, pushed to `split`, and the position behind it.
pub quoted_value : Text → List Text → ℕ → Result Error (List Text × ℕ)
quoted_value values split pos =
    if (pos == length values - 1) && not (ends_with_quote values) then err parse_error else do
      value ← slice values 1 pos
      (if ltb (length split) at_value_count then ok (split ++ value ∷ [], pos + 1) else panic)

-- The same for a value without quotes.
pub plain_value : Text → List Text → ℕ → Result Error (List Text × ℕ)
plain_value values split pos = do
  value ← slice values 0 pos
  (if ltb (length split) at_value_count
      then ok (split ++ value ∷ [], pos)
      else err buffer_too_small_error)

-- The `match` on the first character of `values`.
pub split_value : Text → List Text → Result Error (List Text × ℕ)
split_value [] split = ok (split, 0)
split_value (c ∷ s) split =
    let values = c ∷ s in
    if c == quote
    then quoted_value values split (or_else (find (quote ∷ comma ∷ []) values) (length values - 1))
    else plain_value values split (or_else (find (comma ∷ []) values) (length values))

-- The loop, with fuel for its rounds: each takes a byte at least, so the count of bytes is enough,
-- and with none left the loop is at its end.
pub split_values_loop : ℕ → Text → List Text → Result Error (List Text)
split_values_loop zero values split = ok split
split_values_loop (suc fuel) [] split = ok split
split_values_loop (suc fuel) (c ∷ s) split = split_value (c ∷ s) split >>= λ next.
    let rest = split_values_loop fuel (drop (next.1 + 1) (c ∷ s)) next.0 in
    if leb (length (c ∷ s)) next.1 then ok next.0 else rest

pub split_values : Text → Result Error (List Text)
split_values values = split_values_loop (length values) values []

-- `CommandResponse::new`.
pub new : Text → Result Error CommandResponse
new line = do
  found ← split_at_response line
  parts ← ok_or parse_error found
  split_values parts.1
  (if ltb at_command_size (length line)
      then err buffer_too_small_error
      else ok (record { line = line; prefix = record { start = 1; end = 1 + length parts.0 } }))

pub command : CommandResponse → Result Error Text
command response = slice response.line 1 response.prefix.end

-- `Result::unwrap`.
abbrev pub unwrap_result : {A : Type 0} → Result Error A → Result Error A
unwrap_result (ok a) = ok a
unwrap_result (err e) = panic
unwrap_result panic = panic

pub values : CommandResponse → Result Error (List Text)
values response = do
  rest ← slice response.line (response.prefix.end + 2) (length response.line)
  unwrap_result (split_values rest)

-- `indices.iter().all(|idx| *idx < values.len())`.
pub all_below : List ℕ → ℕ → Bool
all_below [] n = true
all_below (idx ∷ indices) n = ltb idx n && all_below indices n

-- `String::from_str(values[*idx]).unwrap()` for each index.
pub picked : List Text → List ℕ → Result Error (List Text)
picked values [] = ok []
picked values (idx ∷ indices) = do
  value ← unwrap (get_elem? values idx)
  rest ← picked values indices
  (if ltb at_value_len (length value) then panic else ok (value ∷ rest))

pub pick_values : CommandResponse → List ℕ → Result Error (List Text)
pick_values response indices = do
  values ← values response
  (if all_below indices (length values) then picked values indices else err modem_error)

-- `str::parse` of each value, by the parser of the type.
pub parse_all : {T : Type 0} → (Text → Option T) → List Text → Result Error (List T)
parse_all parse [] = ok []
parse_all parse (value ∷ values) = do
  t ← ok_or parse_error (parse value)
  ts ← parse_all parse values
  ok (t ∷ ts)

pub parse_values : {T : Type 0} → (Text → Option T) → CommandResponse → Result Error (List T)
parse_values parse response = do values ← values response; parse_all parse values
