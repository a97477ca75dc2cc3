-- ===== src/At/Uart/Broker.antt =====
-- `AtRxBroker` of common/src/at/uart.rs: it cuts what it reads from the UART into lines, gives the
-- unsolicited codes (URCs) to their handler and sends the rest to the main channel. The channel is
-- the list of the messages in it; a send that has to wait for room comes in its turn.
pub mod Lines
pub mod Closing
pub mod Exchange
pub mod Tests
use yaroc.Prelude.{ℕ, zero, suc, ◌+◌, ◌-◌, Bool, true, false, ◌&&◌, ◌||◌, not, List, [], ◌∷◌, ◌++◌}
use yaroc.Prelude.{length, ltb, leb, ◌==◌, if◌then◌else◌}
use yaroc.Prelude.Result.{Result, ok, err, panic, ◌>>=◌}
use yaroc.Prelude.Text.{Text, codes, text_eq}
use yaroc.Error.{Error, buffer_too_small_error, string_encoding_error}
use yaroc.At.Types.{CommandResponse, FromModem, terminal, at_command_size}
use yaroc.At.Values.{new}

abbrev pub Message : Type 0
Message = Result Error FromModem

abbrev carriage_return : ℕ
carriage_return = 13

abbrev newline : ℕ
newline = 10

abbrev begins_with : ℕ → Text → Bool
begins_with c [] = false
begins_with c (d ∷ s) = d == c

-- A character in front of the first line.
abbrev attach : ℕ → List Text → List Text
attach c [] = (c ∷ []) ∷ []
attach c (line ∷ lines) = (c ∷ line) ∷ lines

-- `str::lines`: a line ends with a newline, or with a carriage return and a newline.
pub lines : Text → List Text
lines [] = []
lines (c ∷ s) =
    let rest = lines s in
    if c == newline
    then [] ∷ rest
    else if (c == carriage_return) && begins_with newline s
    then rest
    else attach c rest

-- `filter(|line| !line.is_empty())`.
pub nonempty_lines : List Text → List Text
nonempty_lines [] = []
nonempty_lines ([] ∷ lines) = nonempty_lines lines
nonempty_lines ((c ∷ s) ∷ lines) = (c ∷ s) ∷ nonempty_lines lines

abbrev is_final : Text → Bool
is_final line =
    text_eq line (codes "OK")
    || text_eq line (codes "RDY")
    || text_eq line (codes "APP RDY")
    || text_eq line (codes "> ")

abbrev as_line : Text → Message
as_line line =
    if ltb at_command_size (length line)
    then err buffer_too_small_error
    else ok (FromModem.line line)

abbrev as_answer : Text → Result Error CommandResponse → Result Error Message
as_answer line (ok response) = ok (ok (FromModem.command_response response))
as_answer line (err e) = ok (as_line line)
as_answer line panic = panic

-- `to_send` of a line.
pub to_send : Text → Result Error Message
to_send line =
    if is_final line
    then ok (ok FromModem.ok)
    else if text_eq line (codes "ERROR")
    then ok (ok FromModem.error)
    else as_answer line (new line)

-- `open_stream` once the message was sent.
pub opens : Message → Bool
opens (ok from_modem) = not (terminal from_modem)
opens _ = false

-- The handler of URCs changes a state of its own, and says whether it took the response.
module _ {S : Type 0} (urc_handler : CommandResponse → S → Result Error (Bool × S)) where
  abbrev offered : Message → S → Result Error (Bool × S)
  offered (ok (FromModem.command_response response)) s = urc_handler response s
  offered _ s = ok (false, s)

  -- The loop over the lines: what is sent, and `open_stream` and the handler's state at its end.
  pub parse_lines_loop : List Text → Bool → S → Result Error (List Message × Bool × S)
  parse_lines_loop [] open_stream s = ok ([], open_stream, s)
  parse_lines_loop (line ∷ lines) open_stream s = do
    message ← to_send line
    taken ← offered message s
    later ← parse_lines_loop lines (if taken.0 then open_stream else opens message) taken.1
    ok (if taken.0 then later.0 else message ∷ later.0, later.1, later.2)

  pub parse_lines : Text → S → Result Error (List Message × S)
  parse_lines text s = do
    done ← parse_lines_loop (nonempty_lines (lines text)) false s
    ok (if done.1 then done.0 ++ ok FromModem.eof ∷ [] else done.0, done.2)

  -- What the UART gives to a read: bytes, or an error.
  pub data ReadEvent : Type 0 where
    failed : Error → ReadEvent
    received : Text → ReadEvent

  -- One round of `broker_loop`; `from_utf8` is the test of Rust's library.
  unfoldable pub broker_round : (Text → Bool) → ReadEvent → S → Result Error (List Message × S)
  broker_round from_utf8 (failed e) s = ok (err e ∷ [], s)
  broker_round from_utf8 (received bytes) s =
      if from_utf8 bytes then parse_lines bytes s else ok (err string_encoding_error ∷ [], s)

  -- The rounds of `broker_loop` for the reads that are made.
  pub broker_loop : (Text → Bool) → List ReadEvent → S → Result Error (List Message × S)
  broker_loop from_utf8 [] s = ok ([], s)
  broker_loop from_utf8 (event ∷ events) s = do
    first ← broker_round from_utf8 event s
    later ← broker_loop from_utf8 events first.1
    ok (first.0 ++ later.0, later.1)
