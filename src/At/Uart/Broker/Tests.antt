-- ===== src/At/Uart/Broker/Tests.antt =====
-- The theorems on the broker of common/src/at/uart.rs at concrete texts.
use yaroc.Prelude.{ℕ, ◌≡◌, ◌≢◌, arith, ◌==◌, Bool, false, List, [], ◌∷◌}
use yaroc.Prelude.Text.{codes, text_eq, starts_with}
use yaroc.Prelude.Result.{Result, ok, err}
use yaroc.Error.{Error, parse_error}
use yaroc.At.Types.{CommandResponse, FromModem, terminal}
use yaroc.At.Values.{new}
use yaroc.At.Values.Answers.{not_answer, no_plus}
use yaroc.At.Uart.Broker.{
  Message, lines, nonempty_lines, to_send, opens, parse_lines_loop, parse_lines,
}
use yaroc.At.Uart.Broker.Closing.{IsClosed, parse_lines-IsClosed}

-- A handler that takes nothing.
abbrev leave : CommandResponse → ℕ → Result Error (Bool × ℕ)
leave r s = ok (false, s)

plain : (c : ℕ) → c ≢ 43 → new (c ∷ []) ≡ err parse_error
unfolding starts_with
plain c h =
    let differs : (43 == c) ≡ false = ground arith in
    not_answer (c ∷ []) (no_plus (c ∷ []) (rw differs))

abbrev three : List Message
three = ok (FromModem.line (codes "a")) ∷ ok (FromModem.line (codes "b")) ∷ ok FromModem.eof ∷ []

-- An empty line, then two that leave the reply open.
open_text : parse_lines leave (codes "\na\nb") 0 ≡ ok (three, 0)
unfolding parse_lines parse_lines_loop lines nonempty_lines to_send opens text_eq terminal
open_text = rw (plain 97 (omega arith), plain 98 (omega arith))

parse_lines-IsClosed_example : IsClosed three
parse_lines-IsClosed_example = parse_lines-IsClosed leave (codes "\na\nb") 0 three 0 open_text
