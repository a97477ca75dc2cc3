-- ===== src/At/Uart/Fake/Scripts.antt =====
-- A command to the fake modem of common/src/at/uart.rs, and the response of its script.
use yaroc.Prelude.{ℕ, ◌≤◌, ◌≡◌, refl, ap, ◌∙◌, arith, Bool, true, false, none}
use yaroc.Prelude.{List, [], ◌∷◌, ◌++◌, length, length-append, le→ltb}
use yaroc.Prelude.Result.{Result, ok}
use yaroc.Prelude.Text.{Text, codes, text_eq_refl}
use yaroc.Error.{Error}
use yaroc.At.Types.{CommandResponse, FromModem, terminal}
use yaroc.At.Response
use yaroc.At.Uart.Broker.{Message, broker_round, parse_lines}
use yaroc.At.Uart.Broker.Lines.{framed}
use yaroc.At.Uart.Broker.Exchange.{Answer, IsAnswer, Shows, line, parse_lines-answer}
use yaroc.At.Uart.Calls.{AtUart, call_at}
use yaroc.At.Uart.Calls.Replies.{call_at-reply}
use yaroc.At.Uart.Fake.{Fake, write, read_until_idle, reader, arrivals}

-- A command as it is written.
abbrev pub written : Text → Text
written command = codes "AT" ++ command ++ 13 ∷ []

-- The bytes of an answer and an OK.
abbrev pub replied : Answer → Text
replied a = framed (line a ∷ codes "OK" ∷ [])

replied_fits : (a : Answer) → length (line a) ≤ 90 → length (replied a) ≤ 300
replied_fits a h = omega (arith, length-append (line a) (13 ∷ 10 ∷ framed (codes "OK" ∷ [])))

module _ {S : Type 0} (urc_handler : CommandResponse → S → Result Error (Bool × S)) where
  -- A modem that is asked nothing, with its script.
  abbrev pub idle : List (Text × Text) → S → AtUart (Fake S)
  idle responses s = record {
    channel = [];
    wire = record { responses = responses; commands = []; handler = s };
  }

  -- The text that is written, and what comes of it.
  write-arrivals :
      (command : Text) (timeout : ℕ) (response : Text) (rest : List (Text × Text)) (s : S)
      (messages : List Message)
      → length command ≤ 87
      → length response ≤ 300
      → parse_lines urc_handler response s ≡ ok (messages, s)
      → let wire = (idle ((written command, response) ∷ rest) s).wire in
        ((write (written command) wire).0 ≡ true)
        × (arrivals urc_handler timeout (write (written command) wire).1
            ≡ (messages ++ [], (idle rest s).wire))
  unfolding write arrivals reader read_until_idle broker_round
  write-arrivals command timeout response rest s messages short small parses =
      let fits =
        le→ltb 90 (length (written command)) (omega (arith, length-append command (13 ∷ []))) in
      rw fits
        (refl, rw (text_eq_refl (written command), le→ltb 300 (length response) small, parses) refl)

  -- A command of at most 87 bytes, to which the script of an idle fake modem has as the next response
  -- an answer with values and an OK, is written, and gives a response with the name and the values of
  -- the answer, for that command, if the handler of URCs leaves it. Nothing stays in the channels, and
  -- the rest of the script is next.
  pub call_at-answer :
      (command : Text) (timeout : ℕ) (a : Answer) (rest : List (Text × Text)) (s : S)
      → length command ≤ 87
      → IsAnswer a
      → ((r : CommandResponse) → Shows a r → urc_handler r s ≡ ok (false, s))
      → (r : CommandResponse) × Shows a r
        × (call_at write
              (arrivals urc_handler)
              command
              timeout
              none
              (idle ((written command, replied a) ∷ rest) s)
            ≡ (
              Response.new (FromModem.command_response r ∷ FromModem.ok ∷ []) command,
              idle rest s,
            ))
  unfolding terminal
  call_at-answer command timeout a rest s short h leaves =
      let (r, shows, parses) = parse_lines-answer urc_handler a s h leaves in
      let reply = FromModem.command_response r ∷ FromModem.ok ∷ [] in
      let (sends, gives) =
        write-arrivals command timeout (replied a) rest s _ short (replied_fits a h.fits) parses in
      (
        r,
        shows,
        call_at-reply write (arrivals urc_handler) command timeout reply [] _
              (record {
                sends = sends;
                gives = ap (λ done. done.0) gives;
                fits = short;
                whole = (refl, refl);
                few = omega arith;
              })
              refl
            ∙ ap
                (λ (done : List Message × Fake S).
                  (Response.new reply command, record { channel = []; wire = done.1 }))
                gives,
      )
