-- ===== src/At/Uart/Broker/Exchange.antt =====
-- An answer of the modem in common/src/at/uart.rs: from the bytes on the UART, through `parse_lines`, to
-- the messages of the channel.
use yaroc.Prelude.{◌≤◌, ◌≡◌, arith, Bool, false}
use yaroc.Prelude.{List, [], ◌∷◌, map, length, All}
use yaroc.Prelude.Result.{Result, ok}
use yaroc.Prelude.Text.{Text, codes, text_eq}
use yaroc.Error.{Error}
use yaroc.At.Types.{CommandResponse, FromModem, terminal}
use yaroc.At.Values.{new, command, values}
use yaroc.At.Values.RoundTrip.{Item, value, printed, IsItem, EndsWell}
use yaroc.At.Values.Names.{answer, IsName}
use yaroc.At.Values.Answers.{new-printed}
use yaroc.At.Uart.Broker.{to_send, opens, parse_lines_loop, parse_lines}
use yaroc.At.Uart.Broker.Lines.{IsLine, framed, lines-framed}

-- An answer with values, as a modem writes it.
pub record Answer : Type 0 where
  pub name : Text
  pub items : List Item

abbrev pub line : Answer → Text
line a = answer a.name (printed a.items)

-- What a modem may write: a name without a colon, up to eight values, a line that fits.
pub record IsAnswer (a : Answer) : Type 0 where
  pub named : IsName a.name
  pub valued : All IsItem a.items
  pub ends : EndsWell a.items
  pub few : length a.items ≤ 8
  pub fits : length (line a) ≤ 90
  pub whole : IsLine (line a)

-- The response has the answer's name and its values.
pub record Shows (a : Answer) (r : CommandResponse) : Type 0 where
  pub made : new (line a) ≡ ok r
  pub names : command r ≡ ok a.name
  pub gives : values r ≡ ok (map value a.items)

shown : (a : Answer) → IsAnswer a → (r : CommandResponse) × Shows a r
shown a h =
    let (r, made, names, gives) = new-printed a.name a.items h.named h.valued h.ends h.few h.fits in
    (r, record { made = made; names = names; gives = gives })

to_send-answer :
    (a : Answer) (r : CommandResponse)
    → Shows a r
    → to_send (line a) ≡ ok (ok (FromModem.command_response r))
unfolding to_send text_eq
to_send-answer a r h = rw h.made

ok-IsLine : IsLine (codes "OK")
ok-IsLine = (λ e. absurd (cc (e)), ((omega arith, omega arith), ((omega arith, omega arith), tt)))

module _ {S : Type 0} (urc_handler : CommandResponse → S → Result Error (Bool × S)) where
  -- The bytes of an answer and an OK, which the handler leaves, become the two messages of a reply:
  -- a response with the name and the values of the answer, and the end.
  pub parse_lines-answer :
      (a : Answer) (s : S)
      → IsAnswer a
      → ((r : CommandResponse) → Shows a r → urc_handler r s ≡ ok (false, s))
      → (r : CommandResponse) × Shows a r
        × (parse_lines urc_handler (framed (line a ∷ codes "OK" ∷ [])) s
            ≡ ok (ok (FromModem.command_response r) ∷ ok FromModem.ok ∷ [], s))
  unfolding parse_lines parse_lines_loop opens to_send text_eq terminal
  parse_lines-answer a s h leaves =
      let (r, shows) = shown a h in
      (
        r,
        shows,
        rw (
          lines-framed (line a ∷ codes "OK" ∷ []) (h.whole, (ok-IsLine, tt)),
          to_send-answer a r shows,
          leaves r shows,
        ),
      )
