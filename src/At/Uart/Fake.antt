-- ===== src/At/Uart/Fake.antt =====
-- The two ends of common/src/at/uart.rs that stand for a modem, `FakeTx` and `FakeRxWithIdle`: what is
-- written goes to a channel of commands, and the broker reads from the script of the fake the response
-- to each. A channel is the list of what is in it; a send that waits for room comes in its turn.
pub mod Scripts
pub mod Tests
use yaroc.Prelude.{ℕ, Bool, true, false, List, [], ◌∷◌, ◌++◌, length, ltb, if◌then◌else◌}
use yaroc.Prelude.Result.{Result, ok, err, panic}
use yaroc.Prelude.Text.{Text, text_eq}
use yaroc.Error.{Error, timeout_error}
use yaroc.At.Types.{CommandResponse, at_command_size}
use yaroc.At.Uart.Broker.{Message, failed, received, broker_round}

-- `FakeRxWithIdle`, its channel of commands, and the state of the handler of URCs.
pub record Fake (S : Type 0) : Type 0 where
  pub responses : List (Text × Text)
  pub commands : List Text
  pub handler : S

abbrev at_buf_size : ℕ
at_buf_size = 300

-- `FakeTx::write`: the text is sent if it fits a `String`.
pub write : {S : Type 0} → Text → Fake S → Bool × Fake S
write buffer fake =
    if ltb at_command_size (length buffer)
    then (false, fake)
    else (true, record fake { commands = fake.commands ++ buffer ∷ [] })

-- `FakeRxWithIdle::read_until_idle` on the command that comes: the response and the rest of the script.
-- It panics if another command is next, or if the response does not fit the buffer.
pub read_until_idle : Text → List (Text × Text) → Result Error Text × List (Text × Text)
read_until_idle recv_command [] = (err timeout_error, [])
read_until_idle recv_command ((command, response) ∷ rest) =
    if text_eq command recv_command
    then (if ltb at_buf_size (length response) then panic else ok response, rest)
    else (panic, (command, response) ∷ rest)

module _ {S : Type 0} (urc_handler : CommandResponse → S → Result Error (Bool × S)) where
  -- A round of the broker on what was read; after a panic the channel ends in it.
  abbrev pub sent_by : Result Error (List Message × S) → S → List Message × S
  sent_by (ok done) s = done
  sent_by _ s = (panic ∷ [], s)

  abbrev pub round : Result Error Text → S → List Message × S
  round (ok bytes) s = sent_by (broker_round urc_handler (λ _. true) (received bytes) s) s
  round (err e) s = sent_by (broker_round urc_handler (λ _. true) (failed e) s) s
  round panic s = (panic ∷ [], s)

  -- The task `reader`, on the commands in the channel.
  pub reader : List Text → List (Text × Text) → S → List Message × List (Text × Text) × S
  reader [] responses s = ([], responses, s)
  reader (command ∷ commands) responses s =
      let got = read_until_idle command responses in
      let first = round got.0 s in
      let later = reader commands got.1 first.1 in (first.0 ++ later.0, later.1, later.2)

  -- What comes into the main channel: the fake answers at once.
  pub arrivals : ℕ → Fake S → List Message × Fake S
  arrivals timeout fake =
      let done = reader fake.commands fake.responses fake.handler in
      (done.0, record { responses = done.1; commands = []; handler = done.2 })
