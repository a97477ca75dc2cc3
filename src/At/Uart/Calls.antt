-- ===== src/At/Uart/Calls.antt =====
-- `AtUart` of common/src/at/uart.rs: a command is written to the modem, and its lines are read from
-- the main channel. What stands at the far end is an argument: `send`, the `Tx` trait, and
-- `arrivals`, the messages that come into the channel before a read's deadline. A message that a
-- read leaves is there for the next.
pub mod Reads
pub mod Replies
pub mod Tests
use yaroc.Prelude.{ℕ, zero, suc, ◌+◌, Bool, true, false, Option, none, some, List, [], ◌∷◌, ◌++◌}
use yaroc.Prelude.{length, last?, ltb, if◌then◌else◌}
use yaroc.Prelude.Result.{Result, ok, err, panic}
use yaroc.Prelude.Exec.{Exec, pure, fail, lift, ◌>>=◌, ◌>>◌}
use yaroc.Prelude.Text.{Text, codes}
use yaroc.Error.{Error, buffer_too_small_error, format_error, modem_error, timeout_error}
use yaroc.Error.{uart_write_error, at_error_response}
use yaroc.At.Types.{FromModem, AtResponse, terminal, at_lines, at_command_size}
use yaroc.At.Response
use yaroc.At.Uart.Broker.{Message}

-- The loop of `read` over the messages that come in time: the lines so far, then what is left in
-- the channel. With no message the deadline passes.
pub read_loop : List FromModem → List Message → Result Error (List FromModem) × List Message
read_loop res [] = (err timeout_error, [])
read_loop res (err e ∷ queue) = (err e, queue)
read_loop res (panic ∷ queue) = (panic, queue)
read_loop res (ok from_modem ∷ queue) =
    let more = read_loop (res ++ from_modem ∷ []) queue in
    if ltb (length res) at_lines
    then (if terminal from_modem then (ok (res ++ from_modem ∷ []), queue) else more)
    else (err buffer_too_small_error, queue)

-- The `match` of `call_at_impl` on the last line.
pub checked_lines : List FromModem → Result Error (List FromModem)
checked_lines lines = elim (last? lines) [
  | some FromModem.ok ↦ ok lines
  | some FromModem.error ↦ err at_error_response
  | _ ↦ err modem_error
]

pub record AtUart (W : Type 0) : Type 0 where
  pub channel : List Message
  pub wire : W

-- `lines.extend(more)`, which panics where the vector is full.
pub extended : List FromModem → List FromModem → Result Error (List FromModem)
extended lines more = if ltb at_lines (length (lines ++ more)) then panic else ok (lines ++ more)

module _ {W : Type 0} (send : Text → W → Bool × W) (arrivals : ℕ → W → List Message × W) where
  pub read : ℕ → Exec (AtUart W) Error (List FromModem)
  read timeout s =
      let (new, wire) = arrivals timeout s.wire in
      let (result, left) = read_loop [] (s.channel ++ new) in
      (result, record { channel = left; wire = wire })

  pub write : Text → Exec (AtUart W) Error (Unit {0})
  write message s =
      let (sent, wire) = send message s.wire in
      (if sent then ok tt else err uart_write_error, record s { wire = wire })

  -- `AT{command}\r` in a `String` of 90 bytes.
  pub write_at : Text → Exec (AtUart W) Error (Unit {0})
  write_at command =
      let text = codes "AT" ++ command ++ 13 ∷ [] in
      if ltb at_command_size (length text) then fail format_error else write text

  pub call : Text → ℕ → Exec (AtUart W) Error (List FromModem)
  call msg timeout = do write msg; read timeout

  pub call_at_impl : Text → ℕ → Exec (AtUart W) Error (List FromModem)
  call_at_impl command timeout = do
    write_at command
    lines ← read timeout
    lift (checked_lines lines)

  -- The lines of the second read, if there is one.
  pub with_response : Option ℕ → List FromModem → Exec (AtUart W) Error (List FromModem)
  with_response none lines = pure lines
  with_response (some timeout) lines = do more ← read timeout; lift (extended lines more)

  pub call_at : Text → ℕ → Option ℕ → Exec (AtUart W) Error AtResponse
  call_at command call_timeout response_timeout = do
    first ← call_at_impl command call_timeout
    lines ← with_response response_timeout first
    lift (Response.new lines command)
