-- ===== src/Nrf/Hardware/Bg77.antt =====
-- `Bg77` of nrf52840/src/bg77_hw.rs: the modem behind an `AtUart` and a pin that turns it on. The
-- far end gives, besides the bytes, the pin and the timer.
use yaroc.Prelude.{ℕ, Bool, true, false, Option, none, List}
use yaroc.Prelude.Result.{ok, err, panic}
use yaroc.Prelude.Exec.{Exec, with_error, modify, pure, ◌>>◌}
use yaroc.Prelude.Text.{Text, codes}
use yaroc.Error.{Error as CommonError}
use yaroc.Nrf.Error.{Error, from_common}
use yaroc.Nrf.Hardware.{ModemHw}
use yaroc.At.Types.{AtResponse, FromModem}
use yaroc.At.Uart.Broker.{Message}
use yaroc.At.Uart.Calls.{AtUart}
use yaroc.At.Uart.Calls as Uart

abbrev pub bg77_minimum_timeout : ℕ
bg77_minimum_timeout = 300

-- `if m.is_err() { k }`.
abbrev if_err : {S A : Type 0} → Exec S Error A → Exec S Error (Unit {0}) → Exec S Error (Unit {0})
if_err m k s = elim (m s).0 [
  | ok _ ↦ (ok tt, (m s).1)
  | err _ ↦ k (m s).1
  | panic ↦ (panic, (m s).1)
]

module _ {W : Type 0} (send : Text → W → Bool × W) (arrivals : ℕ → W → List Message × W)
    (set_pin : Bool → W → W) (after : ℕ → W → W) where
  abbrev on_wire : (W → W) → Exec (AtUart W) Error (Unit {0})
  on_wire f = modify λ s. record s { wire = f s.wire }

  pub simple_call_at : Text → Option ℕ → Exec (AtUart W) Error AtResponse
  simple_call_at cmd response_timeout =
      with_error from_common (Uart.call_at send arrivals cmd bg77_minimum_timeout response_timeout)

  pub call_at : Text → ℕ → Exec (AtUart W) CommonError AtResponse
  call_at cmd timeout = Uart.call_at send arrivals cmd timeout none

  pub call : Text → Exec (AtUart W) CommonError (List FromModem)
  call msg = Uart.call send arrivals msg bg77_minimum_timeout

  -- The pulse on the pin, and what is read and set up behind it.
  pub start_modem : Exec (AtUart W) Error (Unit {0})
  start_modem = do
    on_wire (set_pin false)
    on_wire (after 1000)
    on_wire (set_pin true)
    on_wire (after 2000)
    on_wire (set_pin false)
    with_error from_common (Uart.read send arrivals 5000)
    with_error from_common (call_at (codes "+CFUN=1,0") 15_000)
    with_error from_common (Uart.read send arrivals 5000)
    pure tt

  pub turn_on : Exec (AtUart W) Error (Unit {0})
  turn_on = if_err (simple_call_at (codes "") none) start_modem

  -- The modem as the clients see it.
  pub bg77 : ModemHw (AtUart W)
  bg77 = record {
    simple_call_at = simple_call_at;
    call_at = call_at;
    call = call;
    turn_on = turn_on;
  }
