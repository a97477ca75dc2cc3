-- ===== src/Nrf/Hardware.antt =====
-- nrf52840/src/bg77_hw.rs: the trait of the modem, as the operations that the clients call. They
-- act on the whole state of the device, since codes and time come in while one waits.
pub mod Bg77
use yaroc.Prelude.{ℕ, Option, List}
use yaroc.Prelude.Exec.{Exec}
use yaroc.Prelude.Text.{Text}
use yaroc.Error.{Error as CommonError}
use yaroc.Nrf.Error.{Error}
use yaroc.At.Types.{AtResponse, FromModem}

-- Times are milliseconds.
pub record ModemHw (S : Type 0) : Type 0 where
  pub simple_call_at : Text → Option ℕ → Exec S Error AtResponse
  pub call_at : Text → ℕ → Exec S CommonError AtResponse
  pub call : Text → Exec S CommonError (List FromModem)
  pub turn_on : Exec S Error (Unit {0})

-- What the firmware uses of the embassy crates: the clock, the timers, the signals of the URCs and
-- the channel of the events.
pub record Platform (S : Type 0) : Type 0 where
  -- `Instant::now()`.
  pub now : S → ℕ
  -- `Timer::after`.
  pub after : ℕ → S → S
  -- `MQTT_URCS[idx].reset()`.
  pub reset : ℕ → S → S
  -- `MQTT_URCS[idx].wait()` within a time: nothing, if the time passes.
  pub wait : ℕ → ℕ → S → Option (ℕ × ℕ) × S
  -- `EVENT_CHANNEL.send(Command::MqttConnect(false, …))`.
  pub send_reconnect : S → S
