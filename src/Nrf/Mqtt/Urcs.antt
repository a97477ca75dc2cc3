-- ===== src/Nrf/Mqtt/Urcs.antt =====
-- `urc_handler` and `qmtpub_handler` of nrf52840/src/mqtt.rs: what the firmware does with a code
-- that the modem sends by itself. The signals of the messages and the channel of the events are the
-- state; a `signal` overwrites one that was not awaited.
pub mod Signals
use yaroc.Prelude.{
  ℕ, zero, suc, ◌+◌, Bool, true, false, ◌||◌, Option, none, some, List, [], ◌∷◌, ◌++◌,
}
use yaroc.Prelude.{length, get_elem?, ltb, ◌==◌, if◌then◌else◌}
use yaroc.Prelude.Result.{Result, ok, err, panic, unwrap, ◌>>=◌}
use yaroc.Prelude.Text.{Text, codes, text_eq}
use yaroc.Error.{Error}
use yaroc.At.Types.{CommandResponse}
use yaroc.At.Values.{command, parse_values}
use yaroc.Nrf.Mqtt.{mqtt_messages, parse_u8}

-- `Command` of nrf52840/src/send_punch.rs; an instant is its milliseconds.
pub data Command : Type 0 where
  synchronize_time : ℕ → Command
  mqtt_connect : Bool → ℕ → Command

pub record UrcState : Type 0 where
  -- `MQTT_URCS`: the result and the retries of each message, where they came in.
  pub signals : List (Option (ℕ × ℕ))
  -- `EVENT_CHANNEL`.
  pub events : List Command

abbrev pub channel_size : ℕ
channel_size = 10

-- `EVENT_CHANNEL.try_send`, whose failure is only logged.
pub try_send : Command → UrcState → UrcState
try_send message s =
    if ltb (length s.events) channel_size then record s { events = s.events ++ message ∷ [] } else s

abbrev pub set_signal : List (Option (ℕ × ℕ)) → ℕ → ℕ × ℕ → List (Option (ℕ × ℕ))
set_signal [] idx value = []
set_signal (signal ∷ signals) zero value = some value ∷ signals
set_signal (signal ∷ signals) (suc idx) value = signal ∷ set_signal signals idx value

-- `values.get(3).unwrap_or(&0)`.
abbrev or_zero : Option ℕ → ℕ
or_zero none = 0
or_zero (some n) = n

-- What `qmtpub_handler` does with the parsed values.
pub qmtpub_values : List ℕ → UrcState → Result Error (Bool × UrcState)
qmtpub_values values s = do
  client ← unwrap (get_elem? values 0)
  (if client == 0
      then (do
        idx ← unwrap (get_elem? values 1)
        (if ltb idx (length s.signals)
            then (do
              result ← unwrap (get_elem? values 2)
              ok (
                true,
                record s {
                  signals = set_signal s.signals idx (result, or_zero (get_elem? values 3));
                },
              ))
            else ok (true, s)))
      else ok (false, s))

-- The `match` on what the values parse to.
pub qmtpub_parsed : Result Error (List ℕ) → UrcState → Result Error (Bool × UrcState)
qmtpub_parsed (ok values) s = qmtpub_values values s
qmtpub_parsed (err e) s = ok (false, s)
qmtpub_parsed panic s = panic

pub qmtpub_handler : CommandResponse → UrcState → Result Error (Bool × UrcState)
qmtpub_handler response s = qmtpub_parsed (parse_values parse_u8 response) s

-- The handler, at a time.
pub urc_handler : ℕ → CommandResponse → UrcState → Result Error (Bool × UrcState)
urc_handler now response s = do
  name ← command response
  (if text_eq name (codes "QMTSTAT") || text_eq name (codes "QIURC")
      then ok (true, try_send (mqtt_connect true now) s)
      else if text_eq name (codes "QMTPUB")
      then qmtpub_handler response s
      else ok (false, s))
