-- ===== src/Nrf/Tests.antt =====
-- The theorems on the firmware at a concrete device: one whose state counts the reports that are to
-- come, and is its clock as well.
use yaroc.Prelude.{ℕ, zero, suc, ◌%◌, ◌≤◌, ◌<◌, ◌≡◌, ◌≢◌, ◌↔◌, ◌⊎◌, arith, true}
use yaroc.Prelude.{Option, none, some, [], ◌∷◌}
use yaroc.Prelude.Result.{ok, err}
use yaroc.Prelude.Text.{codes}
use yaroc.Error as Common
use yaroc.Nrf.Error.{timeout_error}
use yaroc.Nrf.Hardware.{ModemHw, Platform}
use yaroc.At.Types.{FromModem}
use yaroc.At.Values.Tests.{report, report_command, report_values}
use yaroc.Nrf.Mqtt.{MqttClient, Node, default_config, mqtt_connect, mqtt_disconnect}
use yaroc.Nrf.Mqtt.Connecting.{touched}
use yaroc.Nrf.Mqtt.Leaving.{leaves, Counts, LeftBy, mqtt_connect_leaves}
use yaroc.Prelude.{refl, if◌then◌else◌}
use yaroc.Nrf.Mqtt.Sending.{next_msg_id, advance, reset, await_report, send_message}
use yaroc.Nrf.Mqtt.Sending.Reports.{
  advanced, msg_id_iff, Ends, await_report-Ends, send_message_client,
}
use yaroc.Nrf.Mqtt.Urcs.{UrcState, urc_handler}
use yaroc.Nrf.Mqtt.Urcs.Signals.{HasSignal, urc_handler-report}

abbrev pub modem : ModemHw ℕ
modem = record {
  simple_call_at = λ cmd timeout s. (ok (record { lines = FromModem.ok ∷ []; command = cmd }), s);
  call_at = λ cmd timeout s. (ok (record { lines = FromModem.ok ∷ []; command = cmd }), s);
  call = λ msg s. (ok (FromModem.ok ∷ []), s);
  turn_on = λ s. (ok tt, s);
}

-- A modem that does not answer.
abbrev pub silent : ModemHw ℕ
silent = record {
  simple_call_at = λ cmd timeout s. (err timeout_error, s);
  call_at = λ cmd timeout s. (err Common.timeout_error, s);
  call = λ msg s. (err Common.timeout_error, s);
  turn_on = λ s. (err timeout_error, s);
}

-- The reports but the last are of tries that failed.
abbrev pub waited : ℕ → Option (ℕ × ℕ) × ℕ
waited zero = (none, zero)
waited (suc zero) = (some (0, 0), zero)
waited (suc (suc n)) = (some (1, 0), suc n)

abbrev pub board : Platform ℕ
board = record {
  now = λ s. s;
  after = λ time s. s;
  reset = λ idx s. s;
  wait = λ idx time s. waited s;
  send_reconnect = λ s. s;
}

abbrev pub client : MqttClient
client = record { config = default_config; msg_id = 4; last_successful_send = 0 }

abbrev pub node : Node ℕ
node = record { client = client; device = 3 }

-- A modem that answers, and counts the commands that leave the network; it is late.
abbrev leaving : ModemHw ℕ
leaving = record modem {
  simple_call_at = λ cmd timeout s.
      (ok (record { lines = FromModem.ok ∷ []; command = cmd }), if leaves cmd then suc s else s);
  call_at = λ cmd timeout s.
      (ok (record { lines = FromModem.ok ∷ []; command = cmd }), if leaves cmd then suc s else s);
}

abbrev late : Platform ℕ
late = record board { now = λ s. 500_000 }

counting : Counts leaving late (λ s. s)
counting = record {
  simple_counts = λ cmd timeout s. refl;
  call_counts = λ cmd timeout s. refl;
  after_keeps = λ time s. refl;
}

mqtt_connect_leaves_example :
    ((mqtt_connect leaving late node).1.client ≡ touched late node)
    × LeftBy leaving late (λ s. s) counting node (mqtt_connect leaving late node).1.device
    × ((cid : ℕ)
        → ((mqtt_disconnect leaving late cid node).1.client ≡ client)
          × ((mqtt_disconnect leaving late cid node).1.device ≡ 3))
mqtt_connect_leaves_example = mqtt_connect_leaves leaving late (λ s. s) counting node

msg_id_iff_example :
    ((next_msg_id 1 (advanced 0 client) ≡ next_msg_id 1 (advanced 5 client)) ↔ (0 % 5 ≡ 5 % 5))
    × (0 < next_msg_id 1 (advanced 0 client))
    × (next_msg_id 1 (advanced 0 client) ≤ 5)
    × (next_msg_id 0 (advanced 0 client) ≡ 0)
msg_id_iff_example = msg_id_iff client 0 5 (omega arith)

fewer : (s t : ℕ) (value : ℕ × ℕ) → waited s ≡ (some value, t) → t < s
fewer zero t value e = absurd (cc (e))
fewer (suc zero) t value e = let same : zero ≡ t = cc (e) in omega arith
fewer (suc (suc n)) t value e = let same : suc n ≡ t = cc (e) in omega arith

await_report-Ends_example :
    Ends modem board 1 35_300 node (await_report modem board 4 1 35_300 node)
await_report-Ends_example =
    await_report-Ends modem board 1 35_300 4 (λ s. s) node fewer (omega arith)

send_message_client_example :
    let done = send_message modem board 4 (codes "p") (codes "m") 1 node in
    ((reset modem board (next_msg_id 1 client) node).0 ≡ ok tt)
    × (done.1.client.msg_id ≡ (advance 1 client).msg_id)
    × (done.1.client.msg_id < 5)
    × (done.1.client.config ≡ default_config)
    × (((done.0 ≡ ok tt) × (done.1.client.last_successful_send ≡ done.1.device))
        ⊎ ((done.0 ≢ ok tt) × (done.1.client.last_successful_send ≡ 0)))
send_message_client_example =
    send_message_client modem board 4 (codes "p") (codes "m") 1 node (omega arith)

abbrev signals : UrcState
signals = record { signals = none ∷ none ∷ []; events = [] }

urc_handler-report_example :
    (after : UrcState) × (urc_handler 0 report signals ≡ ok (true, after))
    × HasSignal 1 (0, 2) (none ∷ none ∷ []) after.signals
    × (after.events ≡ [])
urc_handler-report_example =
    urc_handler-report 0 report signals report_command 1 0 (2 ∷ []) report_values (omega arith)

abbrev pub temperature : ℕ → ℕ × ℕ
temperature s = (20, s)
