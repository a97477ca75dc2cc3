-- ===== src/Nrf/Mqtt/Sending.antt =====
-- `send_message` of nrf52840/src/mqtt.rs: a message is published, and the modem's report on it is
-- awaited.
pub mod Reports
pub mod Tests
use yaroc.Prelude.{
  ℕ, zero, suc, ◌+◌, ◌%◌, Bool, Option, none, some, List, ◌++◌, length, ltb, ◌==◌, if◌then◌else◌,
}
use yaroc.Prelude.Numbers.{decimal}
use yaroc.Prelude.Result.{Result, ok, err, panic}
use yaroc.Prelude.Exec.{Exec, pure, fail, lift, gets, modify, convert, ◌>>=◌, ◌>>◌}
use yaroc.Prelude.Text.{Text, codes}
use yaroc.Nrf.Error.{Error, from_common, timeout_error, modem_error}
use yaroc.Nrf.Hardware.{ModemHw, Platform}
use yaroc.At.Types.{FromModem}
use yaroc.Nrf.Mqtt.{Node, MqttClient, formatted, simple_call_at, touch, mqtt_messages}
use yaroc.Nrf.Mqtt.{mqtt_client_id, mqtt_extra_timeout}

-- The identifier of the message that is sent next.
pub next_msg_id : ℕ → MqttClient → ℕ
next_msg_id qos client = if qos == 0 then 0 else client.msg_id + 1

-- `self.msg_id` once the message has its identifier.
pub advance : ℕ → MqttClient → MqttClient
advance qos client =
    if qos == 1 then record client { msg_id = (client.msg_id + 1) % mqtt_messages } else client

module _ {S : Type 0} (hw : ModemHw S) (platform : Platform S) where
  -- `MQTT_URCS[idx].reset()`, an index out of range panics.
  pub reset : ℕ → Exec (Node S) Error (Unit {0})
  reset idx node =
      if ltb idx (mqtt_messages + 1)
      then (ok tt, record node { device = platform.reset idx node.device })
      else (panic, node)

  -- One wait of the loop, at most for the time.
  pub report : ℕ → ℕ → Exec (Node S) Error (ℕ × ℕ)
  report idx time node =
      let (reported, device) = platform.wait idx time node.device in
      let node' = record node { device = device } in
      elim reported [ none ↦ (err timeout_error, node') | some values ↦ (ok values, node') ]

  -- The loop, with fuel for the reports of tries that failed; `Reports` says how much is enough.
  pub await_report : ℕ → ℕ → ℕ → Exec (Node S) Error (Unit {0})
  await_report zero idx time = fail timeout_error
  await_report (suc fuel) idx time =
      let again = await_report fuel idx time in
      do
        reported ← report idx time
        (if reported.0 == 0
            then pure tt
            else if reported.0 == 1
            then again
            else if reported.0 == 2
            then fail timeout_error
            else fail modem_error)

  pub call : Text → Exec (Node S) Error (List FromModem)
  call msg node =
      let (r, device) = hw.call msg node.device in
      (convert from_common r, record node { device = device })

  pub send_message : ℕ → Text → Text → ℕ → Exec (Node S) Error (Unit {0})
  send_message fuel topic msg qos = do
    client ← gets (λ node. node.client)
    let msg_id = next_msg_id qos client
    reset msg_id
    modify (λ node. record node { client = advance qos node.client })
    cmd ← formatted 100 (
        codes "+QMTPUB="
        ++ decimal mqtt_client_id
        ++ codes ","
        ++ decimal msg_id
        ++ codes ","
        ++ decimal qos
        ++ codes ",0,\"yar/cee423506cac/"
        ++ topic
        ++ codes "\","
        ++ decimal (length msg))
    simple_call_at hw platform cmd none
    call msg
    await_report fuel msg_id (client.config.packet_timeout + mqtt_extra_timeout)
    touch hw platform
