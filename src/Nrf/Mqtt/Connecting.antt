-- ===== src/Nrf/Mqtt/Connecting.antt =====
-- The methods of `MqttClient` of nrf52840/src/mqtt.rs that connect and disconnect: what they do to
-- the client, whatever the modem answers.
use yaroc.Prelude.{ℕ, ◌+◌, ◌*◌, ◌≡◌, refl, arith, ltb, if◌then◌else◌}
use yaroc.Prelude.Result.{Result, ok, err, panic}
use yaroc.Prelude.Text.{Text}
use yaroc.Error.{Error as CommonError}
use yaroc.Nrf.Hardware.{ModemHw, Platform}
use yaroc.Nrf.Mqtt.{Node, MqttConfig, MqttClient, rejoin, activate, network_registration}
use yaroc.Nrf.Mqtt.{open_connection, reopen, mqtt_open, start_session, by_status, mqtt_connect}
use yaroc.Nrf.Mqtt.{mqtt_disconnect}

-- The client at the start of a registration: after more than 450 s in which nothing was sent, the
-- time of the last successful send is set to now.
abbrev pub touched : {S : Type 0} → Platform S → Node S → MqttClient
touched platform node =
    let client = node.client in
    let time = platform.now node.device in
    if ltb (client.last_successful_send + 150_000 * 3) time
    then record client { last_successful_send = time }
    else client

module _ {S : Type 0} (hw : ModemHw S) (platform : Platform S) where
  registration_touches :
      (node : Node S) → (network_registration hw platform node).1.client ≡ touched platform node
  unfolding network_registration activate rejoin
  registration_touches node = ground arith

  open_keeps :
      (config : MqttConfig) (cid : ℕ) (node : Node S)
      → (open_connection hw platform config cid node).1.client ≡ node.client
  unfolding open_connection
  open_keeps config cid node = ground arith

  reopen_keeps :
      (config : MqttConfig) (cid : ℕ) (found : Result CommonError (ℕ × Text)) (node : Node S)
      → (reopen hw platform config cid found node).1.client ≡ node.client
  unfolding reopen open_connection
  reopen_keeps config cid (ok (id, url)) node = ground arith
  reopen_keeps config cid (err e) node = open_keeps config cid node
  reopen_keeps config cid panic node = refl

  mqtt_open_keeps :
      (cid : ℕ) (node : Node S) → (mqtt_open hw platform cid node).1.client ≡ node.client
  unfolding mqtt_open
  mqtt_open_keeps cid node = grind (arith, reopen_keeps)

  by_status_keeps :
      (config : MqttConfig) (cid status : ℕ) (node : Node S)
      → (by_status hw platform config cid status node).1.client ≡ node.client
  unfolding by_status start_session
  by_status_keeps config cid status node = ground arith

  -- Connecting and disconnecting leave the client's configuration and its message identifier as
  -- they are, whatever the modem answers and wherever they fail. Disconnecting leaves all of the
  -- client. Connecting changes the time of the last successful send, to now, exactly if that is
  -- more than 450 s ago.
  pub mqtt_connect_client :
      (node : Node S)
      → ((mqtt_connect hw platform node).1.client ≡ touched platform node)
        × ((cid : ℕ) → (mqtt_disconnect hw platform cid node).1.client ≡ node.client)
  unfolding mqtt_connect mqtt_disconnect
  mqtt_connect_client node =
      (grind (arith, registration_touches, mqtt_open_keeps, by_status_keeps), λ cid. ground arith)
