-- ===== src/Nrf/Mqtt.antt =====
-- `MqttClient` of nrf52840/src/mqtt.rs: the client of the MQTT server in the modem. Its methods act
-- on the client and on the device, which they reach by the modem's trait and by embassy.
pub mod Urcs
pub mod Sending
pub mod Connecting
pub mod Leaving
pub mod Tests
use yaroc.Prelude.{
  ℕ, zero, suc, ◌+◌, ◌*◌, ◌/◌, ◌%◌, Bool, true, false, ◌&&◌, Option, none, some, List, ◌++◌, length,
}
use yaroc.Prelude.{ltb, ◌==◌, if◌then◌else◌}
use yaroc.Prelude.Int.{ℤ, pos, negsuc, eq_ℤ}
use yaroc.Prelude.Numbers.{parse_unsigned, parse_signed, parse_text, decimal}
use yaroc.Prelude.Result.{Result, ok, err, panic, try_below}
use yaroc.Prelude.Exec.{Exec, pure, fail, lift, gets, modify, convert, ignored, ◌>>=◌, ◌>>◌}
use yaroc.Prelude.Text.{Text, codes, text_eq}
use yaroc.Error.{Error as CommonError}
use yaroc.Nrf.Error.{Error, from_common, format_error, timeout_error, modem_error, mqtt_error}
use yaroc.Nrf.Hardware.{ModemHw, Platform}
use yaroc.At.Types.{AtResponse, FromModem}
use yaroc.At.Response.{parse2, parse3}

abbrev pub mqtt_messages : ℕ
mqtt_messages = 5

abbrev pub mqtt_client_id : ℕ
mqtt_client_id = 0

abbrev pub mqtt_extra_timeout : ℕ
mqtt_extra_timeout = 300

abbrev pub activation_timeout : ℕ
activation_timeout = 150_000

pub record MqttConfig : Type 0 where
  pub url : Text
  pub packet_timeout : ℕ
  pub apn : Text

-- `MqttConfig::default`.
abbrev pub default_config : MqttConfig
default_config = record {
  url = codes "broker.emqx.io";
  packet_timeout = 35_000;
  apn = codes "trail-nbiot.corp";
}

pub record MqttClient : Type 0 where
  pub config : MqttConfig
  pub msg_id : ℕ
  pub last_successful_send : ℕ

-- `MqttClient::new`, at a time.
pub new : MqttConfig → ℕ → MqttClient
new config now = record { config = config; msg_id = 0; last_successful_send = now }

-- The client and the device that it acts on.
pub record Node (S : Type 0) : Type 0 where
  pub client : MqttClient
  pub device : S

-- `parse::<u8>` and its kin.
abbrev pub parse_u8 : Text → Option ℕ
parse_u8 = parse_unsigned 10 (256)

abbrev pub parse_u32 : Text → Option ℕ
parse_u32 = parse_unsigned 10 4_294_967_296

abbrev pub parse_i8 : Text → Option ℤ
parse_i8 = parse_signed 128

abbrev pub quoted : Text → Text
quoted s = codes "\"" ++ s ++ codes "\""

-- `format!(N; …)?`: a text that does not fit is an error.
abbrev pub formatted : {S : Type 0} → ℕ → Text → Exec S Error Text
formatted capacity s = if ltb capacity (length s) then fail format_error else pure s

module _ {S : Type 0} (hw : ModemHw S) (platform : Platform S) where
  -- An operation of the device, in a method of the client.
  abbrev pub on_device : {E A : Type 0} → Exec S E A → Exec (Node S) E A
  on_device m node = let (r, device) = m node.device in (r, record node { device = device })

  abbrev pub simple_call_at : Text → Option ℕ → Exec (Node S) Error AtResponse
  simple_call_at cmd response_timeout = on_device (hw.simple_call_at cmd response_timeout)

  abbrev pub call_at : Text → ℕ → Exec (Node S) Error AtResponse
  call_at cmd timeout node =
      let (r, device) = hw.call_at cmd timeout node.device in
      (convert from_common r, record node { device = device })

  -- `let _ = …;`
  abbrev pub ignore : {A : Type 0} → Exec (Node S) Error A → Exec (Node S) Error (Unit {0})
  ignore m node = let (r, node') = m node in (ignored r, node')

  abbrev pub sleep : ℕ → Exec (Node S) Error (Unit {0})
  sleep time = modify λ node. record node { device = platform.after time node.device }

  abbrev pub now : Exec (Node S) Error ℕ
  now = gets λ node. platform.now node.device

  -- `self.last_successful_send = Instant::now()`.
  abbrev pub touch : Exec (Node S) Error (Unit {0})
  touch = modify λ node. record node {
    client = record node.client { last_successful_send = platform.now node.device };
  }

  -- The network is left and joined again where nothing was sent for long.
  pub rejoin : Exec (Node S) Error (Unit {0})
  rejoin = do
    touch
    simple_call_at (codes "E0") none
    ignore (call_at (codes "+CGATT=0") activation_timeout)
    sleep 2000
    ignore (call_at (codes "+CGACT=0,1") activation_timeout)
    sleep 2000
    call_at (codes "+CGATT=1") activation_timeout
    pure tt

  pub activate : MqttConfig → Exec (Node S) Error (Unit {0})
  activate config = do
    cmd ← formatted 100 (codes "+CGDCONT=1,\"IP\"," ++ quoted config.apn)
    ignore (simple_call_at cmd none)
    call_at (codes "+CGACT=1,1") activation_timeout
    pure tt

  pub network_registration : Exec (Node S) Error (Unit {0})
  network_registration = do
    client ← gets (λ node. node.client)
    time ← now
    (if ltb (client.last_successful_send + activation_timeout * 3) time then rejoin else pure tt)
    answer ← simple_call_at (codes "+CGACT?") none
    found ← lift (convert from_common (parse2 parse_u8 ◌==◌ parse_u8 answer (0, 1) (some 1)))
    (if found.1 == 0 then activate client.config else pure tt)

  -- The configuration and the opening of the TCP connection.
  pub open_connection : MqttConfig → ℕ → Exec (Node S) Error (Unit {0})
  open_connection config cid = do
    cmd1 ← formatted 50 (
        codes "+QMTCFG=\"timeout\","
        ++ decimal cid
        ++ codes ","
        ++ decimal (config.packet_timeout / 1000)
        ++ codes ",2,1")
    simple_call_at cmd1 none
    cmd2 ← formatted 50 (
        codes "+QMTCFG=\"keepalive\","
        ++ decimal cid
        ++ codes ","
        ++ decimal (config.packet_timeout * 3 / 1000))
    simple_call_at cmd2 none
    cmd3 ←
        formatted 100
          (codes "+QMTOPEN=" ++ decimal cid ++ codes "," ++ quoted config.url ++ codes ",1883")
    answer ← simple_call_at cmd3 (some activation_timeout)
    status ← lift (convert from_common (parse2 parse_u8 ◌==◌ parse_i8 answer (0, 1) (some cid)))
    (if eq_ℤ status.1 (pos 0) then pure tt else fail (mqtt_error status.1))

  -- What `mqtt_open` does with the connection that is there, if there is one.
  pub reopen : MqttConfig → ℕ → Result CommonError (ℕ × Text) → Exec (Node S) Error (Unit {0})
  reopen config cid (ok (id, url)) =
      if id == mqtt_client_id
      then (if text_eq url config.url then pure tt else do
        cmd ← formatted 50 (codes "+QMTCLOSE=" ++ decimal cid)
        simple_call_at cmd (some activation_timeout)
        open_connection config cid)
      else open_connection config cid
  reopen config cid (err e) = open_connection config cid
  reopen config cid panic = lift panic

  pub mqtt_open : ℕ → Exec (Node S) Error (Unit {0})
  mqtt_open cid = do
    config ← gets (λ node. node.client.config)
    answer ← simple_call_at (codes "+QMTOPEN?") none
    reopen config cid (parse2 parse_u8 ◌==◌ (parse_text 40) answer (0, 1) (some cid))

  pub start_session : MqttConfig → ℕ → Exec (Node S) Error (Unit {0})
  start_session config cid = do
    cmd ← formatted 50 (codes "+QMTCONN=" ++ decimal cid ++ codes ",\"nrf52840\"")
    answer ← simple_call_at cmd (some (config.packet_timeout + mqtt_extra_timeout))
    found ←
        lift (
          convert from_common (parse3 parse_u8 ◌==◌ parse_u32 parse_i8 answer (0, 1, 2) (some cid)))
    (if (found.1 == 0) && eq_ℤ found.2 (pos 0) then pure tt else fail (mqtt_error found.2))

  -- The `match` on the status of the session.
  pub by_status : MqttConfig → ℕ → ℕ → Exec (Node S) Error (Unit {0})
  by_status config cid status =
      if status == 3
      then pure tt
      else if status == 4
      then pure tt
      else if status == 2
      then pure tt
      else if status == 1
      then start_session config cid
      else fail modem_error

  pub mqtt_connect : Exec (Node S) Error (Unit {0})
  mqtt_connect = do
    network_registration
    mqtt_open mqtt_client_id
    config ← gets (λ node. node.client.config)
    answer ← simple_call_at (codes "+QMTCONN?") none
    found ←
        lift
          (convert from_common (parse2 parse_u8 ◌==◌ parse_u8 answer (0, 1) (some mqtt_client_id)))
    by_status config mqtt_client_id found.1

  pub mqtt_disconnect : ℕ → Exec (Node S) Error (Unit {0})
  mqtt_disconnect cid = do
    config ← gets (λ node. node.client.config)
    cmd1 ← formatted 50 (codes "+QMTDISC=" ++ decimal cid)
    answer ← simple_call_at cmd1 (some (config.packet_timeout + mqtt_extra_timeout))
    result ← lift (convert from_common (parse2 parse_u8 ◌==◌ parse_i8 answer (0, 1) (some cid)))
    (if eq_ℤ result.1 (pos 0)
        then (do
          cmd2 ← formatted 50 (codes "+QMTCLOSE=" ++ decimal cid)
          ignore (simple_call_at cmd2 none))
        else fail (mqtt_error result.1))
