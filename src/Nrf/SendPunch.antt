-- ===== src/Nrf/SendPunch.antt =====
-- `SendPunch` of nrf52840/src/send_punch.rs: the firmware's tasks. What femtopb makes of a
-- message is an argument, the bytes of its encoding.
pub mod Reconnect
pub mod Rounds
pub mod Tests
use yaroc.Prelude.{
  ℕ, ◌+◌, Bool, true, false, ◌&&◌, not, Option, none, some, List, [], ◌∷◌, ◌++◌, length, ltb,
  if◌then◌else◌,
}
use yaroc.Prelude.Result.{Result, ok, err, panic}
use yaroc.Prelude.Exec.{Exec, pure, fail, gets, modify, convert, ◌>>=◌, ◌>>◌}
use yaroc.Prelude.Text.{Text, codes}
use yaroc.Nrf.Error.{Error, from_common, buffer_too_small_error, modem_error}
use yaroc.Nrf.Hardware.{ModemHw, Platform}
use yaroc.Status.{Times, MiniCallHome, MiniCallHomeProto, to_proto}
use yaroc.Chrono.{Chrono}
use yaroc.Punch.{SiPunch}
use yaroc.At.Types.{AtResponse}
use yaroc.Nrf.Mqtt.{MqttClient, MqttConfig, Node, activation_timeout}
use yaroc.Nrf.Mqtt as Mqtt
use yaroc.Nrf.Mqtt.Urcs.{Command, channel_size}
use yaroc.Nrf.Mqtt.Sending as Sending
use yaroc.Nrf.SystemInfo.{SystemInfo, Sys}
use yaroc.Nrf.SystemInfo as SystemInfos

-- `MCH_SIGNAL`, which keeps one time, and `EVENT_CHANNEL`.
pub record Signals : Type 0 where
  pub call_home : Option ℕ
  pub events : List Command

-- A round of the loop of `send_punch_main_loop` at a time, when the first ticker is due, or the second.
-- It is none while the channel has no room, since `send` waits for it.
pub main_loop_round : Bool → ℕ → Signals → Option Signals
main_loop_round true now signals = some (record signals { call_home = some now })
main_loop_round false now signals =
    if ltb (length signals.events) channel_size
    then some (record signals { events = signals.events ++ Command.synchronize_time now ∷ [] })
    else none

module _ (times : Times) where
  -- The client and the system info, and the device below them.
  pub record SendPunch (S : Type 0) : Type 0 where
    pub client : MqttClient
    pub system_info : SystemInfo times
    pub device : S

  -- `SendPunch::new`, at a time.
  pub new : {S : Type 0} → MqttConfig → ℕ → S → SendPunch S
  new config now device = record {
    client = Mqtt.new config now;
    system_info = record { boot_time = none };
    device = device;
  }

  module _ {S F : Type 0} (hw : ModemHw S) (platform : Platform S) (cpu_temperature : S → F × S)
      (zero_f : F) (encode_status : MiniCallHomeProto times F → Text)
      (encode_punches : List (List ℕ) → Text) where
    -- The operations of the parts, in the whole.
    abbrev pub on_client : {A : Type 0} → Exec (Node S) Error A → Exec (SendPunch S) Error A
    on_client m self =
        let (r, node) = m (record { client = self.client; device = self.device }) in
        (r, record self { client = node.client; device = node.device })

    abbrev pub on_info : {A : Type 0} → Exec (Sys times S) Error A → Exec (SendPunch S) Error A
    on_info m self =
        let (r, sys) = m (record { info = self.system_info; device = self.device }) in
        (r, record self { system_info = sys.info; device = sys.device })

    abbrev pub simple_call_at : Text → Exec (SendPunch S) Error AtResponse
    simple_call_at cmd = on_client (Mqtt.simple_call_at hw platform cmd none)

    pub config : Exec (SendPunch S) Error (Unit {0})
    config = do
      simple_call_at (codes "E0")
      simple_call_at (codes "+CEREG=2")
      on_client (Mqtt.call_at hw platform (codes "+CGATT=1") activation_timeout)
      simple_call_at (codes "+QCFG=\"nwscanseq\",03")
      simple_call_at (codes "+QCFG=\"iotopmode\",1,1")
      simple_call_at (codes "+QCFG=\"band\",0,0,80000")
      pure tt

    -- `if res.is_err() { EVENT_CHANNEL.send(…) }`.
    abbrev pub reported :
        Result Error (Unit {0}) × SendPunch S → Result Error (Unit {0}) × SendPunch S
    reported (ok a, self) = (ok a, self)
    reported (err e, self) = (err e, record self { device = platform.send_reconnect self.device })
    reported (panic, self) = (panic, self)

    -- A message that does not fit the `capacity` bytes of the buffer cannot be encoded.
    pub send_message : ℕ → ℕ → Text → Text → ℕ → Exec (SendPunch S) Error (Unit {0})
    send_message fuel capacity topic msg qos self =
        if ltb capacity (length msg)
        then (err buffer_too_small_error, self)
        else reported (on_client (Sending.send_message hw platform fuel topic msg qos) self)

    abbrev pub ok_or_modem : {A : Type 0} → Option A → Exec (SendPunch S) Error A
    ok_or_modem none = fail modem_error
    ok_or_modem (some a) = pure a

    pub send_mini_call_home : ℕ → Exec (SendPunch S) Error (Unit {0})
    send_mini_call_home fuel = do
      found ← on_info (SystemInfos.mini_call_home times hw platform cpu_temperature)
      report ← ok_or_modem found
      send_message fuel 250 (codes "status") (encode_status (to_proto times F zero_f report)) 0

    pub send_punch : ℕ → {chrono : Chrono} → SiPunch chrono → Exec (SendPunch S) Error (Unit {0})
    send_punch fuel punch = send_message fuel 40 (codes "p") (encode_punches (punch.raw ∷ [])) 1

    abbrev pub ignore :
        {A : Type 0} → Exec (SendPunch S) Error A → Exec (SendPunch S) Error (Unit {0})
    ignore m self = elim (m self).0 [
      | ok _ ↦ (ok tt, (m self).1)
      | err _ ↦ (ok tt, (m self).1)
      | panic ↦ (panic, (m self).1)
    ]

    pub mqtt_connect : Exec (SendPunch S) Error (Unit {0})
    mqtt_connect = on_client (Mqtt.mqtt_connect hw platform)

    pub setup : Exec (SendPunch S) Error (Unit {0})
    setup = do
      ignore (on_client (Mqtt.on_device hw platform hw.turn_on))
      config
      ignore mqtt_connect

    -- What `send_punch_main_loop` does before its loop: an error is only logged.
    pub start_main_loop : Exec (SendPunch S) Error (Unit {0})
    start_main_loop = ignore setup

    pub synchronize_time : Exec (SendPunch S) Error (Option times.Time)
    synchronize_time = on_info (SystemInfos.current_time times hw platform cpu_temperature false)

    -- What the event handler waits for: the signal of a mini call home, a command, a punch.
    pub data Event (chrono : Chrono) : Type 1 where
      call_home : Event chrono
      command : Command → Event chrono
      punched : Result Error (SiPunch chrono) → Event chrono

    pub record Handler : Type 0 where
      pub send_punch : SendPunch S
      pub last_reconnect : Option ℕ

    abbrev pub on_send_punch :
        {A : Type 0} → Exec (SendPunch S) Error A → Exec Handler Error (Unit {0})
    on_send_punch m handler =
        let (r, self) = ignore m handler.send_punch in (r, record handler { send_punch = self })

    -- `last_reconnect.map(|t| t + 60 s > Instant::now()) == Some(true)`.
    abbrev pub is_recent : Option ℕ → ℕ → Bool
    is_recent none now = false
    is_recent (some t) now = ltb now (t + 60_000)

    pub handle_connect : Bool → Exec Handler Error (Unit {0})
    handle_connect force handler =
        if not force && is_recent handler.last_reconnect (platform.now handler.send_punch.device)
        then (ok tt, handler)
        else (on_send_punch mqtt_connect
              >> (modify
                  λ h. record h { last_reconnect = some (platform.now h.send_punch.device) }))
            handler

    -- One round of `send_punch_event_handler`: an error is only logged.
    pub handle : ℕ → {chrono : Chrono} → Event chrono → Exec Handler Error (Unit {0})
    handle fuel call_home = on_send_punch (send_mini_call_home fuel)
    handle fuel (command (Command.mqtt_connect force time)) = handle_connect force
    handle fuel (command (Command.synchronize_time time)) = on_send_punch synchronize_time
    handle fuel (punched (ok punch)) = on_send_punch (send_punch fuel punch)
    handle fuel (punched (err e)) = pure tt
    handle fuel (punched panic) = λ handler. (panic, handler)

    pub handle_all : ℕ → {chrono : Chrono} → List (Event chrono) → Exec Handler Error (Unit {0})
    handle_all fuel [] = pure tt
    handle_all fuel (event ∷ events) =
        let rest = handle_all fuel events in handle fuel event >> rest
