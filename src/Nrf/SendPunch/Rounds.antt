-- ===== src/Nrf/SendPunch/Rounds.antt =====
-- Any rounds of `send_punch_event_handler` of nrf52840/src/send_punch.rs: no error ends them, and what
-- they leave of the client.
use yaroc.Prelude.{ℕ, ◌<◌, ◌≡◌, refl, ◌∙◌, arith, Bool, false}
use yaroc.Prelude.{List, [], ◌∷◌, length, ltb, Bool-cases, inl, inr}
use yaroc.Prelude.Exec.{Exec, is_err, continue}
use yaroc.Prelude.Result.{Result, ok, err, panic}
use yaroc.Prelude.Text.{Text, codes}
use yaroc.Chrono.{Chrono}
use yaroc.Nrf.Error.{Error}
use yaroc.Nrf.Hardware.{ModemHw, Platform}
use yaroc.Status.{Times, MiniCallHomeProto}
use yaroc.Nrf.Mqtt.{Node, MqttConfig, MqttClient}
use yaroc.Nrf.Mqtt.Urcs.{Command}
use yaroc.Nrf.Mqtt.Connecting.{touched, mqtt_connect_client}
use yaroc.Nrf.Mqtt.Sending.Reports.{send_message_client}
use yaroc.Nrf.SendPunch.{
  SendPunch, Event, call_home, command, punched, Handler, handle, handle_all, handle_connect,
  mqtt_connect, send_message, send_punch, send_mini_call_home, synchronize_time, reported,
  on_send_punch,
}

-- A client with the configuration, and one of the five identifiers.
pub record IsSound (config : MqttConfig) (client : MqttClient) : Type 0 where
  pub id_fits : client.msg_id < 5
  pub configured : client.config ≡ config

module _ (times : Times) {S F : Type 0} (hw : ModemHw S) (platform : Platform S)
    (cpu_temperature : S → F × S) (zero_f : F) (encode_status : MiniCallHomeProto times F → Text)
    (encode_punches : List (List ℕ) → Text) (config : MqttConfig) where
  abbrev Sound : SendPunch times S → Type 0
  Sound self = IsSound config self.client

  -- The operations, with the arguments of this section.
  abbrev message :
      ℕ → ℕ → Text → Text → ℕ → SendPunch times S → Result Error (Unit {0}) × SendPunch times S
  message = send_message times hw platform cpu_temperature zero_f encode_status encode_punches

  abbrev pub Rounds : Type 0
  Rounds = Handler times hw platform cpu_temperature zero_f encode_status encode_punches

  abbrev connect : Bool → Rounds → Result Error (Unit {0}) × Rounds
  connect = handle_connect times hw platform cpu_temperature zero_f encode_status encode_punches

  abbrev pub rounds :
      ℕ
      → {chrono : Chrono}
      → List (Event times hw platform cpu_temperature zero_f encode_status encode_punches chrono)
      → Rounds
      → Result Error (Unit {0}) × Rounds
  rounds = handle_all times hw platform cpu_temperature zero_f encode_status encode_punches

  reported_client :
      (done : Result Error (Unit {0}) × SendPunch times S)
      → (reported times hw platform cpu_temperature zero_f encode_status encode_punches
          done).1.client
        ≡ done.1.client
  reported_client (ok a, self) = refl
  reported_client (err e, self) = refl
  reported_client (panic, self) = refl

  message-Sound :
      (fuel capacity : ℕ) (topic msg : Text) (qos : ℕ) (self : SendPunch times S)
      → Sound self
      → Sound (message fuel capacity topic msg qos self).1
  unfolding send_message
  message-Sound fuel capacity topic msg qos self h =
      let node : Node S = record { client = self.client; device = self.device } in
      let sent = send_message_client hw platform fuel topic msg qos node h.id_fits in
      elim (Bool-cases (ltb capacity (length msg))) [
        | inl long ↦ rw long h
        | inr fits ↦ rw fits (
            rw (reported_client _)
              (record { id_fits = sent.2; configured = sent.3 ∙ h.configured }))
      ]

  touched-IsSound :
      (node : Node S) → IsSound config node.client → IsSound config (touched platform node)
  touched-IsSound node h = ground arith

  connect-Sound :
      (self : SendPunch times S)
      → Sound self
      → Sound
          (mqtt_connect times hw platform cpu_temperature zero_f encode_status encode_punches
            self).1
  unfolding mqtt_connect
  connect-Sound self h =
      let node : Node S = record { client = self.client; device = self.device } in
      rw (mqtt_connect_client hw platform node).0 (touched-IsSound node h)

  call_home-Sound :
      (fuel : ℕ) (self : SendPunch times S)
      → Sound self
      → Sound
          (send_mini_call_home times hw platform cpu_temperature zero_f encode_status encode_punches
            fuel self).1
  unfolding send_mini_call_home
  call_home-Sound fuel self h = grind (arith, message-Sound)

  -- What every round leaves: no error, and a sound client.
  abbrev Fine : Result Error (Unit {0}) × Rounds → Type 0
  Fine done = (is_err done.0 ≡ false) × Sound done.1.send_punch

  ignored-Fine :
      {A : Type 0} (m : Exec (SendPunch times S) Error A) (handler : Rounds)
      → Sound (m handler.send_punch).1
      → Fine (
          on_send_punch times hw platform cpu_temperature zero_f encode_status encode_punches m
            handler)
  ignored-Fine m handler h = ground arith

  handle_connect-Fine :
      (force : Bool) (handler : Rounds) → Sound handler.send_punch → Fine (connect force handler)
  unfolding handle_connect
  handle_connect-Fine force handler h = grind (arith, connect-Sound, ignored-Fine)

  handle-Fine :
      (fuel : ℕ) {chrono : Chrono}
      (event : Event times hw platform cpu_temperature zero_f encode_status encode_punches chrono)
      (handler : Rounds)
      → Sound handler.send_punch
      → Fine (
          handle times hw platform cpu_temperature zero_f encode_status encode_punches fuel event
            handler)
  unfolding handle send_punch synchronize_time
  handle-Fine fuel call_home handler h =
      ignored-Fine
        (send_mini_call_home times hw platform cpu_temperature zero_f encode_status encode_punches
          fuel)
        handler (call_home-Sound fuel handler.send_punch h)
  handle-Fine fuel (command (Command.mqtt_connect force time)) handler h =
      handle_connect-Fine force handler h
  handle-Fine fuel (command (Command.synchronize_time time)) handler h =
      ignored-Fine
        (synchronize_time times hw platform cpu_temperature zero_f encode_status encode_punches)
        handler h
  handle-Fine fuel (punched (ok punch)) handler h =
      let encoded = encode_punches (punch.raw ∷ []) in
      ignored-Fine (message fuel 40 (codes "p") encoded 1) handler
        (message-Sound fuel 40 (codes "p") encoded 1 handler.send_punch h)
  handle-Fine fuel (punched (err e)) handler h = (refl, h)
  handle-Fine fuel (punched panic) handler h = (refl, h)

  then-Fine :
      (r : Result Error (Unit {0})) (rest : Exec Rounds Error (Unit {0})) (handler : Rounds)
      → Fine (r, handler)
      → Fine (rest handler)
      → Fine (continue r (λ _. rest) handler)
  then-Fine (ok a) rest handler first later = later
  then-Fine (err e) rest handler first later = absurd (cc (first.0))
  then-Fine panic rest handler first later = first

  -- Whatever events the handler is given, and whatever fails in its rounds, it ends in no error, and
  -- the client keeps its configuration and an identifier below 5, if it has them at the start.
  pub handle_all-IsSound :
      (fuel : ℕ) {chrono : Chrono}
      (events : List
        (Event times hw platform cpu_temperature zero_f encode_status encode_punches chrono))
      (handler : Rounds)
      → IsSound config handler.send_punch.client
      → (is_err (rounds fuel events handler).0 ≡ false)
        × IsSound config (rounds fuel events handler).1.send_punch.client
  unfolding handle_all
  handle_all-IsSound fuel [] handler h = (refl, h)
  handle_all-IsSound fuel (event ∷ events) handler h =
      let done =
        handle times hw platform cpu_temperature zero_f encode_status encode_punches fuel event
          handler in
      let first = handle-Fine fuel event handler h in
      then-Fine done.0 (rounds fuel events) done.1 first
        (handle_all-IsSound fuel events done.1 first.1)
