-- ===== src/Nrf/Mqtt/Leaving.antt =====
-- When `MqttClient` of nrf52840/src/mqtt.rs leaves the network: the commands to the modem that do so,
-- as a device counts them.
use yaroc.Prelude.{
  ℕ, suc, ◌+◌, ◌*◌, ◌≤◌, ◌<◌, ◌≡◌, refl, ◌∙◌, arith, Bool, true, false, ◌||◌, ◌⊎◌, inl, inr, none,
  Option,
}
use native.Mathlib.Decide.{dec_lt}
use yaroc.Prelude.{ltb, lt→ltb, le→ltb, if◌then◌else◌}
use yaroc.At.Types.{AtResponse}
use yaroc.Prelude.Result.{Result, ok, err, panic, Result-cases}
use yaroc.Prelude.Text.{Text, codes, text_eq}
use yaroc.Error.{Error as CommonError}
use yaroc.Nrf.Hardware.{ModemHw, Platform}
use yaroc.Nrf.Mqtt.{Node, MqttConfig, rejoin, activate, network_registration}
use yaroc.Nrf.Mqtt.{open_connection, reopen, mqtt_open, start_session, by_status, mqtt_connect}
use yaroc.Nrf.Mqtt.{mqtt_disconnect}
use yaroc.Nrf.Mqtt.Connecting.{touched, mqtt_connect_client}

-- A command by which the modem leaves the network.
pub leaves : Text → Bool
leaves cmd = text_eq cmd (codes "+CGATT=0") || text_eq cmd (codes "+CGACT=0,1")

-- The device counts in `left` the commands that leave the network, and does not while one waits.
pub record Counts {S : Type 0} (hw : ModemHw S) (platform : Platform S) (left : S → ℕ)
    : Type 0 where
  pub simple_counts :
      (cmd : Text) (timeout : Option ℕ) (s : S)
      → left (hw.simple_call_at cmd timeout s).1 ≡ (if leaves cmd then suc (left s) else left s)
  pub call_counts :
      (cmd : Text) (timeout : ℕ) (s : S)
      → left (hw.call_at cmd timeout s).1 ≡ (if leaves cmd then suc (left s) else left s)
  pub after_keeps : (time : ℕ) (s : S) → left (platform.after time s) ≡ left s

module _ {S : Type 0} (hw : ModemHw S) (platform : Platform S) (left : S → ℕ)
    (counts : Counts hw platform left) where
  activate_left :
      (config : MqttConfig) (node : Node S)
      → left (activate hw platform config node).1.device ≡ left node.device
  unfolding activate leaves text_eq
  activate_left config node = grind (arith, counts.simple_counts, counts.call_counts)

  open_left :
      (config : MqttConfig) (cid : ℕ) (node : Node S)
      → left (open_connection hw platform config cid node).1.device ≡ left node.device
  unfolding open_connection leaves text_eq
  open_left config cid node = grind (arith, counts.simple_counts)

  reopen_left :
      (config : MqttConfig) (cid : ℕ) (found : Result CommonError (ℕ × Text)) (node : Node S)
      → left (reopen hw platform config cid found node).1.device ≡ left node.device
  unfolding reopen leaves text_eq
  reopen_left config cid (ok (id, url)) node = grind (arith, counts.simple_counts, open_left)
  reopen_left config cid (err e) node = open_left config cid node
  reopen_left config cid panic node = refl

  mqtt_open_left :
      (cid : ℕ) (node : Node S) → left (mqtt_open hw platform cid node).1.device ≡ left node.device
  unfolding mqtt_open leaves text_eq
  mqtt_open_left cid node = grind (arith, counts.simple_counts, reopen_left)

  by_status_left :
      (config : MqttConfig) (cid status : ℕ) (node : Node S)
      → left (by_status hw platform config cid status node).1.device ≡ left node.device
  unfolding by_status start_session leaves text_eq
  by_status_left config cid status node = grind (arith, counts.simple_counts)

  mqtt_disconnect_left :
      (cid : ℕ) (node : Node S)
      → left (mqtt_disconnect hw platform cid node).1.device ≡ left node.device
  unfolding mqtt_disconnect leaves text_eq
  mqtt_disconnect_left cid node = grind (arith, counts.simple_counts)

  -- The client has sent nothing for more than 450 s.
  abbrev pub IsStale : Node S → Type 0
  IsStale node = node.client.last_successful_send + 450_000 < platform.now node.device

  -- The first command of leaving is answered.
  abbrev pub Answered : Node S → Type 0
  Answered node =
      (answer : AtResponse) × ((hw.simple_call_at (codes "E0") none node.device).0 ≡ ok answer)

  rejoin_left :
      (node : Node S)
      → ((¬ Answered node) × (left (rejoin hw platform node).1.device ≡ left node.device))
        ⊎ (Answered node
            × (suc (left node.device) ≤ left (rejoin hw platform node).1.device)
            × (left (rejoin hw platform node).1.device ≤ left node.device + 2))
  unfolding rejoin leaves text_eq
  rejoin_left node = elim (Result-cases (hw.simple_call_at (codes "E0") none node.device).0) [
    | inl (answer, e) ↦ inr (
      (answer, e),
      grind (arith, counts.simple_counts, counts.call_counts, counts.after_keeps),
      grind (arith, counts.simple_counts, counts.call_counts, counts.after_keeps),
    )
    | inr other ↦ inl (λ (answer, e). other answer e, grind (arith, counts.simple_counts))
  ]

  registration_stays :
      (node : Node S)
      → ¬ IsStale node
      → left (network_registration hw platform node).1.device ≡ left node.device
  unfolding network_registration leaves text_eq
  registration_stays node fresh =
      let short : ltb (node.client.last_successful_send + 150_000 * 3) (platform.now node.device)
          ≡ false =
        le→ltb _ _ (omega (arith, fresh)) in
      rw short (grind (arith, counts.simple_counts, activate_left))

  registration_rejoins :
      (node : Node S)
      → IsStale node
      → left (network_registration hw platform node).1.device
        ≡ left (rejoin hw platform node).1.device
  unfolding network_registration leaves text_eq
  registration_rejoins node stale =
      let long : ltb (node.client.last_successful_send + 150_000 * 3) (platform.now node.device)
          ≡ true =
        lt→ltb _ _ stale in
      rw long (grind (arith, counts.simple_counts, activate_left))

  connect_left :
      (node : Node S)
      → left (mqtt_connect hw platform node).1.device
        ≡ left (network_registration hw platform node).1.device
  unfolding mqtt_connect leaves text_eq
  connect_left node = grind (arith, counts.simple_counts, mqtt_open_left, by_status_left)

  -- The times that the network is left by connecting.
  abbrev pub LeftBy : Node S → ℕ → Type 0
  LeftBy node n =
      ((¬ IsStale node) × (n ≡ left node.device))
      ⊎ (IsStale node × (¬ Answered node) × (n ≡ left node.device))
      ⊎ (IsStale node × Answered node × (left node.device < n) × (n ≤ left node.device + 2))

  -- For a device that counts the commands to leave the network, whatever the modem answers and wherever
  -- they fail: connecting and disconnecting leave the client's configuration and its message identifier
  -- as they are. Disconnecting leaves all of the client, and sends no command to leave the network.
  -- Connecting changes the time of the last successful send, to now, exactly if that is more than 450 s
  -- ago; and it sends commands to leave the network, one or two, exactly if moreover the modem answers
  -- the first command of leaving it, and else none.
  pub mqtt_connect_leaves :
      (node : Node S)
      → ((mqtt_connect hw platform node).1.client ≡ touched platform node)
        × LeftBy node (left (mqtt_connect hw platform node).1.device)
        × ((cid : ℕ)
            → ((mqtt_disconnect hw platform cid node).1.client ≡ node.client)
              × (left (mqtt_disconnect hw platform cid node).1.device ≡ left node.device))
  mqtt_connect_leaves node =
      let (touches, keeps) = mqtt_connect_client hw platform node in
      let all = connect_left node in
      (
        touches,
        elim (dec_lt (node.client.last_successful_send + 450_000) (platform.now node.device)) [
          | no fresh ↦ inl (fresh, all ∙ registration_stays node fresh)
          | yes stale ↦
              let rejoins = all ∙ registration_rejoins node stale in
              elim (rejoin_left node) [
                | inl (silent, same) ↦ inr (inl (stale, silent, rejoins ∙ same))
                | inr (answered, more, few) ↦ inr (
                    inr
                      (stale, answered, omega (arith, rejoins, more), omega (arith, rejoins, few)))
              ]
        ],
        λ cid. (keeps cid, mqtt_disconnect_left cid node),
      )
