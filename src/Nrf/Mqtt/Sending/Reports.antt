-- ===== src/Nrf/Mqtt/Sending/Reports.antt =====
-- `send_message` of nrf52840/src/mqtt.rs: the identifiers of the messages, and what the modem's
-- reports on one come to.
use yaroc.Prelude.{
  ℕ, zero, suc, ◌+◌, ◌%◌, ◌<◌, ◌≤◌, ◌≡◌, ◌≢◌, ◌⊎◌, inl, inr, refl, ap, arith, false, Option, none,
  some, ◌↔◌, ◌==◌, if◌then◌else◌,
}
use yaroc.Prelude.Result.{Result, ok, err, panic}
use yaroc.Prelude.Text.{Text}
use yaroc.Nrf.Error.{Error, timeout_error, modem_error}
use yaroc.Nrf.Hardware.{ModemHw, Platform}
use yaroc.Nrf.Mqtt.{Node, MqttClient}
use yaroc.Nrf.Mqtt.Sending.{next_msg_id, advance, reset, report, await_report, call, send_message}

-- The client when it has sent some messages at QoS 1.
abbrev pub advanced : ℕ → MqttClient → MqttClient
advanced zero client = client
advanced (suc n) client = advance 1 (advanced n client)

msg_id-advanced :
    (n : ℕ) (client : MqttClient)
    → client.msg_id < 5
    → (advanced n client).msg_id ≡ (client.msg_id + n) % 5
unfolding advance
msg_id-advanced zero client h = omega arith
msg_id-advanced (suc n) client h = omega (arith, msg_id-advanced n client h)

-- The identifiers at QoS 1 go round from 1 to 5: two messages have the same one exactly if the count
-- of messages between them is a multiple of 5. So five messages in a row have five signals, none of
-- which is that of a message at QoS 0, whose identifier is 0.
pub msg_id_iff :
    (client : MqttClient) (i j : ℕ)
    → client.msg_id < 5
    → ((next_msg_id 1 (advanced i client) ≡ next_msg_id 1 (advanced j client)) ↔ (i % 5 ≡ j % 5))
      × (0 < next_msg_id 1 (advanced i client))
      × (next_msg_id 1 (advanced i client) ≤ 5)
      × (next_msg_id 0 (advanced i client) ≡ 0)
unfolding next_msg_id
msg_id_iff client i j h =
    let p = msg_id-advanced i client h in
    let q = msg_id-advanced j client h in
    ((λ e. omega arith, λ e. omega arith), omega arith, omega arith, refl)

module _ {S : Type 0} (hw : ModemHw S) (platform : Platform S) (idx time : ℕ) where
  -- How the wait for the modem's report on a message ends, after the reports of tries that failed.
  pub data Reported : S → Result Error (Unit {0}) → S → Type 0 where
    quiet : (s t : S) → platform.wait idx time s ≡ (none, t) → Reported s (err timeout_error) t
    delivered :
        (s t : S) (n : ℕ) → platform.wait idx time s ≡ (some (0, n), t) → Reported s (ok tt) t
    retried :
        (s t u : S) (n : ℕ) (r : Result Error (Unit {0}))
        → platform.wait idx time s ≡ (some (1, n), t)
        → Reported t r u
        → Reported s r u
    gave_up :
        (s t : S) (n : ℕ)
        → platform.wait idx time s ≡ (some (2, n), t)
        → Reported s (err timeout_error) t
    unknown :
        (s t : S) (k n : ℕ)
        → platform.wait idx time s ≡ (some (3 + k, n), t)
        → Reported s (err modem_error) t

  -- Only so many reports are to come: each that is given leaves fewer.
  abbrev pub RunsOut : (S → ℕ) → Type 0
  RunsOut pending =
      (s t : S) (value : ℕ × ℕ) → platform.wait idx time s ≡ (some value, t) → pending t < pending s

  -- The wait ends as its reports say, and leaves the client as it is.
  abbrev pub Ends : Node S → Result Error (Unit {0}) × Node S → Type 0
  Ends node done = Reported node.device done.0 done.1.device × (done.1.client ≡ node.client)

  -- The result that a report stands for, if it does not ask to wait again.
  abbrev result_of : ℕ → Result Error (Unit {0})
  result_of zero = ok tt
  result_of (suc zero) = err modem_error
  result_of (suc (suc zero)) = err timeout_error
  result_of (suc (suc (suc k))) = err modem_error

  step :
      (fuel : ℕ) (node : Node S) (t : S)
      → (platform.wait idx time node.device ≡ (none, t)
          → await_report hw platform (suc fuel) idx time node
            ≡ (err timeout_error, record node { device = t }))
        × ((r n : ℕ)
            → platform.wait idx time node.device ≡ (some (r, n), t)
            → await_report hw platform (suc fuel) idx time node ≡ (
                if r == 1
                then await_report hw platform fuel idx time (record node { device = t })
                else (result_of r, record node { device = t })))
  unfolding await_report report
  step fuel node t = (λ e. ground arith, λ r n e. ground arith)

  ends :
      (fuel : ℕ) (node : Node S) (reported : Option (ℕ × ℕ)) (t : S)
      → platform.wait idx time node.device ≡ (reported, t)
      → ((n : ℕ)
          → reported ≡ some (1, n)
          → Ends
              (record node { device = t })
              (await_report hw platform fuel idx time (record node { device = t })))
      → Ends node (await_report hw platform (suc fuel) idx time node)
  ends fuel node none t e again = rw ((step fuel node t).0 e) (quiet node.device t e, refl)
  ends fuel node (some (zero, n)) t e again =
      rw ((step fuel node t).1 0 n e) (delivered node.device t n e, refl)
  ends fuel node (some (suc zero, n)) t e again =
      let later = again n refl in
      rw ((step fuel node t).1 1 n e) (retried node.device t _ n _ e later.0, later.1)
  ends fuel node (some (suc (suc zero), n)) t e again =
      rw ((step fuel node t).1 2 n e) (gave_up node.device t n e, refl)
  ends fuel node (some (suc (suc (suc k)), n)) t e again =
      let three : 3 + k ≡ suc (suc (suc k)) = omega arith in
      let other : (suc (suc (suc k)) == 1) ≡ false = ground arith in
      rw ((step fuel node t).1 (suc (suc (suc k))) n e, other)
        (unknown node.device t k n (rw three e), refl)

  -- The wait for the report on a message ends, with fuel for one more report than are to come, and
  -- as the reports say: it repeats while a try failed, and then gives success, the end of the time,
  -- the timeout that the modem reports, or an error of the modem. The client stays as it is.
  pub await_report-Ends :
      (fuel : ℕ) (pending : S → ℕ) (node : Node S)
      → RunsOut pending
      → pending node.device < fuel
      → Ends node (await_report hw platform fuel idx time node)
  await_report-Ends zero pending node h enough = absurd (omega arith)
  await_report-Ends (suc fuel) pending node h enough =
      let (reported, t) = platform.wait idx time node.device in
      ends fuel node reported t refl λ n e.
        await_report-Ends fuel pending (record node { device = t }) h
          (omega (arith, h node.device t (1, n) (ap (λ r. (r, t)) e)))

module _ {S : Type 0} (hw : ModemHw S) (platform : Platform S) where
  await_keeps :
      (fuel idx time : ℕ) (node : Node S)
      → (await_report hw platform fuel idx time node).1.client ≡ node.client
  unfolding await_report report
  await_keeps zero idx time node = refl
  await_keeps (suc fuel) idx time node =
      let device = (platform.wait idx time node.device).1 in
      let again = await_keeps fuel idx time (record node { device = device }) in
      ground (arith, again)

  -- The two ways for a message to end.
  by_result :
      {P Q : Type 0} (done : Result Error (Unit {0}) × Node S)
      → (done.0 ≡ ok tt → P)
      → (done.0 ≢ ok tt → Q)
      → ((done.0 ≡ ok tt) × P) ⊎ ((done.0 ≢ ok tt) × Q)
  by_result (ok tt, node) p q = inl (refl, p refl)
  by_result (err e, node) p q =
      let other : ◌≢◌ {A = Result Error (Unit {0})} (err e) (ok tt) = (λ h. absurd (cc (h))) in
      inr (other, q other)
  by_result (panic, node) p q =
      let other : ◌≢◌ {A = Result Error (Unit {0})} panic (ok tt) = (λ h. absurd (cc (h))) in
      inr (other, q other)

  -- Sending a message from a client whose last identifier is one of the five: the reset of the
  -- message's signal does not panic, the identifier is one of the five again and has advanced as
  -- the QoS says, whatever comes of the message, and the configuration stays. The time of the last
  -- successful send becomes the time at the end if the message was delivered, and else stays.
  pub send_message_client :
      (fuel : ℕ) (topic msg : Text) (qos : ℕ) (node : Node S)
      → node.client.msg_id < 5
      → let done = send_message hw platform fuel topic msg qos node in
        ((reset hw platform (next_msg_id qos node.client) node).0 ≡ ok tt)
        × (done.1.client.msg_id ≡ (advance qos node.client).msg_id)
        × (done.1.client.msg_id < 5)
        × (done.1.client.config ≡ node.client.config)
        × (((done.0 ≡ ok tt) × (done.1.client.last_successful_send ≡ platform.now done.1.device))
            ⊎ ((done.0 ≢ ok tt)
                × (done.1.client.last_successful_send ≡ node.client.last_successful_send)))
  unfolding send_message reset advance call next_msg_id
  send_message_client fuel topic msg qos node h =
      let done = send_message hw platform fuel topic msg qos node in
      (
        ground arith,
        grind (arith, await_keeps),
        grind (arith, await_keeps),
        grind (arith, await_keeps),
        by_result done (grind (arith, await_keeps)) (grind (arith, await_keeps)),
      )
