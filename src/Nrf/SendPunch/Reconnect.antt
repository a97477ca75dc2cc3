-- ===== src/Nrf/SendPunch/Reconnect.antt =====
-- The rounds of `send_punch_event_handler` of nrf52840/src/send_punch.rs: when the client connects
-- again.
use yaroc.Prelude.{ℕ, ◌+◌, ◌<◌, ◌≤◌, ◌≡◌, ◌≢◌, ◌⊎◌, inl, inr, arith, Bool, true, false, none, some}
use yaroc.Prelude.{List, lt→ltb, Option-cases, refl}
use native.Mathlib.Decide.{dec_lt}
use yaroc.Prelude.Result.{Result, ok, panic}
use yaroc.Prelude.Text.{Text}
use yaroc.Nrf.Error.{Error}
use yaroc.Nrf.Hardware.{ModemHw, Platform}
use yaroc.Status.{Times, MiniCallHomeProto}
use yaroc.Nrf.SendPunch.{SendPunch, Handler, handle_connect, mqtt_connect}

module _ (times : Times) {S F : Type 0} (hw : ModemHw S) (platform : Platform S)
    (cpu_temperature : S → F × S) (zero_f : F) (encode_status : MiniCallHomeProto times F → Text)
    (encode_punches : List (List ℕ) → Text) where
  abbrev pub Rounds : Type 0
  Rounds = Handler times hw platform cpu_temperature zero_f encode_status encode_punches

  abbrev pub connect : Bool → Rounds → Result Error (Unit {0}) × Rounds
  connect = handle_connect times hw platform cpu_temperature zero_f encode_status encode_punches

  abbrev pub connected : SendPunch times S → Result Error (Unit {0}) × SendPunch times S
  connected = mqtt_connect times hw platform cpu_temperature zero_f encode_status encode_punches

  -- A request to connect that is not forced does nothing within 60 s of the last time, neither to the
  -- modem nor to what the handler keeps.
  pub handle_connect_recent :
      (handler : Rounds) (last : ℕ)
      → handler.last_reconnect ≡ some last
      → platform.now handler.send_punch.device < last + 60_000
      → connect false handler ≡ (ok tt, handler)
  unfolding handle_connect
  handle_connect_recent handler last kept recent = rw (kept, lt→ltb _ _ recent)

  -- When a request to connect is followed: it is forced, or the first, or 60 s after the last.
  abbrev pub IsDue : Bool → Rounds → Type 0
  IsDue force handler =
      (force ≡ true)
      ⊎ (handler.last_reconnect ≡ none)
      ⊎ ((last : ℕ) × (handler.last_reconnect ≡ some last)
          × (last + 60_000 ≤ platform.now handler.send_punch.device))

  -- A request that is forced, the first one, and one 60 s after the last, connect; and the time of
  -- that is kept whether it succeeds or fails.
  pub handle_connect_due :
      (force : Bool) (handler : Rounds)
      → IsDue force handler
      → (connected handler.send_punch).0 ≢ panic
      → connect force handler ≡ (
        ok tt,
        record {
          send_punch = (connected handler.send_punch).1;
          last_reconnect = some (platform.now (connected handler.send_punch).1.device);
        },
      )
  unfolding handle_connect
  handle_connect_due force handler (inl forced) fine = grind arith
  handle_connect_due force handler (inr (inl first)) fine = grind arith
  handle_connect_due force handler (inr (inr (last, kept, past))) fine = grind arith

  not-IsDue :
      (handler : Rounds) (last : ℕ)
      → handler.last_reconnect ≡ some last
      → platform.now handler.send_punch.device < last + 60_000
      → ¬ IsDue false handler
  not-IsDue handler last kept recent (inl forced) = cc forced
  not-IsDue handler last kept recent (inr (inl first)) = cc (kept, first)
  not-IsDue handler last kept recent (inr (inr (other, also, past))) = grind arith

  -- Whatever a request to connect is, if connecting does not panic: one that is forced, the first one,
  -- and one 60 s after the last, connect, and the time of that is kept whether it succeeds or fails;
  -- any other does nothing, neither to the modem nor to what the handler keeps.
  pub handle_connect_cases :
      (force : Bool) (handler : Rounds)
      → (connected handler.send_punch).0 ≢ panic
      → (IsDue force handler
          × (connect force handler ≡ (
            ok tt,
            record {
              send_punch = (connected handler.send_punch).1;
              last_reconnect = some (platform.now (connected handler.send_punch).1.device);
            },
          )))
        ⊎ ((¬ IsDue force handler) × (connect force handler ≡ (ok tt, handler)))
  handle_connect_cases true handler fine =
      inl (inl refl, handle_connect_due true handler (inl refl) fine)
  handle_connect_cases false handler fine = elim (Option-cases handler.last_reconnect) [
    | inl first ↦ inl (inr (inl first), handle_connect_due false handler (inr (inl first)) fine)
    | inr (last, kept) ↦ elim (dec_lt (platform.now handler.send_punch.device) (last + 60_000)) [
      | yes recent ↦
          inr (not-IsDue handler last kept recent, handle_connect_recent handler last kept recent)
      | no past ↦
          let due = inr (inr (last, kept, omega arith)) in
          inl (due, handle_connect_due false handler due fine)
    ]
  ]
