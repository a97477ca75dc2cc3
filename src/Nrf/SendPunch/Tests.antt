-- ===== src/Nrf/SendPunch/Tests.antt =====
-- The theorems on nrf52840/src/send_punch.rs at a concrete device.
use yaroc.Prelude.{◌⊎◌, ℕ, ◌≡◌, ◌≢◌, arith, false, Option, none, some, List, [], ◌∷◌}
use yaroc.Prelude.Result.{ok, err, panic}
use yaroc.Prelude.Text.{Text}
use yaroc.Nrf.Error.{timeout_error}
use yaroc.Status.{MiniCallHomeProto}
use yaroc.Status.Tests.{counted}
use yaroc.Nrf.Tests.{silent, board, temperature, client}
use yaroc.Nrf.Mqtt.Tests.{unconnected}
use yaroc.Prelude.{refl}
use yaroc.Prelude.Exec.{is_err}
use yaroc.Chrono.Sample.{sample}
use yaroc.Nrf.Mqtt.{default_config}
use yaroc.Nrf.Mqtt.Urcs.{Command}
use yaroc.Nrf.SendPunch.{SendPunch, mqtt_connect, Event, call_home, command, punched}
use yaroc.Nrf.SendPunch.Rounds.{IsSound, rounds, handle_all-IsSound}
use yaroc.Nrf.SendPunch.Reconnect.{Rounds, connect, connected, IsDue, handle_connect_cases}

abbrev status_bytes : MiniCallHomeProto counted ℕ → Text
status_bytes proto = 1 ∷ []

abbrev punch_bytes : List (List ℕ) → Text
punch_bytes punches = 2 ∷ []

abbrev self : ℕ → SendPunch counted ℕ
self device = record { client = client; system_info = record { boot_time = none }; device = device }

-- The handler, when it has connected at a time.
abbrev handler : Option ℕ → Rounds counted silent board temperature 0 status_bytes punch_bytes
handler last = record { send_punch = self 3; last_reconnect = last }

fails :
    connected counted silent board temperature 0 status_bytes punch_bytes (self 3)
    ≡ (err timeout_error, self 3)
unfolding mqtt_connect
fails = rw unconnected

fails_softly :
    (connected counted silent board temperature 0 status_bytes punch_bytes (self 3)).0 ≢ panic
fails_softly h = let e = rw fails at h in absurd (cc (e))

handle_connect_cases_example :
    (IsDue counted silent board temperature 0 status_bytes punch_bytes false (handler (some 1))
      × (connect counted silent board temperature 0 status_bytes punch_bytes false
            (handler (some 1))
          ≡ (
            ok tt,
            record {
              send_punch =
                  (connected counted silent board temperature 0 status_bytes punch_bytes
                    (self 3)).1;
              last_reconnect =
                  some
                    (connected counted silent board temperature 0 status_bytes punch_bytes
                      (self 3)).1.device;
            },
          )))
    ⊎ ((¬ IsDue counted silent board temperature 0 status_bytes punch_bytes false
          (handler (some 1)))
        × (connect counted silent board temperature 0 status_bytes punch_bytes false
              (handler (some 1))
            ≡ (ok tt, handler (some 1))))
handle_connect_cases_example =
    handle_connect_cases counted silent board temperature 0 status_bytes punch_bytes false
      (handler (some 1)) fails_softly

-- A mini call home that cannot be made, a request to connect, and a reading that failed.
abbrev events : List (Event counted silent board temperature 0 status_bytes punch_bytes sample)
events = call_home ∷ command (Command.mqtt_connect false 2) ∷ punched (err timeout_error) ∷ []

handle_all-IsSound_example :
    (is_err
        (rounds counted silent board temperature 0 status_bytes punch_bytes default_config 4 events
          (handler none)).0
      ≡ false)
    × IsSound default_config
        (rounds counted silent board temperature 0 status_bytes punch_bytes default_config 4 events
          (handler none)).1.send_punch.client
handle_all-IsSound_example =
    handle_all-IsSound counted silent board temperature 0 status_bytes punch_bytes default_config 4
      events (handler none) (record { id_fits = omega arith; configured = refl })
