-- ===== src/Nrf/Mqtt/Sending/Tests.antt =====
-- Runs of `send_message` of nrf52840/src/mqtt.rs at a device with one report to come, and with a
-- modem that does not answer.
use yaroc.Prelude.{ℕ, ◌≡◌, refl, [], ◌∷◌}
use yaroc.Prelude.Result.{ok, err}
use yaroc.Prelude.Numbers.{decimal}
use yaroc.Prelude.Text.{codes}
use yaroc.Nrf.Error.{timeout_error}
use yaroc.Nrf.Mqtt.{Node}
use yaroc.Nrf.Mqtt.Sending.{next_msg_id, advance, reset, report, await_report, call, send_message}
use yaroc.Nrf.Tests.{modem, silent, board, client}

abbrev pub before : Node ℕ
before = record { client = client; device = 1 }

abbrev pub after : Node ℕ
after = record { client = record client { msg_id = 0 }; device = 0 }

pub delivered : send_message modem board 4 (codes "p") (2 ∷ []) 1 before ≡ (ok tt, after)
unfolding send_message next_msg_id advance reset report await_report call decimal
delivered = refl

pub unanswered :
    send_message silent board 4 (codes "p") (2 ∷ []) 1 before
    ≡ (err timeout_error, record after { device = 1 })
unfolding send_message next_msg_id advance reset report await_report call decimal
unanswered = refl
