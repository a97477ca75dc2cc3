-- ===== src/Nrf/Mqtt/Tests.antt =====
-- A run of `mqtt_connect` of nrf52840/src/mqtt.rs with a modem that does not answer.
use yaroc.Prelude.{◌≡◌, refl}
use yaroc.Prelude.Result.{err}
use yaroc.Nrf.Error.{timeout_error}
use yaroc.Nrf.Mqtt.{network_registration, mqtt_connect}
use yaroc.Nrf.Tests.{silent, board, node}

pub unconnected : mqtt_connect silent board node ≡ (err timeout_error, node)
unfolding mqtt_connect network_registration
unconnected = refl
