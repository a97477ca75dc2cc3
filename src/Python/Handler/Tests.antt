-- ===== src/Python/Handler/Tests.antt =====
-- A server with two nodes of Meshtastic and a cellular node, for the theorems on
-- python/src/message_handler.rs.
pub mod Maps
pub mod Messages
use yaroc.Prelude.{ℕ, zero, suc, refl, Option, none, some, List, [], ◌∷◌}
use yaroc.Prelude.Int.{ℤ, pos, negsuc}
use yaroc.Prelude.Text.{Text, codes}
use yaroc.Status.{MiniCallHome, to_proto}
use yaroc.Status.Tests.{counted}
use yaroc.Punch.Tests.{punch_bytes}
use yaroc.Python.Handler.{MessageHandler}
use yaroc.Python.Logs.{Msg, mini_call_home, dev_event, unknown}
use yaroc.Python.Protobufs.{MeshPacket, ServiceEnvelope, Telemetry, PositionProto, decoded}
use yaroc.Python.Punches.{full, meshtastic}
use yaroc.Python.Server.{Server}
use yaroc.Python.Server.Sample.{at_millis, since, server_of}

abbrev pub report : MiniCallHome counted ℤ
report = record {
  rssi_dbm = some (negsuc 79);
  snr_cb = some (pos 40);
  cellid = some 75_513;
  batt_mv = some 3847;
  batt_percents = none;
  cpu_temperature = some (pos 27);
  cpu_freq = none;
  timestamp = 1_706_523_131_081;
}

abbrev status_of : List ℕ → Option (Option (Msg counted ℤ at_millis since))
status_of [] = none
status_of (zero ∷ _) = some (some (dev_event (codes "tty") (unknown (pos 7))))
status_of (suc _ ∷ _) = some (some (mini_call_home (to_proto counted ℤ (pos 0) report)))

-- A punch, one that is not decoded, and one of two bytes.
abbrev punches_of : List ℕ → Option (List (Option (List ℕ)))
punches_of [] = none
punches_of (_ ∷ _) = some (some punch_bytes ∷ none ∷ some (0x12 ∷ 0x43 ∷ []) ∷ [])

abbrev pub place : ℕ → ℤ → MeshPacket ℤ
place from rssi = record {
  from = from;
  payload_variant = some (decoded (record { portnum = pos 3; payload = from ∷ [] }));
  rx_rssi = rssi;
  rx_snr = pos 4;
}

abbrev envelope_of : List ℕ → Option (ServiceEnvelope ℤ)
envelope_of [] = none
envelope_of (zero ∷ _) = some (record { packet = some (place 1 (pos 0)) })
envelope_of (suc _ ∷ _) = some (record { packet = some (place 2 (negsuc 86)) })

abbrev no_telemetry : List ℕ → Option (Telemetry ℤ)
no_telemetry _ = none

abbrev pub spot : ℤ → ℕ → PositionProto
spot degrees time = record {
  latitude_i = degrees;
  longitude_i = pos 9;
  altitude = pos 300;
  time = time;
}

abbrev spot_of : List ℕ → Option PositionProto
spot_of [] = none
spot_of (zero ∷ _) = none
spot_of (suc zero ∷ _) = some (spot (pos 480) 11)
spot_of (suc (suc _) ∷ _) = some (spot (pos 490) 12)

abbrev pub server : Server
server = server_of status_of punches_of envelope_of no_telemetry spot_of

abbrev pub entries : List (Text × Text)
entries =
    (codes "00000001", codes "OL1")
    ∷ (codes "00000002", codes "OL2")
    ∷ (codes "000000001234", codes "ROC")
    ∷ (codes "00000001", codes "OL3")
    ∷ []

abbrev pub start : MessageHandler server
start = record {
  dns = (meshtastic 1, codes "OL3") ∷ (meshtastic 2, codes "OL2") ∷ (full 0x1234, codes "ROC") ∷ [];
  cellular_statuses = [];
  meshtastic_statuses = [];
}
