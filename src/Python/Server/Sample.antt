-- ===== src/Python/Server/Sample.antt =====
-- A server whose clock counts milliseconds and whose floats are whole numbers, for any decoders: what
-- is asked of the parameters can be met, and the model can be run.
use yaroc.Prelude.{ℕ, ◌+◌, ◌*◌, ◌/◌, ◌%◌, refl, Option, none, some, List}
use yaroc.Prelude.Int.{ℤ, pos, negsuc, ◌-ℤ◌, pos_part}
use yaroc.Chrono.{DateTime}
use yaroc.Chrono.Sample.{sample}
use yaroc.Status.Tests.{counted}
use yaroc.Python.Logs.{Msg}
use yaroc.Python.Protobufs.{ServiceEnvelope, Telemetry, PositionProto}
use yaroc.Python.Server.{Server}

abbrev pub at_millis : ℤ → Option ℕ
at_millis (pos n) = some n
at_millis (negsuc n) = none

abbrev pub since : ℕ → ℕ → ℕ
since now t = 0

abbrev pub local_of : ℕ → DateTime sample
local_of t = record {
  date = t / 86_400_000;
  time = record { secs = t / 1000 % 86_400; nanos = t % 1000 * 1_000_000 };
}

abbrev pub time_of : DateTime sample → Option ℕ
time_of t = some (t.date * 86_400_000 + t.time.secs * 1000)

abbrev pub server_of :
    (List ℕ → Option (Option (Msg counted ℤ at_millis since)))
    → (List ℕ → Option (List (Option (List ℕ))))
    → (List ℕ → Option (ServiceEnvelope ℤ))
    → (List ℕ → Option (Telemetry ℤ))
    → (List ℕ → Option PositionProto)
    → Server
server_of decode_status decode_punches decode_envelope decode_telemetry decode_position = record {
  times = counted;
  chrono = sample;
  Duration = ℕ;
  F32 = ℤ;
  F64 = ℕ;
  Location = ℤ × ℤ;
  Distance = ℕ;
  naive_local = local_of;
  in_local_zone = time_of;
  minus = since;
  timestamp_millis_opt = at_millis;
  degrees = λ z. z;
  by_ten = λ z. z;
  volts = λ n. n;
  as_f32 = pos;
  location = λ lat lon. (lat, lon);
  distance_to = λ here there. some (pos_part (here.0 -ℤ there.0));
  meters = λ n. n;
  decode_status = decode_status;
  decode_punches = decode_punches;
  decode_envelope = decode_envelope;
  decode_telemetry = decode_telemetry;
  decode_position = decode_position;
  telemetry_app = pos 67;
  position_app = pos 3;
  serial_app = pos 64;
  apps_differ = refl;
}
