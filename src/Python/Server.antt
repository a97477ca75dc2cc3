-- ===== src/Python/Server.antt =====
-- What the server (python/src) uses that is not part of the repository: times and their zone, floats,
-- distances on the earth, and the decoders of messages, as one parameter of its modules.
pub mod Sample
use yaroc.Prelude.{ℕ, ◌≡◌, Bool, false, Option, List}
use yaroc.Prelude.Int.{ℤ, eq_ℤ}
use yaroc.Chrono.{Chrono, DateTime}
use yaroc.Status.{Times}
use yaroc.Python.Logs
use yaroc.Python.Protobufs.{ServiceEnvelope, Telemetry, PositionProto}

pub record Server : Type 1 where
  pub times : Times
  pub chrono : Chrono
  pub Duration : Type 0
  pub F32 : Type 0
  pub F64 : Type 0
  pub Location : Type 0
  pub Distance : Type 0
  pub naive_local : times.Time → DateTime chrono
  -- `and_local_timezone(Local)`, where it is one time.
  pub in_local_zone : DateTime chrono → Option times.Time
  pub minus : times.Time → times.Time → Duration
  -- `Local.timestamp_millis_opt`, where it is one time.
  pub timestamp_millis_opt : ℤ → Option times.Time
  -- `_ as f32 / 10_000_000.`, `f32::from(_) / 10.`, `f64::from(_) / 1000.` and `_ as f32`.
  pub degrees : ℤ → F32
  pub by_ten : ℤ → F32
  pub volts : ℕ → F64
  pub as_f32 : F64 → F32
  -- The geoutils crate; none is an error, of which only a text is known.
  pub location : F32 → F32 → Location
  pub distance_to : Location → Location → Option Distance
  pub meters : Distance → F64
  -- The decoders of femtopb and prost, which give none for an error. Each of the punches is decoded on
  -- its own, and only its raw bytes are used.
  pub decode_status : List ℕ → Option (Option (Logs.Msg times F32 timestamp_millis_opt minus))
  pub decode_punches : List ℕ → Option (List (Option (List ℕ)))
  pub decode_envelope : List ℕ → Option (ServiceEnvelope F32)
  pub decode_telemetry : List ℕ → Option (Telemetry F32)
  pub decode_position : List ℕ → Option PositionProto
  -- The numbers of the ports.
  pub telemetry_app : ℤ
  pub position_app : ℤ
  pub serial_app : ℤ
  pub apps_differ : eq_ℤ position_app telemetry_app ≡ false
