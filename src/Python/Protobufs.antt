-- ===== src/Python/Protobufs.antt =====
-- What the server reads of the messages of Meshtastic, decoded: the fields of the crate's types that
-- python/src/meshtastic.rs and python/src/message_handler.rs use. f32 is an argument.
use yaroc.Prelude.{ℕ, Option, List}
use yaroc.Prelude.Int.{ℤ}

pub record Data : Type 0 where
  pub portnum : ℤ
  pub payload : List ℕ

pub data PayloadVariant : Type 0 where
  decoded : Data → PayloadVariant
  encrypted : List ℕ → PayloadVariant

module _ (F32 : Type 0) where
  pub record MeshPacket : Type 0 where
    pub from : ℕ
    pub payload_variant : Option PayloadVariant
    pub rx_rssi : ℤ
    pub rx_snr : F32

  pub record ServiceEnvelope : Type 0 where
    pub packet : Option MeshPacket

  pub record DeviceMetrics : Type 0 where
    pub battery_level : ℕ
    pub voltage : F32

  pub record EnvironmentMetrics : Type 0 where
    pub temperature : F32
    pub relative_humidity : F32

  -- The variants that are not looked at are one.
  pub data TelemetryVariant : Type 0 where
    device_metrics : DeviceMetrics → TelemetryVariant
    environment_metrics : EnvironmentMetrics → TelemetryVariant
    other_metrics : TelemetryVariant

  pub record Telemetry : Type 0 where
    pub time : ℕ
    pub variant : Option TelemetryVariant

pub record PositionProto : Type 0 where
  pub latitude_i : ℤ
  pub longitude_i : ℤ
  pub altitude : ℤ
  pub time : ℕ
