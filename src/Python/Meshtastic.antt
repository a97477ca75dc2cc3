-- ===== src/Python/Meshtastic.antt =====
-- python/src/meshtastic.rs: the logs that are made of Meshtastic's packets.
use yaroc.Prelude.{ℕ, ◌*◌, ◌&&◌, Option, none, some, List, if◌then◌else◌}
use yaroc.Prelude.Int.{ℤ, pos, eq_ℤ}
use yaroc.Prelude.Dict.{get, or_else}
use yaroc.Prelude.Result.{Result, ok, err, ◌>>=◌, ok_or, unwrap}
use yaroc.Prelude.Text.{Text, codes}
use yaroc.Python.Server.{Server}
use yaroc.Python.Protobufs.{
  Data, decoded, encrypted, MeshPacket, TelemetryVariant, device_metrics, environment_metrics,
  other_metrics, PositionProto,
}
use yaroc.Python.Punches.{MacAddress, meshtastic, HostInfo, IoError, decoding, encrypted_message}
use yaroc.Python.Addresses.{mac_eq}
use yaroc.Python.Status as Status

-- The name of an address, which the message handler looks up in the same way.
unfoldable pub resolve_in : List (MacAddress × Text) → MacAddress → Text
unfolding get
resolve_in dns mac_addr = or_else (codes "Unknown") (get mac_addr dns)

module _ (server : Server) where
  open server use {F32, F64, times}

  abbrev pub Position : Type 0
  Position = Status.Position times.Time F32 F64

  abbrev pub PositionName : Type 0
  PositionName = Status.PositionName times.Time F32 F64

  abbrev pub RssiSnr : Type 0
  RssiSnr = Status.RssiSnr times.Time F32 F64

  pub data MshMetrics : Type 0 where
    position : Position → MshMetrics
    voltage_battery : F32 → ℕ → MshMetrics
    environment : F32 → F32 → MshMetrics

  pub record MshLogMessage : Type 0 where
    pub metrics : MshMetrics
    pub host_info : HostInfo
    pub rssi_snr : Option RssiSnr
    pub timestamp : times.Time
    pub latency : server.Duration

  -- `timestamp`, and the function of common/src/time.rs that it calls.
  unfoldable pub datetime_from_millis : ℤ → Result IoError times.Time
  datetime_from_millis timestamp = unwrap (server.timestamp_millis_opt timestamp)

  unfoldable pub timestamp : ℕ → Result IoError times.Time
  timestamp posix_time = datetime_from_millis (pos (posix_time * 1000))

  abbrev pub position_at : PositionProto → times.Time → Position
  position_at proto timestamp = record {
    lat = server.degrees proto.latitude_i;
    lon = server.degrees proto.longitude_i;
    elevation = proto.altitude;
    timestamp = timestamp;
  }

  -- The distance to the receiver, where both are known and it can be told.
  abbrev pub add_known : Option F64 → Text → RssiSnr → RssiSnr
  add_known none name rssi_snr = rssi_snr
  add_known (some distance) name rssi_snr =
      Status.add_distance times.Time F32 F64 (server.as_f32 distance) name rssi_snr

  abbrev pub with_distance : Position → Option PositionName → Option RssiSnr → Option RssiSnr
  with_distance here none rssi_snr = rssi_snr
  with_distance here (some there) none = none
  with_distance here (some there) (some rssi_snr) =
      let distance =
        Status.distance_m times.Time F32 F64 server.location server.distance_to server.meters here
          there.position in
      some (add_known distance there.name rssi_snr)

  unfoldable pub log_message :
      MshMetrics → HostInfo → times.Time → Option RssiSnr → times.Time → MshLogMessage
  log_message metrics host_info now rssi_snr timestamp = record {
    metrics = metrics;
    host_info = host_info;
    rssi_snr = rssi_snr;
    timestamp = timestamp;
    latency = server.minus now timestamp;
  }

  abbrev pub telemetry_metrics : Option (TelemetryVariant F32) → Option MshMetrics
  telemetry_metrics (some (device_metrics metrics)) =
      some (voltage_battery metrics.voltage metrics.battery_level)
  telemetry_metrics (some (environment_metrics metrics)) =
      some (environment metrics.temperature metrics.relative_humidity)
  telemetry_metrics (some other_metrics) = none
  telemetry_metrics none = none

  -- What is logged of a position that is known.
  abbrev pub position_log :
      PositionProto
      → HostInfo
      → times.Time
      → Option RssiSnr
      → Option PositionName
      → Result IoError (Option MshLogMessage)
  position_log proto host_info now rssi_snr recv_position = do
    at ← timestamp proto.time
    let here = position_at proto at
    ok (
        some (
          log_message (position here) host_info now (with_distance here recv_position rssi_snr) at))

  unfoldable pub parse_inner :
      Data
      → HostInfo
      → times.Time
      → Option RssiSnr
      → Option PositionName
      → Result IoError (Option MshLogMessage)
  parse_inner message host_info now rssi_snr recv_position =
      if eq_ℤ message.portnum server.telemetry_app
      then (do
        telemetry ← ok_or decoding (server.decode_telemetry message.payload)
        at ← timestamp telemetry.time
        ok (elim (telemetry_metrics telemetry.variant) [
          | none ↦ none
          | some metrics ↦ some (log_message metrics host_info now rssi_snr at)
        ]))
      else if eq_ℤ message.portnum server.position_app
      then (do
        proto ← ok_or decoding (server.decode_position message.payload)
        if eq_ℤ proto.latitude_i (pos 0) && eq_ℤ proto.longitude_i (pos 0)
            then ok none
            else position_log proto host_info now rssi_snr recv_position)
      else ok none

  abbrev pub from_packet :
      Option (MeshPacket F32)
      → times.Time
      → List (MacAddress × Text)
      → Option PositionName
      → Result IoError (Option MshLogMessage)
  from_packet none now dns recv_position = ok none
  from_packet (some packet) now dns recv_position = elim packet.payload_variant [
    | none ↦ ok none
    | some (encrypted _) ↦ err encrypted_message
    | some (decoded message) ↦
        let mac_address = meshtastic packet.from in
        let host_info : HostInfo = record {
          name = resolve_in dns mac_address;
          mac_address = mac_address;
        } in
        parse_inner message host_info now
          (Status.new_rssi_snr times.Time F32 F64 packet.rx_rssi packet.rx_snr) recv_position
  ]

  unfoldable pub from_mesh_packet :
      List ℕ
      → times.Time
      → List (MacAddress × Text)
      → Option PositionName
      → Result IoError (Option MshLogMessage)
  from_mesh_packet payload now dns recv_position = do
    envelope ← ok_or decoding (server.decode_envelope payload)
    from_packet envelope.packet now dns recv_position
