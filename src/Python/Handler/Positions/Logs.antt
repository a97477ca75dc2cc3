-- ===== src/Python/Handler/Positions/Logs.antt =====
-- The log that python/src/meshtastic.rs makes of a position, and the status that python/src/message_handler.rs
-- sets by it.
use yaroc.Prelude.{ℕ, ◌*◌, ◌≡◌, refl, false, ◌&&◌, Option-cases, inl, inr}
use yaroc.Prelude.{Option, some, List}
use yaroc.Prelude.Dict.{get, get-All, get-with_entry_same, or_else}
use yaroc.Prelude.Int.{pos, eq_ℤ, eq_ℤ_refl}
use yaroc.Prelude.Result.{ok}
use yaroc.Prelude.Text.{Text}
use yaroc.Python.Addresses.{mac_eq}
use yaroc.Python.Handler.{MeshtasticRocStatus, MessageHandler, msh_roc_status}
use yaroc.Python.Handler.Mesh as Mesh
use yaroc.Python.Handler.Valid.{IsMeshtastic, Known, IsValid}
use yaroc.Python.Meshtastic.{
  PositionName, RssiSnr, MshLogMessage, position, position_at, with_distance, log_message,
  timestamp, datetime_from_millis, parse_inner, from_mesh_packet, resolve_in,
}
use yaroc.Python.Protobufs.{MeshPacket, decoded, PositionProto}
use yaroc.Python.Punches.{MacAddress, meshtastic, HostInfo}
use yaroc.Python.Server.{Server}
use yaroc.Python.Status as Status

module _ (server : Server) where
  open server use {F32, F64, times}

  -- The payload is a packet with a position other than 0°, 0°, at a time that the zone knows.
  pub record IsPosition (payload : List ℕ) (packet : MeshPacket F32) (proto : PositionProto)
      (at : times.Time) : Type 0 where
    pub inner : List ℕ
    pub envelope : server.decode_envelope payload ≡ some (record { packet = some packet })
    pub port :
        packet.payload_variant
        ≡ some (decoded (record { portnum = server.position_app; payload = inner }))
    pub decodes : server.decode_position inner ≡ some proto
    pub somewhere : (eq_ℤ proto.latitude_i (pos 0) && eq_ℤ proto.longitude_i (pos 0)) ≡ false
    pub dated : server.timestamp_millis_opt (pos (proto.time * 1000)) ≡ some at

  abbrev pub signal_of : MeshPacket F32 → Option (RssiSnr server)
  signal_of packet = Status.new_rssi_snr times.Time F32 F64 packet.rx_rssi packet.rx_snr

  abbrev pub log_of :
      MeshPacket F32
      → PositionProto
      → times.Time
      → times.Time
      → List (MacAddress × Text)
      → Option (PositionName server)
      → MshLogMessage server
  log_of packet proto at now dns recv_position =
      let mac_address = meshtastic packet.from in
      let host_info : HostInfo = record {
        name = resolve_in dns mac_address;
        mac_address = mac_address;
      } in
      let here = position_at server proto at in
      log_message server (position here) host_info now
        (with_distance server here recv_position (signal_of packet)) at

  from_mesh_packet_position :
      (payload : List ℕ) (packet : MeshPacket F32) (proto : PositionProto) (at now : times.Time)
      (dns : List (MacAddress × Text)) (recv_position : Option (PositionName server))
      → IsPosition payload packet proto at
      → from_mesh_packet server payload now dns recv_position
        ≡ ok (some (log_of packet proto at now dns recv_position))
  unfolding from_mesh_packet parse_inner timestamp datetime_from_millis
  from_mesh_packet_position payload packet proto at now dns recv_position h =
      rw
        (
          h.envelope,
          h.port,
          server.apps_differ,
          eq_ℤ_refl server.position_app,
          h.decodes,
          h.somewhere,
          h.dated,
        )
        refl

  -- The status that a log of the position changes.
  abbrev pub status_before : MessageHandler server → MacAddress → MeshtasticRocStatus server
  status_before self mac_addr =
      or_else (Status.new_meshtastic times.Time F32 F64 (resolve_in self.dns mac_addr))
        (get mac_addr self.meshtastic_statuses)

  pub status_before_name :
      (entries : List (Text × Text)) (self : MessageHandler server) (mac_addr : MacAddress)
      → IsValid server entries self
      → (status_before self mac_addr).name ≡ resolve_in self.dns mac_addr
  unfolding Status.new_meshtastic
  status_before_name entries self mac_addr h =
      elim (Option-cases (get mac_addr self.meshtastic_statuses)) [
        | inl e ↦ rw e refl
        | inr (w, e) ↦
            rw e
              (get-All
                (λ entry.
                  IsMeshtastic entry.0 × Known server self.dns entry.0 entry.1.name entry.1.codes)
                mac_addr w self.meshtastic_statuses h.meshtastic e).1.0
      ]

  pub get-msh_status_update :
      (payload : List ℕ) (packet : MeshPacket F32) (proto : PositionProto) (at now : times.Time)
      (recv_mac : Option ℕ) (changed signal_changed : times.Time) (self : MessageHandler server)
      → IsPosition payload packet proto at
      → get
          (meshtastic packet.from)
          (Mesh.msh_status_update server payload now recv_mac changed signal_changed
            self).1.meshtastic_statuses
        ≡ some (
            Mesh.log_status server changed signal_changed
              (log_of packet proto at now self.dns (Mesh.recv_position_of server recv_mac self))
              (status_before self (meshtastic packet.from)))
  unfolding Mesh.msh_status_update msh_roc_status log_message
  get-msh_status_update payload packet proto at now recv_mac changed signal_changed self h =
      rw
        (from_mesh_packet_position payload packet proto at now self.dns
          (Mesh.recv_position_of server recv_mac self) h)
        (get-with_entry_same (meshtastic packet.from) _ _ self.meshtastic_statuses)

  pub log_status_of :
      (packet : MeshPacket F32) (proto : PositionProto) (at now : times.Time)
      (dns : List (MacAddress × Text)) (recv_position : Option (PositionName server))
      (changed signal_changed : times.Time) (status : MeshtasticRocStatus server)
      → let after =
          Mesh.log_status server changed signal_changed
            (log_of packet proto at now dns recv_position)
            status in
        (after.name ≡ status.name)
        × (after.position ≡ some (position_at server proto at))
        × (after.rssi_snr
            ≡ with_distance server (position_at server proto at) recv_position (signal_of packet))
  unfolding Mesh.log_status log_message Status.update_rssi_snr Status.clear_rssi_snr
  log_status_of packet proto at now dns recv_position changed signal_changed status =
      elim (Option-cases
        (with_distance server (position_at server proto at) recv_position (signal_of packet))) [
          | inl e ↦ rw e (refl, refl, refl)
          | inr (w, e) ↦ rw e (refl, refl, refl)
        ]
