-- ===== src/Python/Handler/Positions.antt =====
-- The positions of Meshtastic nodes in python/src/message_handler.rs and python/src/meshtastic.rs.
pub mod Logs
use yaroc.Prelude.{ℕ, ◌*◌, ◌≡◌, refl, ap, ◌∙◌, false, ◌&&◌, Option-cases, inl, inr}
use yaroc.Prelude.{Option, none, some, List}
use yaroc.Prelude.Dict.{get, get-All, get-with_entry_same, or_else}
use yaroc.Prelude.Int.{pos, eq_ℤ, eq_ℤ_refl, wrapped}
use yaroc.Prelude.Result.{ok}
use yaroc.Prelude.Text.{Text}
use yaroc.Python.Addresses.{mac_eq}
use yaroc.Python.Handler.{
  MeshtasticRocStatus, MessageHandler, resolve, msh_roc_status, get_position_name,
}
use yaroc.Python.Handler.Mesh as Mesh
use yaroc.Python.Handler.Reachable.{Reached-IsValid}
use yaroc.Python.Handler.Requests.{Reached}
use yaroc.Python.Handler.Valid.{IsMeshtastic, Known, IsValid}
use yaroc.Python.Meshtastic.{
  PositionName, RssiSnr, MshLogMessage, position, position_at, with_distance, add_known,
  log_message, timestamp, datetime_from_millis, parse_inner, from_mesh_packet, resolve_in,
}
use yaroc.Python.Protobufs.{MeshPacket, decoded, PositionProto}
use yaroc.Python.Punches.{MacAddress, meshtastic, HostInfo}
use yaroc.Python.Server.{Server}
use yaroc.Python.Status as Status
use yaroc.Python.Handler.Positions.Logs.{
  IsPosition, signal_of, log_of, status_before, status_before_name, get-msh_status_update,
  log_status_of,
}

module _ (server : Server) where
  open server use {F32, F64, times}

  -- The position by which the next distance is told.
  get_position_name-msh_status_update :
      (entries : List (Text × Text)) (payload : List ℕ) (packet : MeshPacket F32)
      (proto : PositionProto) (at now : times.Time) (recv_mac : Option ℕ)
      (changed signal_changed : times.Time) (self : MessageHandler server)
      → IsValid server entries self
      → IsPosition server payload packet proto at
      → get_position_name server
          (Mesh.msh_status_update server payload now recv_mac changed signal_changed self).1
          (meshtastic packet.from)
        ≡ some (
            Status.new_position_name times.Time F32 F64
              (position_at server proto at)
              (resolve_in self.dns (meshtastic packet.from)))
  unfolding get_position_name
  get_position_name-msh_status_update entries payload packet proto at now recv_mac changed
        signal_changed self valid h =
      let mac_addr = meshtastic packet.from in
      let (name, place, signal) =
        log_status_of server packet proto at now self.dns
          (Mesh.recv_position_of server recv_mac self) changed signal_changed
          (status_before server self mac_addr) in
      rw
        (
          get-msh_status_update server payload packet proto at now recv_mac changed signal_changed
              self h,
          place,
          name,
          status_before_name server entries self mac_addr valid,
        )
        refl

  told_distance :
      (here : MeshPacket F32) (from to : PositionProto) (from_at to_at : times.Time) (name : Text)
      (distance : server.Distance)
      → eq_ℤ here.rx_rssi (pos 0) ≡ false
      → server.distance_to
          (server.location (server.degrees to.latitude_i) (server.degrees to.longitude_i))
          (server.location (server.degrees from.latitude_i) (server.degrees from.longitude_i))
        ≡ some distance
      → with_distance server
          (position_at server to to_at)
          (some
            (Status.new_position_name times.Time F32 F64 (position_at server from from_at) name))
          (signal_of server here)
        ≡ some (record {
          rssi_dbm = wrapped 32_768 here.rx_rssi;
          snr = here.rx_snr;
          distance = some (server.as_f32 (server.meters distance), name);
        })
  unfolding Status.new_rssi_snr Status.add_distance Status.distance_m Status.new_position_name
  told_distance here from to from_at to_at name distance signal known = rw signal (
      ap
        (λ distance. some (
          add_known server (Status.mapped server.meters distance) name (record {
            rssi_dbm = wrapped 32_768 here.rx_rssi;
            snr = here.rx_snr;
            distance = none;
          })))
        known)

  -- Two nodes send their positions, the second in a packet with a signal that the first receives: then
  -- the status of the second has its position, and its signal, the RSSI as an i16, with the distance
  -- between the two positions and the name of the first, if the distance can be told.
  pub msh_status_update-msh_status_update :
      (entries : List (Text × Text)) (self : MessageHandler server) (first second : List ℕ)
      (there here : MeshPacket F32) (from to : PositionProto) (from_at to_at now later : times.Time)
      (recv_mac : Option ℕ) (changed signal_changed changed_later signal_later : times.Time)
      (distance : server.Distance)
      → Reached server entries self
      → IsPosition server first there from from_at
      → IsPosition server second here to to_at
      → eq_ℤ here.rx_rssi (pos 0) ≡ false
      → server.distance_to
          (server.location (server.degrees to.latitude_i) (server.degrees to.longitude_i))
          (server.location (server.degrees from.latitude_i) (server.degrees from.longitude_i))
        ≡ some distance
      → let received =
          (Mesh.msh_status_update server first now recv_mac changed signal_changed self).1 in
        let after =
          (Mesh.msh_status_update server second later
            (some there.from)
            changed_later
            signal_later
            received).1 in
        (status : MeshtasticRocStatus server) × (get
            (meshtastic here.from)
            after.meshtastic_statuses
          ≡ some status)
        × (status.position ≡ some (position_at server to to_at))
        × (status.rssi_snr
            ≡ some (record {
              rssi_dbm = wrapped 32_768 here.rx_rssi;
              snr = here.rx_snr;
              distance = some (
                server.as_f32 (server.meters distance),
                resolve server self (meshtastic there.from),
              );
            }))
  unfolding resolve
  msh_status_update-msh_status_update entries self first second there here from to from_at to_at now
        later recv_mac changed signal_changed changed_later signal_later distance reached h k signal
        known =
      let received =
        (Mesh.msh_status_update server first now recv_mac changed signal_changed self).1 in
      let found =
        get_position_name-msh_status_update entries first there from from_at now recv_mac changed
          signal_changed self (Reached-IsValid server entries reached) h in
      let before = status_before server received (meshtastic here.from) in
      let recv_position = Mesh.recv_position_of server (some there.from) received in
      let (name, place, linked) =
        log_status_of server here to to_at later received.dns recv_position changed_later
          signal_later before in
      (
        Mesh.log_status server changed_later signal_later
            (log_of server here to to_at later received.dns recv_position) before,
        get-msh_status_update server second here to to_at later (some there.from) changed_later
            signal_later received k,
        place,
        linked
            ∙ ap
                (λ found.
                  with_distance server (position_at server to to_at) found (signal_of server here))
                found
            ∙ told_distance here from to from_at to_at (resolve_in self.dns (meshtastic there.from))
                distance signal known,
      )
