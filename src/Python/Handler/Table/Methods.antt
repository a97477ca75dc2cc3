-- ===== src/Python/Handler/Table/Methods.antt =====
-- The methods of python/src/message_handler.rs, each against the table.
use yaroc.Prelude.{ℕ, map, ◌≡◌, refl, if◌then◌else◌, Option, none, some, List}
use yaroc.Prelude.Result.{◌>>=◌, Result, ok, err, panic, ok_or}
use yaroc.Error.{parse_error}
use yaroc.Python.Addresses.{mac_eq}
use yaroc.Python.Handler.{wrong_value, MessageHandler, resolve, get_position_name}
use yaroc.Python.Handler.Cellular as Cellular
use yaroc.Python.Handler.Mesh as Mesh
use yaroc.Python.Handler.Requests.{ask_punches, ask_status, ask_msh_status, ask_serial}
use yaroc.Python.Handler.Table.{
  view, meshtastic_at, effect, answer_of, made_of, host_in, is_panic, with_log, on_ok, on_some,
  position_in,
}
use yaroc.Python.Handler.Table.Loops.{collect_punches-Collects, msh_collect_punches-Collects}
use yaroc.Python.Meshtastic.{resolve_in, from_mesh_packet, MshLogMessage}
use yaroc.Python.Punches.{full, meshtastic, IoError, new_host, decoding, missing_packet}
use yaroc.Python.Server.{Server}
use yaroc.Python.Handler.Table.Steps.{
  Refines, get_cellular_status-Refines, msh_roc_status-Refines, continue_ok-Refines,
  continue_some-Refines,
}

module _ (server : Server) where
  open server use {F32, F64, times, chrono}

  position_in-view :
      (recv_mac : Option ℕ) (self : MessageHandler server)
      → Mesh.recv_position_of server recv_mac self ≡ position_in server recv_mac (view server self)
  unfolding get_position_name
  position_in-view none self = refl
  position_in-view (some mac) self = refl

  pub punches-Refines :
      (payload : List ℕ) (mac : ℕ) (now : times.Time) (today : chrono.Date)
      (self : MessageHandler server)
      → Refines server
          (Cellular.punches server payload mac now today self)
          (ok_or parse_error (server.decode_punches payload) >>= λ items.
            answer_of server
              (made_of server (host_in server (view server self) (full mac)) now today items))
          (effect server (ask_punches payload mac now today) (view server self))
  unfolding Cellular.punches resolve new_host
  punches-Refines payload mac now today self =
      continue_some-Refines server parse_error (server.decode_punches payload) _ _ _ self (λ items.
        get_cellular_status-Refines server mac _ self _ _ (
          collect_punches-Collects server (host_in server (view server self) (full mac)) now today
            items))

  pub status_update-Refines :
      (payload : List ℕ) (mac : ℕ) (now changed : times.Time) (self : MessageHandler server)
      → Refines server
          (Cellular.status_update server payload mac now changed self)
          (ok_or wrong_value (server.decode_status payload) >>= λ status_proto.
            Cellular.read_log server status_proto mac (resolve_in self.dns (full mac)) now >>= λ _.
            ok tt)
          (effect server (ask_status payload mac now changed) (view server self))
  unfolding Cellular.status_update resolve
  status_update-Refines payload mac now changed self =
      continue_some-Refines server wrong_value (server.decode_status payload) _ _ _ self
        (λ status_proto.
          continue_ok-Refines server
            (Cellular.read_log server status_proto mac (resolve_in self.dns (full mac)) now) _ _ _
            self
            (λ log.
              get_cellular_status-Refines server mac _ self (ok tt)
                (Cellular.log_status server changed log) (λ status. (refl, refl))))

  log_update-Refines :
      (changed signal_changed : times.Time) (self : MessageHandler server)
      (log : Result IoError (Option (MshLogMessage server)))
      → Refines server
          (Mesh.log_update server changed signal_changed log self)
          (if is_panic server log then panic else ok tt)
          (on_ok server log
            (λ found. on_some server found (λ log.
              meshtastic_at server log.host_info
                (Mesh.log_status server changed signal_changed log)))
            (view server self))
  log_update-Refines changed signal_changed self panic = (refl, refl)
  log_update-Refines changed signal_changed self (err e) = (refl, refl)
  log_update-Refines changed signal_changed self (ok none) = (refl, refl)
  log_update-Refines changed signal_changed self (ok (some log)) =
      msh_roc_status-Refines server log.host_info _ self (ok tt)
        (Mesh.log_status server changed signal_changed log) (λ status. (refl, refl))

  pub msh_status_update-Refines :
      (payload : List ℕ) (now : times.Time) (recv_mac : Option ℕ)
      (changed signal_changed : times.Time) (self : MessageHandler server)
      → Refines server
          (Mesh.msh_status_update server payload now recv_mac changed signal_changed self)
          (if is_panic server (
              from_mesh_packet server payload now self.dns
                (position_in server recv_mac (view server self)))
            then panic
            else ok tt)
          (effect server
            (ask_msh_status payload now recv_mac changed signal_changed)
            (view server self))
  unfolding Mesh.msh_status_update
  msh_status_update-Refines payload now recv_mac changed signal_changed self =
      rw (position_in-view recv_mac self) (
        log_update-Refines changed signal_changed self (
          from_mesh_packet server payload now self.dns
            (position_in server recv_mac (view server self))))

  pub msh_serial_msg-Refines :
      (payload : List ℕ) (now : times.Time) (today : chrono.Date) (self : MessageHandler server)
      → Refines server
          (Mesh.msh_serial_msg server payload now today self)
          (ok_or decoding (server.decode_envelope payload) >>= λ envelope.
            ok_or missing_packet envelope.packet >>= λ packet.
            let host_info = host_in server (view server self) (meshtastic packet.from) in
            Mesh.serial_punches server packet.payload_variant host_info today >>= λ punches.
            answer_of server (map (with_log server host_info now) punches))
          (effect server (ask_serial payload now today) (view server self))
  unfolding Mesh.msh_serial_msg resolve
  msh_serial_msg-Refines payload now today self =
      continue_some-Refines server decoding (server.decode_envelope payload) _ _ _ self (λ envelope.
        continue_some-Refines server missing_packet envelope.packet _ _ _ self (λ packet.
          let host_info = Mesh.host_of server packet.from self in
          continue_ok-Refines server
            (Mesh.serial_punches server packet.payload_variant host_info today) _ _ _ self
            (λ punches.
              msh_roc_status-Refines server host_info _ self _ _
                (msh_collect_punches-Collects server host_info now punches))))
