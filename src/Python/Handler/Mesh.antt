-- ===== src/Python/Handler/Mesh.antt =====
-- python/src/message_handler.rs: the messages of the Meshtastic nodes. What a method reads of the clock
-- is an argument: `now`, the day of it, and the times at which a status is changed.
use yaroc.Prelude.{ℕ, Option, none, some, List, [], ◌∷◌, if◌then◌else◌}
use yaroc.Prelude.Int.{eq_ℤ}
use yaroc.Prelude.Exec.{Exec, pure, lift, gets, modify, with_error, ◌>>=◌, ◌>>◌}
use yaroc.Prelude.Result.{Result, ok, err, panic, ok_or}
use yaroc.Python.Handler.{
  PyErr, os_error, panics_only, SiPunch, SiPunchLog, MeshtasticRocStatus, MessageHandler, resolve,
  msh_roc_status, get_position_name,
}
use yaroc.Python.Meshtastic.{
  MshMetrics, position, voltage_battery, environment, MshLogMessage, PositionName, from_mesh_packet,
}
use yaroc.Python.Protobufs.{PayloadVariant, decoded, encrypted}
use yaroc.Python.Punches.{
  meshtastic, HostInfo, IoError, decoding, missing_packet, wrong_port, new_log,
  punches_from_payload,
}
use yaroc.Python.Server.{Server}
use yaroc.Python.Status as Status

module _ (server : Server) where
  open server use {F32, F64, times, chrono}

  abbrev pub metrics_update :
      times.Time → MshMetrics server → MeshtasticRocStatus server → MeshtasticRocStatus server
  metrics_update changed (voltage_battery _ battery) status =
      Status.update_battery times.Time F32 F64 changed battery status
  metrics_update changed (position here) status = record status { position = some here }
  metrics_update changed (environment _ _) status = status

  -- What a log changes in the status of its node, at the times of the two changes.
  unfoldable pub log_status :
      times.Time
      → times.Time
      → MshLogMessage server
      → MeshtasticRocStatus server
      → MeshtasticRocStatus server
  log_status changed signal_changed log_message status =
      let updated = metrics_update changed log_message.metrics status in
      elim log_message.rssi_snr [
        | some rssi_snr ↦ Status.update_rssi_snr times.Time F32 F64 signal_changed rssi_snr updated
        | none ↦ Status.clear_rssi_snr times.Time F32 F64 signal_changed updated
      ]

  abbrev pub recv_position_of : Option ℕ → MessageHandler server → Option (PositionName server)
  recv_position_of none self = none
  recv_position_of (some mac_addr) self = get_position_name server self (meshtastic mac_addr)

  -- An error is only logged.
  abbrev pub log_update :
      times.Time
      → times.Time
      → Result IoError (Option (MshLogMessage server))
      → Exec (MessageHandler server) IoError (Unit {0})
  log_update changed signal_changed panic = lift panic
  log_update changed signal_changed (err _) = pure tt
  log_update changed signal_changed (ok none) = pure tt
  log_update changed signal_changed (ok (some log_message)) =
      msh_roc_status server log_message.host_info
        (modify (log_status changed signal_changed log_message))

  unfoldable pub msh_status_update :
      List ℕ
      → times.Time
      → Option ℕ
      → times.Time
      → times.Time
      → Exec (MessageHandler server) IoError (Unit {0})
  msh_status_update payload now recv_mac_address changed signal_changed self =
      let recv_position = recv_position_of recv_mac_address self in
      log_update changed signal_changed (from_mesh_packet server payload now self.dns recv_position)
        self

  abbrev pub seen : SiPunch server → Status.Punch times.Time F32 F64
  seen punch = record { code = punch.code; time = punch.time }

  abbrev pub keep_punch :
      HostInfo
      → times.Time
      → Result IoError (SiPunch server)
      → Exec (MeshtasticRocStatus server) IoError (List (SiPunchLog server))
      → Exec (MeshtasticRocStatus server) IoError (List (SiPunchLog server))
  keep_punch host_info now panic rest = lift panic
  keep_punch host_info now (err _) rest = rest
  keep_punch host_info now (ok punch) rest = do
    modify (Status.meshtastic_punch times.Time F32 F64 (seen punch))
    logs ← rest
    pure (
        new_log chrono server.naive_local server.in_local_zone server.minus punch host_info now
        ∷ logs)

  unfoldable pub collect_punches :
      HostInfo
      → times.Time
      → List (Result IoError (SiPunch server))
      → Exec (MeshtasticRocStatus server) IoError (List (SiPunchLog server))
  collect_punches host_info now [] = pure []
  collect_punches host_info now (punch ∷ punches) =
      keep_punch host_info now punch (collect_punches host_info now punches)

  abbrev pub serial_punches :
      Option PayloadVariant
      → HostInfo
      → chrono.Date
      → Result IoError (List (Result IoError (SiPunch server)))
  serial_punches (some (decoded message)) host_info today =
      if eq_ℤ message.portnum server.serial_app
      then panics_only (
          punches_from_payload chrono server.naive_local server.in_local_zone server.minus
            message.payload today)
      else err (wrong_port host_info.name)
  serial_punches (some (encrypted _)) host_info today = err (wrong_port host_info.name)
  serial_punches none host_info today = err (wrong_port host_info.name)

  abbrev pub host_of : ℕ → MessageHandler server → HostInfo
  host_of from self = record {
    name = resolve server self (meshtastic from);
    mac_address = meshtastic from;
  }

  unfoldable pub msh_serial_msg :
      List ℕ
      → times.Time
      → chrono.Date
      → Exec (MessageHandler server) IoError (List (SiPunchLog server))
  msh_serial_msg payload now today = do
    service_envelope ← lift (ok_or decoding (server.decode_envelope payload))
    packet ← lift (ok_or missing_packet service_envelope.packet)
    host_info ← gets (host_of packet.from)
    punches ← lift (serial_punches packet.payload_variant host_info today)
    msh_roc_status server host_info (collect_punches host_info now punches)

  unfoldable pub meshtastic_serial_msg_py :
      List ℕ
      → times.Time
      → chrono.Date
      → Exec (MessageHandler server) PyErr (List (SiPunchLog server))
  meshtastic_serial_msg_py payload now today =
      with_error os_error (msh_serial_msg payload now today)
