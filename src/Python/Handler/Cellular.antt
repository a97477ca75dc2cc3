-- ===== src/Python/Handler/Cellular.antt =====
-- python/src/message_handler.rs: the messages of the cellular nodes. What a method reads of the clock is
-- an argument: `now`, the day of it, and the time at which a status is changed.
use yaroc.Prelude.{ℕ, Option, none, some, List, [], ◌∷◌}
use yaroc.Prelude.Dict.{or_else}
use yaroc.Prelude.Exec.{Exec, pure, lift, gets, modify, convert, with_error, ◌>>=◌, ◌>>◌}
use yaroc.Prelude.Result.{Result, ok, err, panic, ok_or}
use yaroc.Prelude.Text.{Text}
use yaroc.Error.{Error, parse_error}
use yaroc.Status.{MiniCallHome}
use yaroc.Python.Handler.{
  PyErr, wrong_value, construct_punch, SiPunch, SiPunchLog, CellularRocStatus, MessageHandler,
  resolve, get_cellular_status,
}
use yaroc.Python.Logs.{Msg, CellularLogMessage, mch, disconnected, device_event, from_proto}
use yaroc.Python.Punches.{full, HostInfo, new_host, IoError}
use yaroc.Python.Server.{Server}
use yaroc.Python.Status as Status

module _ (server : Server) where
  open server use {F32, F64, times, chrono}

  -- What a status uses of a punch.
  abbrev pub seen : SiPunch server → Status.Punch times.Time F32 F64
  seen punch = record { code = punch.code; time = punch.time }

  -- A punch that is made is kept, and an error is only logged.
  abbrev pub keep_punch :
      Result IoError (SiPunchLog server)
      → Exec (CellularRocStatus server) Error (List (SiPunchLog server))
      → Exec (CellularRocStatus server) Error (List (SiPunchLog server))
  keep_punch panic rest = lift panic
  keep_punch (err _) rest = rest
  keep_punch (ok log) rest = do
    modify (Status.cellular_punch times.Time F32 F64 (seen log.punch))
    logs ← rest
    pure (log ∷ logs)

  -- The loop; a punch that was not decoded is left out.
  unfoldable pub collect_punches :
      HostInfo
      → times.Time
      → chrono.Date
      → List (Option (List ℕ))
      → Exec (CellularRocStatus server) Error (List (SiPunchLog server))
  collect_punches host_info now today [] = pure []
  collect_punches host_info now today (none ∷ punches) = collect_punches host_info now today punches
  collect_punches host_info now today (some raw ∷ punches) =
      keep_punch (construct_punch server raw host_info now today)
        (collect_punches host_info now today punches)

  unfoldable pub punches :
      List ℕ
      → ℕ
      → times.Time
      → chrono.Date
      → Exec (MessageHandler server) Error (List (SiPunchLog server))
  punches payload mac_address now today = do
    items ← lift (ok_or parse_error (server.decode_punches payload))
    name ← gets (λ self. resolve server self (full mac_address))
    get_cellular_status server (full mac_address)
        (collect_punches (new_host name mac_address) now today items)

  unfoldable pub punches_py :
      List ℕ
      → ℕ
      → times.Time
      → chrono.Date
      → Exec (MessageHandler server) PyErr (List (SiPunchLog server))
  punches_py payload mac_addr now today =
      with_error (λ _. wrong_value) (punches payload mac_addr now today)

  abbrev pub connect_update :
      times.Time → MiniCallHome times F32 → CellularRocStatus server → CellularRocStatus server
  connect_update changed call_home status = elim call_home.rssi_dbm [
    | none ↦ status
    | some rssi_dbm ↦
        Status.mqtt_connect_update times.Time F32 F64 changed rssi_dbm (or_else 0 call_home.cellid)
          call_home.snr_cb status
  ]

  abbrev pub voltage_update :
      MiniCallHome times F32 → CellularRocStatus server → CellularRocStatus server
  voltage_update call_home status = elim call_home.batt_mv [
    | none ↦ status
    | some batt_mv ↦ Status.update_voltage times.Time F32 F64 (server.volts batt_mv) status
  ]

  -- What a message changes in the status of its node.
  unfoldable pub log_status :
      times.Time
      → CellularLogMessage times F32 server.timestamp_millis_opt server.minus
      → CellularRocStatus server
      → CellularRocStatus server
  log_status changed (mch log) status =
      voltage_update log.mini_call_home (connect_update changed log.mini_call_home status)
  log_status changed (disconnected _ _) status = Status.disconnect times.Time F32 F64 changed status
  log_status changed (device_event _ _ _) status = status

  abbrev pub read_log :
      Option (Msg times F32 server.timestamp_millis_opt server.minus)
      → ℕ
      → Text
      → times.Time
      → Result PyErr (CellularLogMessage times F32 server.timestamp_millis_opt server.minus)
  read_log status_proto mac_addr hostname now =
      convert (λ _. wrong_value)
        (from_proto times F32 server.timestamp_millis_opt server.minus status_proto (full mac_addr)
          hostname now)

  unfoldable pub status_update :
      List ℕ → ℕ → times.Time → times.Time → Exec (MessageHandler server) PyErr (Unit {0})
  status_update payload mac_addr now changed = do
    status_proto ← lift (ok_or wrong_value (server.decode_status payload))
    hostname ← gets (λ self. resolve server self (full mac_addr))
    log_message ← lift (read_log status_proto mac_addr hostname now)
    get_cellular_status server (full mac_addr) (modify (log_status changed log_message))
