-- ===== src/Python/Handler/Reports.antt =====
-- The messages of a cellular node in python/src/message_handler.rs: its punches, and its reports.
pub mod Items
use yaroc.Prelude.{ℕ, ltb, ◌≡◌, refl, ap, ◌∙◌, arith, true, false, ◌==◌, ==_iff}
use yaroc.Prelude.{Option, none, some, List, [], ◌∷◌, map, length, All, if◌then◌else◌}
use yaroc.Prelude.Dict.{get, get-with_entry_same, or_else, with_entry}
use yaroc.Prelude.Exec.{Exec, convert, modify}
use yaroc.Prelude.Int.{pos}
use yaroc.Prelude.Result.{Result, ok, err}
use yaroc.Error.{Error}
use yaroc.Status.{MiniCallHome, or_default, to_proto}
use yaroc.Python.Addresses.{mac_eq}
use yaroc.Python.Handler.{
  wrong_value, SiPunch, SiPunchLog, CellularRocStatus, MessageHandler, resolve, get_cellular_status,
  construct_punch,
}
use yaroc.Python.Handler.Cellular as Cellular
use yaroc.Python.Handler.Table.{logs_of, answer_of, any_panic, made_of, seen_in}
use yaroc.Python.Handler.Table.Loops.{collect_punches-Collects}
use yaroc.Python.Logs as Logs
use yaroc.Python.Logs.Report.{IsReport, shown, from_proto-to_proto}
use yaroc.Python.Punches.{full, HostInfo, IoError, new_host, wrong_length, new_log, log_from_raw}
use yaroc.Python.Punches.Payloads.{Reads}
use yaroc.Python.Server.{Server}
use yaroc.Python.Status as Status
use yaroc.Python.Status.Codes.{after}
use yaroc.Python.Handler.Reports.Items.{Item, raw_of, IsItem, logs_in, made_of-logs_in}

cell_kept : (cell : ℕ) → or_else 0 (if ltb 0 cell then some cell else none) ≡ cell
cell_kept cell = ground arith

module _ (server : Server) where
  open server use {F32, F64, times, chrono}

  abbrev pub status_before : MessageHandler server → ℕ → CellularRocStatus server
  status_before self mac =
      or_else (Status.new_cellular times.Time F32 F64 (resolve server self (full mac)))
        (get (full mac) self.cellular_statuses)

  -- The status with a report.
  abbrev pub reported :
      MiniCallHome times F32 → times.Time → CellularRocStatus server → CellularRocStatus server
  reported report changed status = record {
    name = status.name;
    state =
        Status.mqtt_connected (or_default times F32 (pos 0) report.rssi_dbm)
          (or_default times F32 0 report.cellid)
          (some (or_default times F32 (pos 0) report.snr_cb));
    voltage = some (server.volts (or_default times F32 0 report.batt_mv));
    codes = status.codes;
    last_update = some changed;
    last_punch = status.last_punch;
  }

  get-get_cellular_status :
      {E A : Type 0} (mac : ℕ) (body : Exec (CellularRocStatus server) E A)
      (self : MessageHandler server)
      → let done = get_cellular_status server (full mac) body self in
        (done.0 ≡ (body (status_before self mac)).0)
        × (get (full mac) done.1.cellular_statuses ≡ some (body (status_before self mac)).1)
  unfolding get_cellular_status with_entry
  get-get_cellular_status mac body self = (
    refl,
    get-with_entry_same (full mac)
        (Status.new_cellular times.Time F32 F64 (resolve server self (full mac))) body
        self.cellular_statuses,
  )

  punches_decoded :
      (payload : List ℕ) (mac : ℕ) (now : times.Time) (today : chrono.Date)
      (items : List (Option (List ℕ))) (self : MessageHandler server)
      → server.decode_punches payload ≡ some items
      → Cellular.punches server payload mac now today self
        ≡ get_cellular_status server
            (full mac)
            (Cellular.collect_punches server
              (new_host (resolve server self (full mac)) mac)
              now
              today
              items)
            self
  unfolding Cellular.punches
  punches_decoded payload mac now today items self decodes = rw decodes refl

  answer_safe :
      (made : List (Result IoError (SiPunchLog server))) (logs : List (SiPunchLog server))
      → any_panic server made ≡ false
      → logs_of server made ≡ logs
      → answer_of server {E = Error} made ≡ ok logs
  answer_safe made logs safe found = rw (safe, found) refl

  -- The punches of a message are answered by their logs, in order; those that were not decoded or have
  -- a wrong length are left out. The status of the node, a new one if there is none, has seen them.
  pub punches_py-raw_of :
      (payload : List ℕ) (mac : ℕ) (now : times.Time) (today : chrono.Date)
      (items : List (Item server)) (self : MessageHandler server)
      → server.decode_punches payload ≡ some (map (raw_of server) items)
      → All (IsItem server today) items
      → let logs = logs_in server (new_host (resolve server self (full mac)) mac) now items in
        let done = Cellular.punches_py server payload mac now today self in
        (done.0 ≡ ok logs)
        × (get (full mac) done.1.cellular_statuses
            ≡ some (after times.Time F32 F64 (map (seen_in server) logs) (status_before self mac)))
  unfolding Cellular.punches_py
  punches_py-raw_of payload mac now today items self decodes h =
      let host_info = new_host (resolve server self (full mac)) mac in
      let body = Cellular.collect_punches server host_info now today (map (raw_of server) items) in
      let (safe, logs) = made_of-logs_in server host_info now today items h in
      let (answers, leaves) = get-get_cellular_status mac body self in
      let (collects, seen) =
        collect_punches-Collects server host_info now today (map (raw_of server) items)
          (status_before self mac) in
      let same = punches_decoded payload mac now today (map (raw_of server) items) self decodes in
      (
        ap (convert (λ _. wrong_value)) (
            ap (λ done. done.0) same
            ∙ answers
            ∙ collects
            ∙ answer_safe (made_of server host_info now today (map (raw_of server) items))
                (logs_in server host_info now items) safe logs),
        ap (λ done. get (full mac) done.1.cellular_statuses) same
            ∙ leaves
            ∙ ap some (
                seen
                ∙ ap
                    (λ logs.
                      after times.Time F32 F64 (map (seen_in server) logs) (status_before self mac))
                    logs),
      )

  status_decoded :
      (payload : List ℕ) (mac : ℕ) (now changed : times.Time) (self : MessageHandler server)
      (msg : Option (Logs.Msg times F32 server.timestamp_millis_opt server.minus))
      (log : Logs.CellularLogMessage times F32 server.timestamp_millis_opt server.minus)
      → server.decode_status payload ≡ some msg
      → Logs.from_proto times F32 server.timestamp_millis_opt server.minus msg
          (full mac)
          (resolve server self (full mac))
          now
        ≡ ok log
      → Cellular.status_update server payload mac now changed self
        ≡ get_cellular_status server
            (full mac)
            (modify (Cellular.log_status server changed log))
            self
  unfolding Cellular.status_update
  status_decoded payload mac now changed self msg log decodes reads = rw (decodes, reads) refl

  log_status-reported :
      (report : MiniCallHome times F32) (zero_f : F32) (host_info : HostInfo)
      (latency : server.Duration) (changed : times.Time) (status : CellularRocStatus server)
      → Cellular.log_status server changed
          (Logs.mch (record {
            mini_call_home = shown times F32 server.timestamp_millis_opt server.minus zero_f report;
            host_info = host_info;
            latency = latency;
          }))
          status
        ≡ reported report changed status
  unfolding Cellular.log_status Status.mqtt_connect_update Status.update_voltage
  log_status-reported report zero_f host_info latency changed status =
      ap
        (λ cell. record (reported report changed status) {
          state =
              Status.mqtt_connected (or_default times F32 (pos 0) report.rssi_dbm) cell
                (some (or_default times F32 (pos 0) report.snr_cb));
        })
        (cell_kept (or_default times F32 0 report.cellid))

  -- A mini call home that the firmware sends sets the status of its node: it is connected, with the
  -- signal and the cell of the report, 0 where the firmware does not know them, and has the voltage of
  -- its battery; its name, codes and last punch stay.
  pub status_update-to_proto :
      (payload : List ℕ) (mac : ℕ) (now changed : times.Time) (self : MessageHandler server)
      (zero_f : F32) (report : MiniCallHome times F32)
      → IsReport times F32 server.timestamp_millis_opt server.minus zero_f report
      → server.decode_status payload
        ≡ some (some (Logs.mini_call_home (to_proto times F32 zero_f report)))
      → let done = Cellular.status_update server payload mac now changed self in
        (done.0 ≡ ok tt)
        × (get (full mac) done.1.cellular_statuses
            ≡ some (reported report changed (status_before self mac)))
  status_update-to_proto payload mac now changed self zero_f report h decodes =
      let name = resolve server self (full mac) in
      let reads =
        from_proto-to_proto times F32 server.timestamp_millis_opt server.minus zero_f report
          (full mac) name now h in
      let same = status_decoded payload mac now changed self _ _ decodes reads in
      let (answers, leaves) = get-get_cellular_status mac _ self in
      (
        ap (λ done. done.0) same ∙ answers,
        ap (λ done. get (full mac) done.1.cellular_statuses) same
            ∙ leaves
            ∙ ap some (log_status-reported report zero_f _ _ changed (status_before self mac)),
      )
