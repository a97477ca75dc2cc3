-- ===== src/Python/Handler/Valid.antt =====
-- python/src/message_handler.rs: what holds of the handler's maps whatever it is sent.
use yaroc.Prelude.{ℕ, ◌≡◌, Option, none, some, List, [], ◌∷◌, All, arith}
use yaroc.Prelude.Dict as Dict
use yaroc.Prelude.Dict.{with_entry-All, with_entry-NoRepeats}
use yaroc.Prelude.Exec.{Exec, continue-keeps}
use yaroc.Prelude.Result.{Result, ok, err, panic}
use yaroc.Prelude.Text.{Text}
use yaroc.Error.{Error}
use yaroc.Python.Addresses.{mac_eq}
use yaroc.Python.Handler.{
  read_entries, SiPunch, SiPunchLog, CellularRocStatus, MeshtasticRocStatus, MessageHandler,
  construct_punch,
}
use yaroc.Python.Handler.Cellular as Cellular
use yaroc.Python.Handler.Mesh as Mesh
use yaroc.Python.Meshtastic.{resolve_in, MshLogMessage}
use yaroc.Python.Logs.{CellularLogMessage, mch, disconnected, device_event}
use yaroc.Python.Punches.{MacAddress, full, meshtastic, HostInfo, IoError}
use yaroc.Python.Server.{Server}
use yaroc.Python.Status as Status
use yaroc.Python.Status.Codes.{NoRepeats, insert-NoRepeats}

abbrev pub IsFull : MacAddress → Type 0
IsFull (full _) = Unit
IsFull (meshtastic _) = ⊥

abbrev pub IsMeshtastic : MacAddress → Type 0
IsMeshtastic (full _) = ⊥
IsMeshtastic (meshtastic _) = Unit

module _ (server : Server) where
  open server use {F32, F64, times, chrono}

  -- A status has the name of its address, and each of its codes once.
  abbrev pub Known : List (MacAddress × Text) → MacAddress → Text → List ℕ → Type 0
  Known dns mac_addr name codes = (name ≡ resolve_in dns mac_addr) × NoRepeats codes

  pub record IsValid (entries : List (Text × Text)) (self : MessageHandler server) : Type 0 where
    pub configured : read_entries [] entries ≡ ok self.dns
    pub cellular_keys : Dict.NoRepeats self.cellular_statuses
    pub meshtastic_keys : Dict.NoRepeats self.meshtastic_statuses
    pub cellular :
        All
          (λ entry. IsFull entry.0 × Known self.dns entry.0 entry.1.name entry.1.codes)
          self.cellular_statuses
    pub meshtastic :
        All
          (λ entry. IsMeshtastic entry.0 × Known self.dns entry.0 entry.1.name entry.1.codes)
          self.meshtastic_statuses

  module _ (dns : List (MacAddress × Text)) (mac_addr : MacAddress) where
    abbrev pub KnownCellular : CellularRocStatus server → Type 0
    KnownCellular status = Known dns mac_addr status.name status.codes

    abbrev pub KnownMeshtastic : MeshtasticRocStatus server → Type 0
    KnownMeshtastic status = Known dns mac_addr status.name status.codes

    keep_punch-Known :
        (log : Result IoError (SiPunchLog server))
        (rest : Exec (CellularRocStatus server) Error (List (SiPunchLog server)))
        → ((status : CellularRocStatus server)
            → KnownCellular status
            → KnownCellular (rest status).1)
        → (status : CellularRocStatus server) → KnownCellular status
        → KnownCellular (Cellular.keep_punch server log rest status).1
    unfolding Status.cellular_punch
    keep_punch-Known panic rest keeps status h = h
    keep_punch-Known (err e) rest keeps status h = keeps status h
    keep_punch-Known (ok log) rest keeps status h =
        let seen =
          Status.cellular_punch times.Time F32 F64 (Cellular.seen server log.punch) status in
        let known = keeps seen (h.0, insert-NoRepeats log.punch.code status.codes h.1) in
        continue-keeps KnownCellular (rest seen).0 _ (rest seen).1 known (λ logs. known)

    pub collect_punches-Known :
        (host_info : HostInfo) (now : times.Time) (today : chrono.Date)
        (items : List (Option (List ℕ))) (status : CellularRocStatus server)
        → KnownCellular status
        → KnownCellular (Cellular.collect_punches server host_info now today items status).1
    unfolding Cellular.collect_punches
    collect_punches-Known host_info now today [] status h = h
    collect_punches-Known host_info now today (none ∷ items) status h =
        collect_punches-Known host_info now today items status h
    collect_punches-Known host_info now today (some raw ∷ items) status h =
        keep_punch-Known (construct_punch server raw host_info now today) _
          (collect_punches-Known host_info now today items) status h

    pub log_status-Known :
        (changed : times.Time)
        (log : CellularLogMessage times F32 server.timestamp_millis_opt server.minus)
        (status : CellularRocStatus server)
        → KnownCellular status
        → KnownCellular (Cellular.log_status server changed log status)
    unfolding Cellular.log_status Status.disconnect Status.mqtt_connect_update Status.update_voltage
    log_status-Known changed (mch log) status h = ground arith
    log_status-Known changed (disconnected host client) status h = h
    log_status-Known changed (device_event host port added) status h = h

    msh_keep_punch-Known :
        (host_info : HostInfo) (now : times.Time) (punch : Result IoError (SiPunch server))
        (rest : Exec (MeshtasticRocStatus server) IoError (List (SiPunchLog server)))
        → ((status : MeshtasticRocStatus server)
            → KnownMeshtastic status
            → KnownMeshtastic (rest status).1)
        → (status : MeshtasticRocStatus server) → KnownMeshtastic status
        → KnownMeshtastic (Mesh.keep_punch server host_info now punch rest status).1
    unfolding Status.meshtastic_punch
    msh_keep_punch-Known host_info now panic rest keeps status h = h
    msh_keep_punch-Known host_info now (err e) rest keeps status h = keeps status h
    msh_keep_punch-Known host_info now (ok punch) rest keeps status h =
        let seen = Status.meshtastic_punch times.Time F32 F64 (Mesh.seen server punch) status in
        let known = keeps seen (h.0, insert-NoRepeats punch.code status.codes h.1) in
        continue-keeps KnownMeshtastic (rest seen).0 _ (rest seen).1 known (λ logs. known)

    pub msh_collect_punches-Known :
        (host_info : HostInfo) (now : times.Time) (punches : List (Result IoError (SiPunch server)))
        (status : MeshtasticRocStatus server)
        → KnownMeshtastic status
        → KnownMeshtastic (Mesh.collect_punches server host_info now punches status).1
    unfolding Mesh.collect_punches
    msh_collect_punches-Known host_info now [] status h = h
    msh_collect_punches-Known host_info now (punch ∷ punches) status h =
        msh_keep_punch-Known host_info now punch _ (msh_collect_punches-Known host_info now punches)
          status h

    pub msh_log_status-Known :
        (changed signal_changed : times.Time) (log : MshLogMessage server)
        (status : MeshtasticRocStatus server)
        → KnownMeshtastic status
        → KnownMeshtastic (Mesh.log_status server changed signal_changed log status)
    unfolding Mesh.log_status Status.update_battery Status.update_rssi_snr Status.clear_rssi_snr
    msh_log_status-Known changed signal_changed log status h = ground arith
