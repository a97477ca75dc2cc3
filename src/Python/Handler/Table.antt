-- ===== src/Python/Handler/Table.antt =====
-- python/src/message_handler.rs against what it promises: a table that gives the status of a node by its
-- address, with the effect of each message on it. The lists of the handler's maps are forgotten.
pub mod Loops
pub mod Steps
pub mod Methods
pub mod Refinement
use yaroc.Prelude.{
  ℕ, Bool, true, false, ◌||◌, Option, none, some, List, [], ◌∷◌, map, if◌then◌else◌,
}
use yaroc.Prelude.Dict.{get, or_else}
use yaroc.Prelude.Result.{Result, ok, err, panic, ok_or, ◌>>=◌}
use yaroc.Prelude.Exec.{convert}
use yaroc.Prelude.Text.{Text}
use yaroc.Error.{Error}
use yaroc.Python.Addresses.{mac_beq, mac_eq}
use yaroc.Python.Handler.{
  PyErr, wrong_value, os_error, SiPunch, SiPunchLog, CellularRocStatus, MeshtasticRocStatus,
  MessageHandler, construct_punch, position_name_of,
}
use yaroc.Python.Handler.Cellular as Cellular
use yaroc.Python.Handler.Mesh as Mesh
use yaroc.Python.Handler.Requests.{Request, ask_punches, ask_status, ask_msh_status, ask_serial}
use yaroc.Python.Meshtastic.{resolve_in, from_mesh_packet, PositionName}
use yaroc.Python.Punches.{
  MacAddress, full, meshtastic, HostInfo, IoError, new_log, decoding, missing_packet,
}
use yaroc.Python.Server.{Server}
use yaroc.Python.Status as Status
use yaroc.Python.Status.Codes.{after}

-- The table in which the value at an address, or a new one, is changed.
abbrev pub changed_at :
    {V : Type 0} → MacAddress → V → (V → V) → (MacAddress → Option V) → MacAddress → Option V
changed_at mac_addr fresh f table other =
    if mac_beq mac_addr other then some (f (or_else fresh (table mac_addr))) else table other

module _ (server : Server) where
  open server use {F32, F64, times, chrono}

  pub record Table : Type 0 where
    pub dns : List (MacAddress × Text)
    pub cellular : MacAddress → Option (CellularRocStatus server)
    pub meshtastic : MacAddress → Option (MeshtasticRocStatus server)

  abbrev pub view : MessageHandler server → Table
  view self = record {
    dns = self.dns;
    cellular = λ mac_addr. get mac_addr self.cellular_statuses;
    meshtastic = λ mac_addr. get mac_addr self.meshtastic_statuses;
  }

  -- The logs of a message: of each punch that is read, up to the first that panics.
  abbrev pub logs_of : List (Result IoError (SiPunchLog server)) → List (SiPunchLog server)
  logs_of [] = []
  logs_of (ok log ∷ made) = log ∷ logs_of made
  logs_of (err _ ∷ made) = logs_of made
  logs_of (panic ∷ made) = []

  abbrev pub is_panic : {E A : Type 0} → Result E A → Bool
  is_panic panic = true
  is_panic _ = false

  abbrev pub any_panic : List (Result IoError (SiPunchLog server)) → Bool
  any_panic [] = false
  any_panic (result ∷ made) = is_panic result || any_panic made

  -- The logs are the answer, if none panics.
  abbrev pub answer_of :
      {E : Type 0} → List (Result IoError (SiPunchLog server)) → Result E (List (SiPunchLog server))
  answer_of made = if any_panic made then panic else ok (logs_of made)

  -- Those that are decoded, and what is made of them.
  unfoldable pub made_of :
      HostInfo
      → times.Time
      → chrono.Date
      → List (Option (List ℕ))
      → List (Result IoError (SiPunchLog server))
  made_of host_info now today [] = []
  made_of host_info now today (none ∷ items) = made_of host_info now today items
  made_of host_info now today (some raw ∷ items) =
      construct_punch server raw host_info now today ∷ made_of host_info now today items

  -- A punch as a log.
  abbrev pub with_log :
      HostInfo → times.Time → Result IoError (SiPunch server) → Result IoError (SiPunchLog server)
  with_log host_info now (ok punch) =
      ok (new_log chrono server.naive_local server.in_local_zone server.minus punch host_info now)
  with_log host_info now (err e) = err e
  with_log host_info now panic = panic

  abbrev pub seen_in : SiPunchLog server → Status.Punch times.Time F32 F64
  seen_in log = Cellular.seen server log.punch

  -- The status after the punches, the first of them first.
  abbrev pub msh_after :
      List (SiPunchLog server) → MeshtasticRocStatus server → MeshtasticRocStatus server
  msh_after [] status = status
  msh_after (log ∷ logs) status =
      msh_after logs (Status.meshtastic_punch times.Time F32 F64 (seen_in log) status)

  abbrev pub cellular_at : ℕ → (CellularRocStatus server → CellularRocStatus server) → Table → Table
  cellular_at mac f table = record {
    dns = table.dns;
    cellular =
        changed_at (full mac)
          (Status.new_cellular times.Time F32 F64 (resolve_in table.dns (full mac))) f
          table.cellular;
    meshtastic = table.meshtastic;
  }

  abbrev pub meshtastic_at :
      HostInfo → (MeshtasticRocStatus server → MeshtasticRocStatus server) → Table → Table
  meshtastic_at host_info f table = record {
    dns = table.dns;
    cellular = table.cellular;
    meshtastic =
        changed_at host_info.mac_address (Status.new_meshtastic times.Time F32 F64 host_info.name) f
          table.meshtastic;
  }

  -- Where a receiver is, by the table.
  abbrev pub position_in : Option ℕ → Table → Option (PositionName server)
  position_in none table = none
  position_in (some mac) table = position_name_of server (table.meshtastic (meshtastic mac))

  abbrev pub on_ok : {E A : Type 0} → Result E A → (A → Table → Table) → Table → Table
  on_ok (ok a) f table = f a table
  on_ok _ f table = table

  abbrev pub on_some : {A : Type 0} → Option A → (A → Table → Table) → Table → Table
  on_some (some a) f table = f a table
  on_some none f table = table

  abbrev pub host_in : Table → MacAddress → HostInfo
  host_in table mac_addr = record { name = resolve_in table.dns mac_addr; mac_address = mac_addr }

  -- The effect of a message on the table.
  abbrev pub effect : Request server → Table → Table
  effect (ask_punches payload mac now today) table =
      on_some (server.decode_punches payload)
        (λ items. cellular_at mac (
          after times.Time F32 F64
            (map seen_in (logs_of (made_of (host_in table (full mac)) now today items)))))
        table
  effect (ask_status payload mac now changed) table =
      on_some (server.decode_status payload)
        (λ status_proto.
          on_ok (Cellular.read_log server status_proto mac (resolve_in table.dns (full mac)) now)
            (λ log. cellular_at mac (Cellular.log_status server changed log)))
        table
  effect (ask_msh_status payload now recv_mac changed signal_changed) table =
      on_ok (from_mesh_packet server payload now table.dns (position_in recv_mac table))
        (λ found.
          on_some found (λ log.
            meshtastic_at log.host_info (Mesh.log_status server changed signal_changed log)))
        table
  effect (ask_serial payload now today) table =
      on_some (server.decode_envelope payload)
        (λ envelope. on_some envelope.packet (λ packet.
          let host_info = host_in table (meshtastic packet.from) in
          on_ok (Mesh.serial_punches server packet.payload_variant host_info today) (λ punches.
            meshtastic_at host_info (msh_after (logs_of (map (with_log host_info now) punches))))))
        table

  -- What comes of a message, by the table.
  abbrev pub answer : Request server → Table → Result PyErr (List (SiPunchLog server))
  answer (ask_punches payload mac now today) table =
      ok_or wrong_value (server.decode_punches payload) >>= λ items.
      answer_of (made_of (host_in table (full mac)) now today items)
  answer (ask_status payload mac now changed) table =
      ok_or wrong_value (server.decode_status payload) >>= λ status_proto.
      Cellular.read_log server status_proto mac (resolve_in table.dns (full mac)) now >>= λ _. ok []
  answer (ask_msh_status payload now recv_mac changed signal_changed) table =
      if is_panic (from_mesh_packet server payload now table.dns (position_in recv_mac table))
      then panic
      else ok []
  answer (ask_serial payload now today) table =
      ok_or (os_error decoding) (server.decode_envelope payload) >>= λ envelope.
      ok_or (os_error missing_packet) envelope.packet >>= λ packet.
      let host_info = host_in table (meshtastic packet.from) in
      convert os_error (Mesh.serial_punches server packet.payload_variant host_info today)
      >>= λ punches. answer_of (map (with_log host_info now) punches)
