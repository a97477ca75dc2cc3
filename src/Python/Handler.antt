-- ===== src/Python/Handler.antt =====
-- python/src/message_handler.rs: the state of the message handler, the names of the nodes, and what is
-- shown of them. Its methods are in Cellular and Mesh. `entry(…).or_insert(…)` gives a reference into
-- the map; what is done with it is an argument here, and its outcome is put back.
pub mod Cellular
pub mod Mesh
pub mod Shown
pub mod Requests
pub mod Valid
pub mod Reachable
pub mod Table
pub mod Failures
pub mod Names
pub mod Positions
pub mod Reports
pub mod Tests
use yaroc.Prelude.{ℕ, Option, none, some, List, [], ◌∷◌, ◌++◌, map, length, ◌==◌, if◌then◌else◌}
use yaroc.Prelude.Dict.{get, insert, values, with_entry}
use yaroc.Prelude.Exec.{Exec, convert}
use yaroc.Prelude.Numbers.{parse_unsigned}
use yaroc.Prelude.Result.{Result, ok, err, panic, ◌>>=◌, ok_or}
use yaroc.Prelude.Sorting.{sort_by}
use yaroc.Prelude.Text.{Text}
use yaroc.Error.{Error, parse_error, value_error}
use yaroc.Python.Addresses.{mac_eq}
use yaroc.Python.Meshtastic.{PositionName, resolve_in}
use yaroc.Python.Punches as Punches
use yaroc.Python.Punches.{
  MacAddress, full, meshtastic, HostInfo, IoError, wrong_length, log_from_raw,
}
use yaroc.Python.Server.{Server}
use yaroc.Python.Status as Status

-- The exceptions of Python that the methods end in.
pub data PyErr : Type 0 where
  wrong_value unknown_error : PyErr
  os_error : IoError → PyErr

-- An address is of 8 or of 12 hexadecimal digits.
pub read_entry : Text × Text → Result Error (MacAddress × Text)
read_entry (mac, name) =
    if length mac == 8
    then (ok_or parse_error (parse_unsigned 16 4_294_967_296 mac) >>= λ n. ok (meshtastic n, name))
    else if length mac == 12
    then (ok_or parse_error (parse_unsigned 16 18_446_744_073_709_551_616 mac) >>= λ n.
        ok (full n, name))
    else err value_error

-- `collect` of a map: the first error ends it, and a later entry replaces one of the same address.
unfoldable pub read_entries :
    List (MacAddress × Text) → List (Text × Text) → Result Error (List (MacAddress × Text))
unfolding insert
read_entries dns [] = ok dns
read_entries dns (entry ∷ entries) = do
  resolved ← read_entry entry
  read_entries (insert resolved.0 resolved.1 dns) entries

-- `SiPunchLog::from_raw` and `SiPunch::punches_from_payload` give no error, but may panic.
abbrev pub panics_only : {E A : Type 0} → Result Error A → Result E A
panics_only (ok a) = ok a
panics_only _ = panic

module _ (server : Server) where
  open server use {F32, F64, times}

  abbrev pub SiPunch : Type 0
  SiPunch = Punches.SiPunch server.chrono server.naive_local server.in_local_zone server.minus

  abbrev pub SiPunchLog : Type 0
  SiPunchLog = Punches.SiPunchLog server.chrono server.naive_local server.in_local_zone server.minus

  abbrev pub CellularRocStatus : Type 0
  CellularRocStatus = Status.CellularRocStatus times.Time F32 F64

  abbrev pub MeshtasticRocStatus : Type 0
  MeshtasticRocStatus = Status.MeshtasticRocStatus times.Time F32 F64

  abbrev pub NodeInfo : Type 0
  NodeInfo = Status.NodeInfo times.Time F32 F64

  pub record MessageHandler : Type 0 where
    pub dns : List (MacAddress × Text)
    pub cellular_statuses : List (MacAddress × CellularRocStatus)
    pub meshtastic_statuses : List (MacAddress × MeshtasticRocStatus)

  pub new : List (Text × Text) → Result Error MessageHandler
  new entries = do
    dns ← read_entries [] entries
    ok (record { dns = dns; cellular_statuses = []; meshtastic_statuses = [] })

  abbrev pub py_error : Error → PyErr
  py_error parse_error = wrong_value
  py_error value_error = wrong_value
  py_error _ = unknown_error

  pub new_py : List (Text × Text) → Result PyErr MessageHandler
  new_py entries = convert py_error (new entries)

  pub resolve : MessageHandler → MacAddress → Text
  resolve self mac_addr = resolve_in self.dns mac_addr

  -- `get_cellular_status` and `msh_roc_status`.
  pub get_cellular_status :
      {E A : Type 0} → MacAddress → Exec CellularRocStatus E A → Exec MessageHandler E A
  get_cellular_status mac_addr body self =
      let status = Status.new_cellular times.Time F32 F64 (resolve self mac_addr) in
      let done = with_entry mac_addr status body self.cellular_statuses in
      (done.0, record self { cellular_statuses = done.1 })

  pub msh_roc_status :
      {E A : Type 0} → HostInfo → Exec MeshtasticRocStatus E A → Exec MessageHandler E A
  msh_roc_status host_info body self =
      let status = Status.new_meshtastic times.Time F32 F64 host_info.name in
      let done = with_entry host_info.mac_address status body self.meshtastic_statuses in
      (done.0, record self { meshtastic_statuses = done.1 })

  abbrev pub position_name_of : Option MeshtasticRocStatus → Option (PositionName server)
  position_name_of none = none
  position_name_of (some status) =
      Status.mapped (λ position. Status.new_position_name times.Time F32 F64 position status.name)
        status.position

  pub get_position_name : MessageHandler → MacAddress → Option (PositionName server)
  get_position_name self mac_address = position_name_of (get mac_address self.meshtastic_statuses)

  pub construct_punch :
      List ℕ → HostInfo → times.Time → server.chrono.Date → Result IoError SiPunchLog
  construct_punch payload host_info now today =
      if length payload == 20
      then panics_only (
          log_from_raw server.chrono server.naive_local server.in_local_zone server.minus payload
            host_info now today)
      else err (wrong_length (length payload))

  abbrev pub name_of : NodeInfo → Text
  name_of info = info.name

  -- What is shown of the nodes, those of Meshtastic first, before it is sorted.
  abbrev pub unsorted_infos : MessageHandler → List NodeInfo
  unsorted_infos self =
      map (Status.serialize_meshtastic times.Time F32 F64) (values self.meshtastic_statuses)
      ++ map (Status.serialize_cellular times.Time F32 F64 server.by_ten)
          (values self.cellular_statuses)

  pub node_infos : MessageHandler → List NodeInfo
  node_infos self = sort_by name_of (unsorted_infos self)
