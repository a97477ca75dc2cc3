-- ===== src/Python/Handler/Reachable.antt =====
-- python/src/message_handler.rs: what holds of every state of the handler.
use yaroc.Prelude.{ℕ, ◌≡◌, refl, subst, Option, none, some, List, [], arith}
use yaroc.Prelude.Dict.{with_entry-All, with_entry-NoRepeats}
use yaroc.Prelude.Exec.{Exec, continue-keeps, >>-pure-keeps, with_error}
use yaroc.Prelude.Result.{Result, ok, err, panic, ok_or, >>=-eq-ok, ok_injective}
use yaroc.Prelude.Text.{Text}
use yaroc.Error.{parse_error}
use yaroc.Python.Addresses.{mac_eq}
use yaroc.Python.Handler.{
  CellularRocStatus, MeshtasticRocStatus, MessageHandler, read_entries, resolve, new,
  get_cellular_status, msh_roc_status, wrong_value, os_error,
}
use yaroc.Python.Handler.Cellular as Cellular
use yaroc.Python.Handler.Mesh as Mesh
use yaroc.Python.Handler.Requests.{
  Request, ask_punches, ask_status, ask_msh_status, ask_serial, handle, handled, Reached, started,
  next,
}
use yaroc.Python.Handler.Valid.{
  IsFull, IsMeshtastic, KnownCellular, KnownMeshtastic, IsValid, collect_punches-Known,
  log_status-Known, msh_collect_punches-Known, msh_log_status-Known,
}
use yaroc.Python.Meshtastic.{
  resolve_in, MshLogMessage, PositionName, from_mesh_packet, parse_inner, log_message,
}
use yaroc.Python.Punches.{MacAddress, full, meshtastic, HostInfo, IoError, decoding, missing_packet}
use yaroc.Python.Server.{Server}
use yaroc.Python.Status as Status

module _ (server : Server) where
  open server use {F32, F64, times, chrono}

  module _ (entries : List (Text × Text)) where
    get_cellular_status-IsValid :
        {E A : Type 0} (self : MessageHandler server) (mac_addr : MacAddress)
        (body : Exec (CellularRocStatus server) E A)
        → IsFull mac_addr
        → ((status : CellularRocStatus server)
            → KnownCellular server self.dns mac_addr status
            → KnownCellular server self.dns mac_addr (body status).1)
        → IsValid server entries self
        → IsValid server entries (get_cellular_status server mac_addr body self).1
    unfolding get_cellular_status resolve Status.new_cellular
    get_cellular_status-IsValid self mac_addr body kind keeps h =
        let status = Status.new_cellular times.Time F32 F64 (resolve server self mac_addr) in
        record {
          configured = h.configured;
          meshtastic_keys = h.meshtastic_keys;
          meshtastic = h.meshtastic;
          cellular_keys =
              with_entry-NoRepeats mac_addr status body self.cellular_statuses h.cellular_keys;
          cellular =
              with_entry-All
                (λ entry. IsFull entry.0 × KnownCellular server self.dns entry.0 entry.1) mac_addr
                status body self.cellular_statuses (kind, (refl, tt)) (λ w k. (k.0, keeps w k.1))
                h.cellular;
        }

    msh_roc_status-IsValid :
        {E A : Type 0} (self : MessageHandler server) (host_info : HostInfo)
        (body : Exec (MeshtasticRocStatus server) E A)
        → IsMeshtastic host_info.mac_address
        → host_info.name ≡ resolve_in self.dns host_info.mac_address
        → ((status : MeshtasticRocStatus server)
            → KnownMeshtastic server self.dns host_info.mac_address status
            → KnownMeshtastic server self.dns host_info.mac_address (body status).1)
        → IsValid server entries self
        → IsValid server entries (msh_roc_status server host_info body self).1
    unfolding msh_roc_status resolve Status.new_meshtastic
    msh_roc_status-IsValid self host_info body kind named keeps h =
        let status = Status.new_meshtastic times.Time F32 F64 host_info.name in
        record {
          configured = h.configured;
          cellular_keys = h.cellular_keys;
          cellular = h.cellular;
          meshtastic_keys =
              with_entry-NoRepeats host_info.mac_address status body self.meshtastic_statuses
                h.meshtastic_keys;
          meshtastic =
              with_entry-All
                (λ entry. IsMeshtastic entry.0 × KnownMeshtastic server self.dns entry.0 entry.1)
                host_info.mac_address status body self.meshtastic_statuses (kind, (named, tt))
                (λ w k. (k.0, keeps w k.1)) h.meshtastic;
        }

    -- Only a packet that was decoded is logged, and its host is that of its address.
    LogIsNamed : List (MacAddress × Text) → Result IoError (Option (MshLogMessage server)) → Type 0
    LogIsNamed dns (ok (some log)) =
        IsMeshtastic log.host_info.mac_address
        × (log.host_info.name ≡ resolve_in dns log.host_info.mac_address)
    LogIsNamed dns _ = Unit

    log_update-IsValid :
        (changed signal_changed : times.Time) (self : MessageHandler server)
        (log : Result IoError (Option (MshLogMessage server)))
        → LogIsNamed self.dns log
        → IsValid server entries self
        → IsValid server entries (Mesh.log_update server changed signal_changed log self).1
    unfolding LogIsNamed
    log_update-IsValid changed signal_changed self panic named h = h
    log_update-IsValid changed signal_changed self (err e) named h = h
    log_update-IsValid changed signal_changed self (ok none) named h = h
    log_update-IsValid changed signal_changed self (ok (some log)) named h =
        msh_roc_status-IsValid self log.host_info _ named.0 named.1
          (msh_log_status-Known server self.dns log.host_info.mac_address changed signal_changed
            log)
          h

    from_mesh_packet-LogIsNamed :
        (payload : List ℕ) (now : times.Time) (dns : List (MacAddress × Text))
        (recv_position : Option (PositionName server))
        → LogIsNamed dns (from_mesh_packet server payload now dns recv_position)
    unfolding LogIsNamed from_mesh_packet parse_inner log_message
    from_mesh_packet-LogIsNamed payload now dns recv_position = ground arith

    status_update-IsValid :
        (payload : List ℕ) (mac_addr : ℕ) (now changed : times.Time) (self : MessageHandler server)
        → IsValid server entries self
        → IsValid server entries (Cellular.status_update server payload mac_addr now changed self).1
    unfolding Cellular.status_update
    status_update-IsValid payload mac_addr now changed self h =
        continue-keeps (IsValid server entries) (ok_or wrong_value (server.decode_status payload)) _
          self h
          (λ status_proto.
            continue-keeps (IsValid server entries)
              (Cellular.read_log server status_proto mac_addr (resolve server self (full mac_addr))
                now)
              _ self h
              (λ log.
                get_cellular_status-IsValid self (full mac_addr) _ tt
                  (log_status-Known server self.dns (full mac_addr) changed log) h))

    msh_status_update-IsValid :
        (payload : List ℕ) (now : times.Time) (recv_mac : Option ℕ)
        (changed signal_changed : times.Time) (self : MessageHandler server)
        → IsValid server entries self
        → IsValid server entries
            (Mesh.msh_status_update server payload now recv_mac changed signal_changed self).1
    unfolding Mesh.msh_status_update
    msh_status_update-IsValid payload now recv_mac changed signal_changed self h =
        let recv_position = Mesh.recv_position_of server recv_mac self in
        log_update-IsValid changed signal_changed self
          (from_mesh_packet server payload now self.dns recv_position)
          (from_mesh_packet-LogIsNamed payload now self.dns recv_position) h

    handle-IsValid :
        (request : Request server) (self : MessageHandler server)
        → IsValid server entries self
        → IsValid server entries (handle server request self).1
    unfolding handle Cellular.punches_py Cellular.punches Cellular.status_update resolve
        Mesh.msh_status_update Mesh.meshtastic_serial_msg_py Mesh.msh_serial_msg
    handle-IsValid (ask_punches payload mac_addr now today) self h =
        continue-keeps (IsValid server entries) (ok_or parse_error (server.decode_punches payload))
          _ self h
          (λ items.
            get_cellular_status-IsValid self (full mac_addr) _ tt
              (collect_punches-Known server self.dns (full mac_addr) _ now today items) h)
    handle-IsValid (ask_status payload mac_addr now changed) self h =
        >>-pure-keeps (IsValid server entries)
          (Cellular.status_update server payload mac_addr now changed) _ self
          (status_update-IsValid payload mac_addr now changed self h)
    handle-IsValid (ask_msh_status payload now recv_mac changed signal_changed) self h =
        >>-pure-keeps (IsValid server entries)
          (with_error os_error
            (Mesh.msh_status_update server payload now recv_mac changed signal_changed))
          _ self (msh_status_update-IsValid payload now recv_mac changed signal_changed self h)
    handle-IsValid (ask_serial payload now today) self h =
        continue-keeps (IsValid server entries) (ok_or decoding (server.decode_envelope payload)) _
          self h
          (λ envelope.
            continue-keeps (IsValid server entries) (ok_or missing_packet envelope.packet) _ self h
              (λ packet.
                let host_info = Mesh.host_of server packet.from self in
                continue-keeps (IsValid server entries)
                  (Mesh.serial_punches server packet.payload_variant host_info today) _ self h
                  (λ punches.
                    msh_roc_status-IsValid self host_info _ tt refl
                      (msh_collect_punches-Known server self.dns (meshtastic packet.from) host_info
                        now punches)
                      h)))

    new-IsValid :
        {self : MessageHandler server} → new server entries ≡ ok self → IsValid server entries self
    unfolding new
    new-IsValid e =
        let (dns, read, made) = >>=-eq-ok (read_entries [] entries) _ e in
        let fresh : IsValid server entries
            (record { dns = dns; cellular_statuses = []; meshtastic_statuses = [] }) =
          record {
            configured = read;
            cellular_keys = tt;
            meshtastic_keys = tt;
            cellular = tt;
            meshtastic = tt;
          } in
        subst (IsValid server entries) (ok_injective made) fresh

    -- Whatever a handler is sent, in any order, errors and panics included: it keeps the names that it was
    -- made with; its maps have one entry for an address, the one of cellular nodes for full addresses only
    -- and the other for those of Meshtastic only; each status has the name of its address, or "Unknown",
    -- and none of its codes twice.
    pub Reached-IsValid :
        {self : MessageHandler server} → Reached server entries self → IsValid server entries self
    Reached-IsValid (started e) = new-IsValid e
    Reached-IsValid (next reached (handled request self)) =
        handle-IsValid request self (Reached-IsValid reached)
