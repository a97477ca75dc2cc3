-- ===== src/Python/Handler/Failures.antt =====
-- Errors of python/src/message_handler.rs.
use yaroc.Prelude.{Option, none, some}
use yaroc.Prelude.{
  ℕ, ◌≡◌, refl, ap, ◌∙◌, sym, Bool, true, false, Bool-cases, inl, inr, List, [], map,
}
use yaroc.Prelude.Dict.{with_entry}
use yaroc.Prelude.Exec.{
  Exec, convert, is_err, continue-pure, continue_unchanged, is_err-convert, is_err-continue,
}
use yaroc.Prelude.Result.{Result, ok, err, panic, ok_or}
use yaroc.Error.{Error, parse_error}
use yaroc.Python.Addresses.{mac_eq}
use yaroc.Python.Handler.{
  wrong_value, os_error, SiPunch, SiPunchLog, CellularRocStatus, MeshtasticRocStatus,
  MessageHandler, resolve, get_cellular_status, msh_roc_status,
}
use yaroc.Python.Handler.Cellular as Cellular
use yaroc.Python.Handler.Mesh as Mesh
use yaroc.Python.Handler.Requests.{
  Request, ask_punches, ask_status, ask_msh_status, ask_serial, handle,
}
use yaroc.Python.Handler.Table.{answer_of, any_panic, made_of, with_log}
use yaroc.Python.Handler.Table.Loops.{collect_punches-Collects, msh_collect_punches-Collects}
use yaroc.Python.Meshtastic.{from_mesh_packet, MshLogMessage}
use yaroc.Python.Punches.{MacAddress, full, HostInfo, IoError, new_host, decoding, missing_packet}
use yaroc.Python.Server.{Server}

contradicts : {b : Bool} → b ≡ false → b ≡ true → ⊥
contradicts f t = cc (f, t)

module _ (server : Server) where
  open server use {F32, F64, times, chrono}

  is_err-answer_of :
      (E : Type 0) (made : List (Result IoError (SiPunchLog server)))
      → is_err (answer_of server {E = E} made) ≡ false
  is_err-answer_of E made = elim (Bool-cases (any_panic server made)) [
    | inl panics ↦ rw panics refl
    | inr safe ↦ rw safe refl
  ]

  -- The changes of a status end in no error.
  get_cellular_status_ends :
      {E A : Type 0} (mac_addr : MacAddress) (body : Exec (CellularRocStatus server) E A)
      (self : MessageHandler server)
      → ((status : CellularRocStatus server) → is_err (body status).0 ≡ false)
      → is_err (get_cellular_status server mac_addr body self).0 ≡ false
  unfolding get_cellular_status with_entry
  get_cellular_status_ends mac_addr body self h = h _

  msh_roc_status_ends :
      {E A : Type 0} (host_info : HostInfo) (body : Exec (MeshtasticRocStatus server) E A)
      (self : MessageHandler server)
      → ((status : MeshtasticRocStatus server) → is_err (body status).0 ≡ false)
      → is_err (msh_roc_status server host_info body self).0 ≡ false
  unfolding msh_roc_status with_entry
  msh_roc_status_ends host_info body self h = h _

  collect_punches_ends :
      (host_info : HostInfo) (now : times.Time) (today : chrono.Date)
      (items : List (Option (List ℕ))) (status : CellularRocStatus server)
      → is_err (Cellular.collect_punches server host_info now today items status).0 ≡ false
  collect_punches_ends host_info now today items status =
      ap is_err (collect_punches-Collects server host_info now today items status).0
      ∙ is_err-answer_of Error (made_of server host_info now today items)

  msh_collect_punches_ends :
      (host_info : HostInfo) (now : times.Time) (punches : List (Result IoError (SiPunch server)))
      (status : MeshtasticRocStatus server)
      → is_err (Mesh.collect_punches server host_info now punches status).0 ≡ false
  msh_collect_punches_ends host_info now punches status =
      ap is_err (msh_collect_punches-Collects server host_info now punches status).0
      ∙ is_err-answer_of IoError (map (with_log server host_info now) punches)

  punches_failed :
      (payload : List ℕ) (mac : ℕ) (now : times.Time) (today : chrono.Date)
      (self : MessageHandler server)
      → is_err (Cellular.punches server payload mac now today self).0 ≡ true
      → (Cellular.punches server payload mac now today self).1 ≡ self
  unfolding Cellular.punches
  punches_failed payload mac now today self =
      continue_unchanged (ok_or parse_error (server.decode_punches payload)) _ self (λ items.
        λ failed. absurd (
          contradicts
            (get_cellular_status_ends (full mac) _ self (
              collect_punches_ends (new_host (resolve server self (full mac)) mac) now today items))
            failed))

  status_update_failed :
      (payload : List ℕ) (mac : ℕ) (now changed : times.Time) (self : MessageHandler server)
      → is_err (Cellular.status_update server payload mac now changed self).0 ≡ true
      → (Cellular.status_update server payload mac now changed self).1 ≡ self
  unfolding Cellular.status_update
  status_update_failed payload mac now changed self =
      continue_unchanged (ok_or wrong_value (server.decode_status payload)) _ self (λ status_proto.
        continue_unchanged
          (Cellular.read_log server status_proto mac (resolve server self (full mac)) now) _ self
          (λ log. λ failed.
            absurd
              (contradicts (get_cellular_status_ends (full mac) _ self (λ status. refl)) failed)))

  log_update_ends :
      (changed signal_changed : times.Time) (self : MessageHandler server)
      (log : Result IoError (Option (MshLogMessage server)))
      → is_err (Mesh.log_update server changed signal_changed log self).0 ≡ false
  log_update_ends changed signal_changed self panic = refl
  log_update_ends changed signal_changed self (err e) = refl
  log_update_ends changed signal_changed self (ok none) = refl
  log_update_ends changed signal_changed self (ok (some log)) =
      msh_roc_status_ends log.host_info _ self (λ status. refl)

  msh_serial_msg_failed :
      (payload : List ℕ) (now : times.Time) (today : chrono.Date) (self : MessageHandler server)
      → is_err (Mesh.msh_serial_msg server payload now today self).0 ≡ true
      → (Mesh.msh_serial_msg server payload now today self).1 ≡ self
  unfolding Mesh.msh_serial_msg
  msh_serial_msg_failed payload now today self =
      continue_unchanged (ok_or decoding (server.decode_envelope payload)) _ self (λ envelope.
        continue_unchanged (ok_or missing_packet envelope.packet) _ self (λ packet.
          let host_info = Mesh.host_of server packet.from self in
          continue_unchanged (Mesh.serial_punches server packet.payload_variant host_info today) _
            self
            (λ punches. λ failed. absurd (
              contradicts
                (msh_roc_status_ends host_info _ self
                  (msh_collect_punches_ends host_info now punches))
                failed))))

  -- The messages of which some end in an error.
  pub CanFail : Request server → Type 0
  CanFail (ask_msh_status payload now recv_mac changed signal_changed) = ⊥
  CanFail _ = Unit

  -- A message that ends in an error has changed nothing, and is not a Meshtastic status.
  pub handle_failed :
      (request : Request server) (self : MessageHandler server)
      → is_err (handle server request self).0 ≡ true
      → CanFail request × ((handle server request self).1 ≡ self)
  unfolding CanFail handle Cellular.punches_py Mesh.meshtastic_serial_msg_py Mesh.msh_status_update
  handle_failed (ask_punches payload mac now today) self failed =
      (tt, punches_failed payload mac now today self (sym (is_err-convert _ _) ∙ failed))
  handle_failed (ask_status payload mac now changed) self failed =
      let done = Cellular.status_update server payload mac now changed self in
      (
        tt,
        continue-pure done.0 (λ _. []) done.1
            ∙ status_update_failed payload mac now changed self
                (sym (is_err-continue done.0 (λ _. []) done.1) ∙ failed),
      )
  handle_failed (ask_msh_status payload now recv_mac changed signal_changed) self failed =
      let log =
        from_mesh_packet server payload now self.dns (Mesh.recv_position_of server recv_mac self) in
      let done = Mesh.log_update server changed signal_changed log self in
      absurd (
        contradicts
          (is_err-continue (convert os_error done.0) (λ _. []) done.1
            ∙ is_err-convert os_error done.0
            ∙ log_update_ends changed signal_changed self log)
          failed)
  handle_failed (ask_serial payload now today) self failed =
      (tt, msh_serial_msg_failed payload now today self (sym (is_err-convert _ _) ∙ failed))
