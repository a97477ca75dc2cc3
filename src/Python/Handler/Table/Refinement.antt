-- ===== src/Python/Handler/Table/Refinement.antt =====
-- The handler of python/src/message_handler.rs does what the table promises.
use yaroc.Prelude.{
  Bool, true, false, ap₂, map, ◌≡◌, refl, ◌∙◌, if◌then◌else◌, ap, Option, none, some, List, [], ◌∷◌,
}
use yaroc.Prelude.Exec.{Exec, continue, continue-pure, convert, with_error, pure}
use yaroc.Prelude.Result.{◌>>=◌, Result, ok, err, panic, ok_or}
use yaroc.Error.{parse_error}
use yaroc.Python.Addresses.{mac_eq}
use yaroc.Python.Handler.{PyErr, os_error, SiPunchLog, wrong_value, MessageHandler}
use yaroc.Python.Handler.Cellular as Cellular
use yaroc.Python.Handler.Mesh as Mesh
use yaroc.Python.Handler.Requests.{
  Request, ask_punches, ask_status, ask_msh_status, ask_serial, handle,
}
use yaroc.Python.Handler.Table.{
  Table, view, effect, answer, answer_of, made_of, host_in, is_panic, with_log, position_in,
}
use yaroc.Python.Handler.Table.Loops.{convert-answer_of}
use yaroc.Python.Meshtastic.{from_mesh_packet}
use yaroc.Python.Punches.{full, meshtastic, IoError, decoding, missing_packet}
use yaroc.Python.Server.{Server}
use yaroc.Python.Handler.Table.Steps.{Refines}
use yaroc.Python.Handler.Table.Methods.{
  punches-Refines, status_update-Refines, msh_status_update-Refines, msh_serial_msg-Refines,
}

module _ (server : Server) where
  open server use {F32, F64, times, chrono}

  -- The results of the chains, with the errors converted.
  punches_result :
      {A : Type 0} (items : Option A) (made : A → List (Result IoError (SiPunchLog server)))
      → convert (λ _. wrong_value) (ok_or parse_error items >>= λ a. answer_of server (made a))
        ≡ (ok_or wrong_value items >>= λ a. answer_of server (made a))
  punches_result none made = refl
  punches_result (some a) made = convert-answer_of server (λ _. wrong_value) (made a)

  serial_result :
      {A : Type 0} (punches : Result IoError A)
      (made : A → List (Result IoError (SiPunchLog server)))
      → convert os_error (punches >>= λ a. answer_of server (made a))
        ≡ (convert os_error punches >>= λ a. answer_of server (made a))
  serial_result (ok a) made = convert-answer_of server os_error (made a)
  serial_result (err e) made = refl
  serial_result panic made = refl

  convert-ok_or :
      {E F A B : Type 0} (f : E → F) (e : E) (o : Option A) (k : A → Result E B)
      (m : A → Result F B)
      → ((a : A) → convert f (k a) ≡ m a)
      → convert f (ok_or e o >>= k) ≡ (ok_or (f e) o >>= m)
  convert-ok_or f e none k m h = refl
  convert-ok_or f e (some a) k m h = h a

  then_pure :
      {E A B : Type 0} (r : Result E A) (b : B)
      → ((r >>= λ _. ok tt) >>= λ _. ok b) ≡ (r >>= λ _. ok b)
  then_pure (ok a) b = refl
  then_pure (err e) b = refl
  then_pure panic b = refl

  status_result :
      {E A B C : Type 0} (e : E) (o : Option A) (k : A → Result E B) (c : C)
      → ((ok_or e o >>= λ a. k a >>= λ _. ok tt) >>= λ _. ok c)
        ≡ (ok_or e o >>= λ a. k a >>= λ _. ok c)
  status_result e none k c = refl
  status_result e (some a) k c = then_pure (k a) c

  convert-Refines :
      {E F A : Type 0} (f : E → F) (m : Exec (MessageHandler server) E A)
      (self : MessageHandler server) {result : Result E A} {table : Table server}
      → Refines server (m self) result table
      → Refines server (with_error f m self) (convert f result) table
  convert-Refines f m self h = (ap (convert f) h.0, h.1)

  msh_result :
      {A : Type 0} (panics : Bool) (a : A)
      → (convert os_error (if panics then panic else ok tt) >>= λ _. ok a)
        ≡ (if panics then panic else ok a)
  msh_result true a = refl
  msh_result false a = refl

  pure_result :
      {S E A B : Type 0} (r : Result E A) (b : B) (s : S)
      → (continue r (λ _. pure b) s).0 ≡ (r >>= λ _. ok b)
  pure_result (ok a) b s = refl
  pure_result (err e) b s = refl
  pure_result panic b s = refl

  pure-Refines :
      {E A B : Type 0} (m : Exec (MessageHandler server) E A) (b : B) (self : MessageHandler server)
      (result : Result E A) (table : Table server)
      → Refines server (m self) result table
      → Refines server (continue (m self).0 (λ _. pure b) (m self).1) (result >>= λ _. ok b) table
  pure-Refines m b self result table h = (
    pure_result (m self).0 b (m self).1 ∙ ap (λ r. r >>= λ _. ok b) h.0,
    ap (view server) (continue-pure (m self).0 (λ _. b) (m self).1) ∙ h.1,
  )

  -- Of each message, the result and the state are those of the table.
  handle-Refines :
      (request : Request server) (self : MessageHandler server)
      → Refines server
          (handle server request self)
          (answer server request (view server self))
          (effect server request (view server self))
  unfolding handle Cellular.punches_py Mesh.meshtastic_serial_msg_py
  handle-Refines (ask_punches payload mac now today) self =
      let (answers, leaves) = punches-Refines server payload mac now today self in
      (
        ap (convert (λ _. wrong_value)) answers
            ∙ punches_result (server.decode_punches payload) (λ items.
              made_of server (host_in server (view server self) (full mac)) now today items),
        leaves,
      )
  handle-Refines (ask_status payload mac now changed) self =
      let (answers, leaves) =
        pure-Refines (Cellular.status_update server payload mac now changed) [] self _ _
          (status_update-Refines server payload mac now changed self) in
      (answers ∙ status_result wrong_value (server.decode_status payload) _ [], leaves)
  handle-Refines (ask_msh_status payload now recv_mac changed signal_changed) self =
      let (answers, leaves) =
        pure-Refines
          (with_error os_error
            (Mesh.msh_status_update server payload now recv_mac changed signal_changed))
          [] self _ _
          (convert-Refines os_error
            (Mesh.msh_status_update server payload now recv_mac changed signal_changed) self
            (msh_status_update-Refines server payload now recv_mac changed signal_changed self)) in
      (
        answers
            ∙ msh_result
                (is_panic server (
                  from_mesh_packet server payload now self.dns
                    (position_in server recv_mac (view server self))))
                [],
        leaves,
      )
  handle-Refines (ask_serial payload now today) self =
      let (answers, leaves) = msh_serial_msg-Refines server payload now today self in
      (
        ap (convert os_error) answers
            ∙ convert-ok_or os_error decoding (server.decode_envelope payload) _ _ (λ envelope.
              convert-ok_or os_error missing_packet envelope.packet _ _ (λ packet.
                serial_result
                  (Mesh.serial_punches server packet.payload_variant
                    (host_in server (view server self) (meshtastic packet.from)) today)
                  (λ punches.
                    map
                      (with_log server (host_in server (view server self) (meshtastic packet.from))
                        now)
                      punches))),
        leaves,
      )

  -- The results of some messages, one after the other, and the state behind them.
  abbrev pub handle_all :
      List (Request server)
      → MessageHandler server
      → List (Result PyErr (List (SiPunchLog server))) × MessageHandler server
  handle_all [] self = ([], self)
  handle_all (request ∷ requests) self =
      let done = handle server request self in
      let rest = handle_all requests done.1 in (done.0 ∷ rest.0, rest.1)

  abbrev pub table_all :
      List (Request server)
      → Table server
      → List (Result PyErr (List (SiPunchLog server))) × Table server
  table_all [] table = ([], table)
  table_all (request ∷ requests) table =
      let rest = table_all requests (effect server request table) in
      (answer server request table ∷ rest.0, rest.1)

  -- Of any messages in any order, also those that end in an error or a panic, each has the result that
  -- the table gives, and the handler behind them is the table with the effect of each.
  pub handle_all-table_all :
      (requests : List (Request server)) (self : MessageHandler server)
      → let done = handle_all requests self in
        let promised = table_all requests (view server self) in
        (done.0 ≡ promised.0) × (view server done.1 ≡ promised.1)
  handle_all-table_all [] self = (refl, refl)
  handle_all-table_all (request ∷ requests) self =
      let (answers, leaves) = handle-Refines request self in
      let rest = handle_all-table_all requests (handle server request self).1 in
      (
        ap₂ (λ a rest. a ∷ rest) answers
            (rest.0 ∙ ap (λ table. (table_all requests table).0) leaves),
        rest.1 ∙ ap (λ table. (table_all requests table).1) leaves,
      )
