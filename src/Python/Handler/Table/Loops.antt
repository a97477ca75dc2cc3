-- ===== src/Python/Handler/Table/Loops.antt =====
-- The loops of python/src/message_handler.rs over the punches of a message.
use yaroc.Prelude.{ℕ, ◌≡◌, refl, ◌∙◌, Bool-cases, inl, inr}
use yaroc.Prelude.{Option, none, some, List, [], ◌∷◌, map}
use yaroc.Prelude.Exec.{Exec, continue, continue-pure, convert, pure}
use yaroc.Prelude.Result.{Result, ok, err, panic}
use yaroc.Error.{Error}
use yaroc.Python.Handler.{
  SiPunch, SiPunchLog, CellularRocStatus, MeshtasticRocStatus, construct_punch,
}
use yaroc.Python.Handler.Cellular as Cellular
use yaroc.Python.Handler.Mesh as Mesh
use yaroc.Python.Handler.Table.{
  logs_of, any_panic, answer_of, made_of, with_log, seen_in, msh_after,
}
use yaroc.Python.Punches.{HostInfo, IoError, new_log}
use yaroc.Python.Server.{Server}
use yaroc.Python.Status as Status
use yaroc.Python.Status.Codes.{after}

module _ (server : Server) where
  open server use {F32, F64, times, chrono}

  -- One more log before those of the answer.
  one_more :
      {S E : Type 0} (r : Result E (List (SiPunchLog server))) (log : SiPunchLog server) (s : S)
      (made : List (Result IoError (SiPunchLog server)))
      → r ≡ answer_of server made
      → (continue r (λ logs. pure (log ∷ logs)) s).0 ≡ answer_of server (ok log ∷ made)
  one_more r log s made h = elim (Bool-cases (any_panic server made)) [
    | inl panics ↦ rw (h, panics) refl
    | inr safe ↦ rw (h, safe) refl
  ]

  pub convert-answer_of :
      {E F : Type 0} (f : E → F) (made : List (Result IoError (SiPunchLog server)))
      → convert f (answer_of server made) ≡ answer_of server made
  convert-answer_of f made = elim (Bool-cases (any_panic server made)) [
    | inl panics ↦ rw panics refl
    | inr safe ↦ rw safe refl
  ]

  -- A loop does what is made of the items before it: the answer, and the state.
  abbrev pub Collects :
      (Exec (CellularRocStatus server) Error (List (SiPunchLog server)))
      → List (Result IoError (SiPunchLog server))
      → Type 0
  Collects loop made =
      (status : CellularRocStatus server)
      → ((loop status).0 ≡ answer_of server made)
        × ((loop status).1
            ≡ after times.Time F32 F64 (map (seen_in server) (logs_of server made)) status)

  keep_punch-Collects :
      (result : Result IoError (SiPunchLog server))
      (rest : Exec (CellularRocStatus server) Error (List (SiPunchLog server)))
      (made : List (Result IoError (SiPunchLog server)))
      → Collects rest made
      → Collects (Cellular.keep_punch server result rest) (result ∷ made)
  keep_punch-Collects (ok log) rest made h status =
      let seen = Status.cellular_punch times.Time F32 F64 (seen_in server log) status in
      let (answers, leaves) = h seen in
      (one_more (rest seen).0 log (rest seen).1 made answers, continue-pure _ _ _ ∙ leaves)
  keep_punch-Collects (err e) rest made h status = h status
  keep_punch-Collects panic rest made h status = (refl, refl)

  pub collect_punches-Collects :
      (host_info : HostInfo) (now : times.Time) (today : chrono.Date)
      (items : List (Option (List ℕ)))
      → Collects
          (Cellular.collect_punches server host_info now today items)
          (made_of server host_info now today items)
  unfolding Cellular.collect_punches made_of
  collect_punches-Collects host_info now today [] status = (refl, refl)
  collect_punches-Collects host_info now today (none ∷ items) status =
      collect_punches-Collects host_info now today items status
  collect_punches-Collects host_info now today (some raw ∷ items) status =
      keep_punch-Collects (construct_punch server raw host_info now today) _ _
        (collect_punches-Collects host_info now today items) status

  pub msh_collect_punches-Collects :
      (host_info : HostInfo) (now : times.Time) (punches : List (Result IoError (SiPunch server)))
      (status : MeshtasticRocStatus server)
      → let made = map (with_log server host_info now) punches in
        let done = Mesh.collect_punches server host_info now punches status in
        (done.0 ≡ answer_of server made) × (done.1 ≡ msh_after server (logs_of server made) status)
  unfolding Mesh.collect_punches new_log
  msh_collect_punches-Collects host_info now [] status = (refl, refl)
  msh_collect_punches-Collects host_info now (ok punch ∷ punches) status =
      let seen = Status.meshtastic_punch times.Time F32 F64 (Mesh.seen server punch) status in
      let rest = Mesh.collect_punches server host_info now punches seen in
      let (answers, leaves) = msh_collect_punches-Collects host_info now punches seen in
      (
        one_more rest.0 _ rest.1 (map (with_log server host_info now) punches) answers,
        continue-pure _ _ _ ∙ leaves,
      )
  msh_collect_punches-Collects host_info now (err e ∷ punches) status =
      msh_collect_punches-Collects host_info now punches status
  msh_collect_punches-Collects host_info now (panic ∷ punches) status = (refl, refl)
