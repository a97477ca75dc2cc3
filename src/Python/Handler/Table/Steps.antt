-- ===== src/Python/Handler/Table/Steps.antt =====
-- The steps that the methods of python/src/message_handler.rs are made of, against the table.
use yaroc.Prelude.{ℕ, ◌≡◌, refl, ◌∙◌, ap, Option, none, some, List}
use yaroc.Prelude.Dict.{or_else, get, with_entry, get-with_entry}
use yaroc.Prelude.Exec.{Exec, continue}
use yaroc.Prelude.Result.{◌>>=◌, Result, ok, err, panic, ok_or}
use yaroc.Python.Addresses.{mac_eq}
use yaroc.Python.Handler.{
  CellularRocStatus, MeshtasticRocStatus, MessageHandler, resolve, get_cellular_status,
  msh_roc_status,
}
use yaroc.Python.Handler.Table.{changed_at, Table, view, cellular_at, meshtastic_at, on_ok, on_some}
use yaroc.Python.Punches.{MacAddress, full, HostInfo}
use yaroc.Python.Server.{Server}
use yaroc.Python.Status as Status

entry_changed :
    {V E A : Type 0} (mac_addr : MacAddress) (fresh : V) (body : Exec V E A) (f : V → V)
    (statuses : List (MacAddress × V))
    → ((v : V) → (body v).1 ≡ f v)
    → (λ other. get other (with_entry mac_addr fresh body statuses).1)
      ≡ changed_at mac_addr fresh f (λ other. get other statuses)
entry_changed mac_addr fresh body f statuses h =
    (λ i other. get-with_entry other mac_addr fresh body statuses i)
    ∙ (λ i. changed_at mac_addr fresh (λ v. h v i) (λ other. get other statuses))

module _ (server : Server) where
  open server use {F32, F64, times, chrono}

  -- The result and the state of a step are those of the table.
  abbrev pub Refines :
      {E A : Type 0} → Result E A × MessageHandler server → Result E A → Table server → Type 0
  Refines done result table = (done.0 ≡ result) × (view server done.1 ≡ table)

  pub get_cellular_status-Refines :
      {E A : Type 0} (mac : ℕ) (body : Exec (CellularRocStatus server) E A)
      (self : MessageHandler server) (result : Result E A)
      (f : CellularRocStatus server → CellularRocStatus server)
      → ((status : CellularRocStatus server)
          → ((body status).0 ≡ result) × ((body status).1 ≡ f status))
      → Refines
          (get_cellular_status server (full mac) body self)
          result
          (cellular_at server mac f (view server self))
  unfolding get_cellular_status resolve with_entry
  get_cellular_status-Refines mac body self result f h =
      let fresh = Status.new_cellular times.Time F32 F64 (resolve server self (full mac)) in
      (
        (h (or_else fresh (get (full mac) self.cellular_statuses))).0,
        ap
            (λ (statuses : MacAddress → Option (CellularRocStatus server)). record {
              dns = self.dns;
              cellular = statuses;
              meshtastic = λ other. get other self.meshtastic_statuses;
            })
            (entry_changed (full mac) fresh body f self.cellular_statuses (λ status. (h status).1)),
      )

  pub msh_roc_status-Refines :
      {E A : Type 0} (host_info : HostInfo) (body : Exec (MeshtasticRocStatus server) E A)
      (self : MessageHandler server) (result : Result E A)
      (f : MeshtasticRocStatus server → MeshtasticRocStatus server)
      → ((status : MeshtasticRocStatus server)
          → ((body status).0 ≡ result) × ((body status).1 ≡ f status))
      → Refines
          (msh_roc_status server host_info body self)
          result
          (meshtastic_at server host_info f (view server self))
  unfolding msh_roc_status with_entry
  msh_roc_status-Refines host_info body self result f h =
      let fresh = Status.new_meshtastic times.Time F32 F64 host_info.name in
      (
        (h (or_else fresh (get host_info.mac_address self.meshtastic_statuses))).0,
        ap
            (λ (statuses : MacAddress → Option (MeshtasticRocStatus server)). record {
              dns = self.dns;
              cellular = λ other. get other self.cellular_statuses;
              meshtastic = statuses;
            })
            (entry_changed host_info.mac_address fresh body f self.meshtastic_statuses
              (λ status. (h status).1)),
      )

  pub continue_ok-Refines :
      {E A B : Type 0} (r : Result E A) (f : A → Exec (MessageHandler server) E B)
      (answers : A → Result E B) (g : A → Table server → Table server)
      (self : MessageHandler server)
      → ((a : A) → Refines (f a self) (answers a) (g a (view server self)))
      → Refines (continue r f self) (r >>= answers) (on_ok server r g (view server self))
  continue_ok-Refines (ok a) f answers g self h = h a
  continue_ok-Refines (err e) f answers g self h = (refl, refl)
  continue_ok-Refines panic f answers g self h = (refl, refl)

  pub continue_some-Refines :
      {E A B : Type 0} (e : E) (o : Option A) (f : A → Exec (MessageHandler server) E B)
      (answers : A → Result E B) (g : A → Table server → Table server)
      (self : MessageHandler server)
      → ((a : A) → Refines (f a self) (answers a) (g a (view server self)))
      → Refines
          (continue (ok_or e o) f self)
          (ok_or e o >>= answers)
          (on_some server o g (view server self))
  continue_some-Refines e (some a) f answers g self h = h a
  continue_some-Refines e none f answers g self h = (refl, refl)
