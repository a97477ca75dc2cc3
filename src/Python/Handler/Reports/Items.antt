-- ===== src/Python/Handler/Reports/Items.antt =====
-- What a message of punches holds for python/src/message_handler.rs, and the logs that it makes of it.
use yaroc.Prelude.{ℕ, ◌≡◌, refl, ap, true, false, ◌==◌, ==_iff}
use yaroc.Prelude.{Option, none, some, List, [], ◌∷◌, map, length, All}
use yaroc.Prelude.Result.{ok, err}
use yaroc.Python.Addresses.{mac_eq}
use yaroc.Python.Handler.{SiPunch, SiPunchLog, construct_punch}
use yaroc.Python.Handler.Table.{logs_of, any_panic, made_of}
use yaroc.Python.Punches.{HostInfo, wrong_length, new_log, log_from_raw}
use yaroc.Python.Punches.Payloads.{Reads}
use yaroc.Python.Server.{Server}

module _ (server : Server) where
  open server use {F32, F64, times, chrono}

  -- What a message holds: a punch that is not decoded, one of a wrong length, or one that is read.
  pub data Item : Type 0 where
    lost : Item
    short : List ℕ → Item
    read : List ℕ → SiPunch server → Item

  abbrev pub raw_of : Item → Option (List ℕ)
  raw_of lost = none
  raw_of (short raw) = some raw
  raw_of (read raw punch) = some raw

  abbrev pub IsItem : chrono.Date → Item → Type 0
  IsItem today lost = Unit
  IsItem today (short raw) = (length raw == 20) ≡ false
  IsItem today (read raw punch) =
      Reads chrono server.naive_local server.in_local_zone server.minus today (raw, punch)

  abbrev pub logs_in : HostInfo → times.Time → List Item → List (SiPunchLog server)
  logs_in host_info now [] = []
  logs_in host_info now (read raw punch ∷ items) =
      new_log chrono server.naive_local server.in_local_zone server.minus punch host_info now
      ∷ logs_in host_info now items
  logs_in host_info now (_ ∷ items) = logs_in host_info now items

  construct_punch-Reads :
      (raw : List ℕ) (punch : SiPunch server) (host_info : HostInfo) (now : times.Time)
      (today : chrono.Date)
      → Reads chrono server.naive_local server.in_local_zone server.minus today (raw, punch)
      → construct_punch server raw host_info now today
        ≡ ok (
            new_log chrono server.naive_local server.in_local_zone server.minus punch host_info now)
  unfolding construct_punch log_from_raw
  construct_punch-Reads raw punch host_info now today h =
      let long : (length raw == 20) ≡ true = (==_iff _ _).1 h.frame in rw (long, h.reads) refl

  construct_punch_short :
      (raw : List ℕ) (host_info : HostInfo) (now : times.Time) (today : chrono.Date)
      → (length raw == 20) ≡ false
      → construct_punch server raw host_info now today ≡ err (wrong_length (length raw))
  unfolding construct_punch
  construct_punch_short raw host_info now today h = rw h refl

  pub made_of-logs_in :
      (host_info : HostInfo) (now : times.Time) (today : chrono.Date) (items : List Item)
      → All (IsItem today) items
      → let made = made_of server host_info now today (map raw_of items) in
        (any_panic server made ≡ false) × (logs_of server made ≡ logs_in host_info now items)
  unfolding made_of
  made_of-logs_in host_info now today [] h = (refl, refl)
  made_of-logs_in host_info now today (lost ∷ items) h =
      made_of-logs_in host_info now today items h.1
  made_of-logs_in host_info now today (short raw ∷ items) h =
      rw (construct_punch_short raw host_info now today h.0)
        (made_of-logs_in host_info now today items h.1)
  made_of-logs_in host_info now today (read raw punch ∷ items) h =
      let (safe, logs) = made_of-logs_in host_info now today items h.1 in
      rw (construct_punch-Reads raw punch host_info now today h.0) (
        safe,
        ap
            (λ rest.
              new_log chrono server.naive_local server.in_local_zone server.minus punch host_info
                now
              ∷ rest)
            logs,
      )
