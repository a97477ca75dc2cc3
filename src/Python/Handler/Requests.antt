-- ===== src/Python/Handler/Requests.antt =====
-- What the server is asked, message by message: the methods of python/src/message_handler.rs as steps.
use yaroc.Prelude.{ℕ, ◌≡◌, Option, List, []}
use yaroc.Prelude.Exec.{Exec, pure, with_error, ◌>>◌}
use yaroc.Prelude.Result.{ok}
use yaroc.Prelude.Text.{Text}
use yaroc.Python.Handler.{PyErr, os_error, SiPunchLog, MessageHandler, new}
use yaroc.Python.Handler.Cellular.{punches_py, status_update}
use yaroc.Python.Handler.Mesh.{meshtastic_serial_msg_py, msh_status_update}
use yaroc.Python.Server.{Server}

module _ (server : Server) where
  open server use {times, chrono}

  -- Each with what is read of the clock.
  pub data Request : Type 0 where
    ask_punches : List ℕ → ℕ → times.Time → chrono.Date → Request
    ask_status : List ℕ → ℕ → times.Time → times.Time → Request
    ask_msh_status : List ℕ → times.Time → Option ℕ → times.Time → times.Time → Request
    ask_serial : List ℕ → times.Time → chrono.Date → Request

  -- A status has no answer.
  unfoldable pub handle : Request → Exec (MessageHandler server) PyErr (List (SiPunchLog server))
  handle (ask_punches payload mac_addr now today) = punches_py server payload mac_addr now today
  handle (ask_status payload mac_addr now changed) =
      status_update server payload mac_addr now changed >> pure []
  handle (ask_msh_status payload now recv_mac changed signal_changed) =
      with_error os_error (msh_status_update server payload now recv_mac changed signal_changed)
      >> pure []
  handle (ask_serial payload now today) = meshtastic_serial_msg_py server payload now today

  pub data Step : MessageHandler server → MessageHandler server → Type 0 where
    handled : (request : Request) (self : MessageHandler server) → Step self (handle request self).1

  -- What a handler of these names becomes.
  pub data Reached (entries : List (Text × Text)) : MessageHandler server → Type 0 where
    started : {self : MessageHandler server} → new server entries ≡ ok self → Reached entries self
    next :
        {self after : MessageHandler server}
        → Reached entries self
        → Step self after
        → Reached entries after
