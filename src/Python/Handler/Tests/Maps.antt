-- ===== src/Python/Handler/Tests/Maps.antt =====
-- The theorems on the maps of python/src/message_handler.rs at a concrete handler.
use yaroc.Prelude.{◌≡◌, refl, arith, true, none, List, [], ◌∷◌, map, ◌++◌}
use yaroc.Prelude.Dict.{insert, values, or_else}
use yaroc.Prelude.Exec.{is_err}
use yaroc.Prelude.Numbers.{parse_unsigned}
use yaroc.Prelude.Result.{ok}
use yaroc.Prelude.Sorting.{IsSorted, named}
use yaroc.Prelude.Text.{codes}
use yaroc.Python.Addresses.Display.{display}
use yaroc.Python.Handler.{
  MessageHandler, read_entry, read_entries, new, resolve, node_infos, name_of,
}
use yaroc.Python.Handler.Cellular.{status_update}
use yaroc.Python.Handler.Failures.{CanFail, handle_failed}
use yaroc.Python.Handler.Names.{last_name, read_entry-display, resolve-new}
use yaroc.Python.Handler.Reachable.{Reached-IsValid}
use yaroc.Python.Handler.Requests.{
  Request, ask_punches, ask_status, ask_msh_status, handle, handled, started, next,
}
use yaroc.Python.Handler.Shown.{node_infos-IsSorted}
use yaroc.Python.Handler.Table.{view}
use yaroc.Python.Handler.Table.Refinement.{handle_all, table_all, handle_all-table_all}
use yaroc.Python.Handler.Tests.{server, entries, start}
use yaroc.Python.Handler.Valid.{IsValid}
use yaroc.Python.Logs.{from_proto}
use yaroc.Python.Punches.{full, meshtastic}
use yaroc.Python.Status as Status

made : new server entries ≡ ok start
unfolding new read_entries read_entry insert parse_unsigned
made = refl

-- All three have sent something, and a fourth message is not decoded.
abbrev messages : List (Request server)
messages =
    ask_msh_status (1 ∷ []) 100 none 101 102
    ∷ ask_punches (1 ∷ []) 0x1234 705 705
    ∷ ask_msh_status (0 ∷ []) 103 none 104 105
    ∷ ask_status [] 0x1234 106 107
    ∷ []

handle_all-table_all_example :
    let done = handle_all server messages start in
    let promised = table_all server messages (view server start) in
    (done.0 ≡ promised.0) × (view server done.1 ≡ promised.1)
handle_all-table_all_example = handle_all-table_all server messages start

abbrev met : MessageHandler server
met = (handle server (ask_msh_status (1 ∷ []) 100 none 101 102) start).1

node_infos-IsSorted_example :
    IsSorted (name_of server) (node_infos server met)
    × (named (name_of server) (codes "OL2") (node_infos server met)
        ≡ named
            (name_of server)
            (codes "OL2")
            (map (Status.serialize_meshtastic _ _ _) (values met.meshtastic_statuses))
          ++ named
              (name_of server)
              (codes "OL2")
              (map (Status.serialize_cellular _ _ _ (λ z. z)) (values met.cellular_statuses)))
node_infos-IsSorted_example = node_infos-IsSorted server met (codes "OL2")

Reached-IsValid_example : IsValid server entries met
Reached-IsValid_example =
    Reached-IsValid server entries
      (next (started made) (handled (ask_msh_status (1 ∷ []) 100 none 101 102) start))

-- The event of the device is of an unknown type.
failed : is_err (handle server (ask_status (0 ∷ []) 0x1234 106 107) met).0 ≡ true
unfolding handle status_update from_proto
failed = refl

handle_failed_example :
    CanFail server (ask_status (0 ∷ []) 0x1234 106 107)
    × ((handle server (ask_status (0 ∷ []) 0x1234 106 107) met).1 ≡ met)
handle_failed_example = handle_failed server (ask_status (0 ∷ []) 0x1234 106 107) met failed

read_entry-display_example :
    read_entry (display (full 0x1234), codes "ROC") ≡ ok (full 0x1234, codes "ROC")
read_entry-display_example = read_entry-display (full 0x1234) (codes "ROC") (omega arith)

resolve-new_example :
    resolve server start (meshtastic 1)
    ≡ or_else (codes "Unknown") (last_name entries (meshtastic 1))
resolve-new_example = resolve-new server entries start (meshtastic 1) made
