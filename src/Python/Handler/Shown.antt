-- ===== src/Python/Handler/Shown.antt =====
-- `node_infos` of python/src/message_handler.rs.
use yaroc.Prelude.{◌≡◌, ◌∙◌, ◌++◌, map}
use yaroc.Prelude.Dict.{values}
use yaroc.Prelude.Sorting.{IsSorted, named, sort_by-IsSorted, named-sort_by, named-append}
use yaroc.Prelude.Text.{Text}
use yaroc.Python.Handler.{MessageHandler, name_of, unsorted_infos, node_infos}
use yaroc.Python.Server.{Server}
use yaroc.Python.Status as Status

module _ (server : Server) where
  open server use {F32, F64, times, by_ten}

  -- What is shown of the nodes is sorted by name; and of each name it has the Meshtastic nodes and then
  -- the cellular nodes that have it, each with its own status and once, in the order of the maps.
  pub node_infos-IsSorted :
      (self : MessageHandler server) (n : Text)
      → IsSorted (name_of server) (node_infos server self)
        × (named (name_of server) n (node_infos server self)
            ≡ named (name_of server) n (
                map
                  (Status.serialize_meshtastic times.Time F32 F64)
                  (values self.meshtastic_statuses))
              ++ named (name_of server) n (
                  map
                    (Status.serialize_cellular times.Time F32 F64 by_ten)
                    (values self.cellular_statuses)))
  unfolding node_infos
  node_infos-IsSorted self n = (
    sort_by-IsSorted (name_of server) (unsorted_infos server self),
    named-sort_by (name_of server) n (unsorted_infos server self)
        ∙ named-append (name_of server) n _ _,
  )
