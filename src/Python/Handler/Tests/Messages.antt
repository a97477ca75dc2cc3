-- ===== src/Python/Handler/Tests/Messages.antt =====
-- The theorems on the messages of python/src/message_handler.rs at a concrete handler.
use yaroc.Prelude.{◌+◌, ◌*◌, ◌≡◌, refl, arith, some, none, List, [], ◌∷◌, map}
use yaroc.Prelude.Dict.{get, insert}
use yaroc.Prelude.Int.{pos, negsuc}
use yaroc.Prelude.Numbers.{parse_unsigned}
use yaroc.Prelude.Result.{ok}
use yaroc.Chrono.Sample.{sample}
use yaroc.Punch.Tests.{punch_bytes, reads}
use yaroc.Python.Addresses.{mac_eq}
use yaroc.Python.Handler.{MeshtasticRocStatus, SiPunch, read_entry, read_entries, new, resolve}
use yaroc.Python.Handler.Cellular.{punches_py, status_update}
use yaroc.Python.Handler.Mesh.{msh_status_update}
use yaroc.Python.Handler.Positions.Logs.{IsPosition}
use yaroc.Python.Handler.Positions.{msh_status_update-msh_status_update}
use yaroc.Python.Handler.Reports.Items.{Item, lost, short, read, logs_in}
use yaroc.Python.Handler.Reports.{
  status_before, reported, punches_py-raw_of, status_update-to_proto,
}
use yaroc.Python.Handler.Requests.{started}
use yaroc.Python.Handler.Table.{seen_in}
use yaroc.Python.Handler.Tests.{server, entries, start, report, place, spot}
use yaroc.Python.Logs.Report.{IsReport}
use yaroc.Python.Meshtastic.{position_at}
use yaroc.Python.Punches.{full, meshtastic, from_raw, new_host}
use yaroc.Python.Punches.Payloads.{Reads}
use yaroc.Python.Server.Sample.{at_millis, since, local_of, time_of}
use yaroc.Python.Status.Codes.{after}
use yaroc.Status.Tests.{counted}

in_range : IsReport counted _ at_millis since (pos 0) report
in_range = record {
  rssi = omega arith;
  snr = omega arith;
  millivolts = omega arith;
  in_range = omega arith;
  known = refl;
}

status_update-to_proto_example :
    let done = status_update server (1 ∷ []) 0x1234 1_706_523_131_500 1_706_523_131_501 start in
    (done.0 ≡ ok tt)
    × (get (full 0x1234) done.1.cellular_statuses
        ≡ some (reported server report 1_706_523_131_501 (status_before server start 0x1234)))
status_update-to_proto_example =
    status_update-to_proto server (1 ∷ []) 0x1234 1_706_523_131_500 1_706_523_131_501 start (pos 0)
      report in_range refl

abbrev punch : SiPunch server
punch = record {
  card = 1_715_004;
  code = 47;
  time = 704 * 86_400_000 + 36_003_000;
  mode = 2;
  raw = punch_bytes;
}

punch-Reads : Reads sample local_of time_of since 705 (punch_bytes, punch)
unfolding from_raw
punch-Reads = record { frame = refl; reads = rw reads.reads refl }

abbrev items : List (Item server)
items = read punch_bytes punch ∷ lost ∷ short (0x12 ∷ 0x43 ∷ []) ∷ []

punches_py-raw_of_example :
    let logs = logs_in server (new_host (resolve server start (full 0x1234)) 0x1234) 5 items in
    let done = punches_py server (1 ∷ []) 0x1234 5 705 start in
    (done.0 ≡ ok logs)
    × (get (full 0x1234) done.1.cellular_statuses
        ≡ some (after _ _ _ (map (seen_in server) logs) (status_before server start 0x1234)))
punches_py-raw_of_example =
    punches_py-raw_of server (1 ∷ []) 0x1234 5 705 items start refl (punch-Reads, (tt, (refl, tt)))

made : new server entries ≡ ok start
unfolding new read_entries read_entry insert parse_unsigned
made = refl

first_place : IsPosition server (0 ∷ []) (place 1 (pos 0)) (spot (pos 480) 11) 11_000
first_place = record {
  inner = 1 ∷ [];
  envelope = refl;
  port = refl;
  decodes = refl;
  somewhere = refl;
  dated = refl;
}

second_place : IsPosition server (1 ∷ []) (place 2 (negsuc 86)) (spot (pos 490) 12) 12_000
second_place = record {
  inner = 2 ∷ [];
  envelope = refl;
  port = refl;
  decodes = refl;
  somewhere = refl;
  dated = refl;
}

msh_status_update-msh_status_update_example :
    let received = (msh_status_update server (0 ∷ []) 20 none 21 22 start).1 in
    let after = (msh_status_update server (1 ∷ []) 30 (some 1) 31 32 received).1 in
    (status : MeshtasticRocStatus server) × (get (meshtastic 2) after.meshtastic_statuses
      ≡ some status)
    × (status.position ≡ some (position_at server (spot (pos 490) 12) 12_000))
    × (status.rssi_snr
        ≡ some (record {
          rssi_dbm = negsuc 86;
          snr = pos 4;
          distance = some (pos 10, resolve server start (meshtastic 1));
        }))
msh_status_update-msh_status_update_example =
    msh_status_update-msh_status_update server entries start (0 ∷ []) (1 ∷ []) (place 1 (pos 0))
      (place 2 (negsuc 86)) (spot (pos 480) 11) (spot (pos 490) 12) 11_000 12_000 20 30 none 21 22
      31 32 10 (started made) first_place second_place refl refl
