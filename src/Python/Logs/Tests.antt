-- ===== src/Python/Logs/Tests.antt =====
-- The theorem on python/src/logs.rs at a report that knows all but its battery.
use yaroc.Prelude.{ℕ, ◌≡◌, refl, arith, Option, none, some}
use yaroc.Prelude.Int.{ℤ, pos, negsuc}
use yaroc.Prelude.Result.{ok}
use yaroc.Prelude.Text.{codes}
use yaroc.Status.{MiniCallHome, to_proto}
use yaroc.Status.Tests.{counted}
use yaroc.Python.Punches.{MacAddress}
use yaroc.Python.Logs.{mini_call_home, mch, from_proto}
use yaroc.Python.Logs.Report.{IsReport, shown, from_proto-to_proto}

abbrev at_millis : ℤ → Option ℕ
at_millis (pos n) = some n
at_millis (negsuc n) = none

abbrev since : ℕ → ℕ → ℕ
since now t = 0

abbrev report : MiniCallHome counted ℕ
report = record {
  rssi_dbm = some (negsuc 79);
  snr_cb = some (pos 40);
  cellid = some 75_513;
  batt_mv = none;
  batt_percents = none;
  cpu_temperature = some 27;
  cpu_freq = none;
  timestamp = 1_706_523_131_081;
}

in_range : IsReport counted ℕ at_millis since 0 report
in_range = record {
  rssi = omega arith;
  snr = omega arith;
  millivolts = omega arith;
  in_range = omega arith;
  known = refl;
}

from_proto-to_proto_example :
    from_proto counted ℕ at_millis since
      (some (mini_call_home (to_proto counted ℕ 0 report)))
      (MacAddress.full 0x1234)
      (codes "ROC1")
      1_706_523_131_500
    ≡ ok (
        mch (record {
          mini_call_home = shown counted ℕ at_millis since 0 report;
          host_info = record { name = codes "ROC1"; mac_address = MacAddress.full 0x1234 };
          latency = 0;
        }))
from_proto-to_proto_example =
    from_proto-to_proto counted ℕ at_millis since 0 report (MacAddress.full 0x1234) (codes "ROC1")
      1_706_523_131_500 in_range
