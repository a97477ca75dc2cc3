-- ===== src/Nrf/SystemInfo/Tests.antt =====
-- The theorems on nrf52840/src/system_info.rs at a modem that knows the time, and at one that does not.
use yaroc.Prelude.{ℕ, ◌≡◌, refl, true, false, none, some}
use yaroc.Prelude.Result.{ok}
use yaroc.Nrf.Hardware.{ModemHw}
use yaroc.At.Response.Tests.{clock_reply, clock_parsed}
use yaroc.Status.Tests.{counted, clock_time}
use yaroc.Nrf.Tests.{modem, board, temperature}
use yaroc.Nrf.SystemInfo.{SystemInfo, get_modem_time}
use yaroc.Nrf.SystemInfo.BootTime.{timed, asked, kept, current_time-current_time}

abbrev timekeeper : ModemHw ℕ
timekeeper = record modem { simple_call_at = λ cmd timeout s. (ok clock_reply, s) }

abbrev unset : SystemInfo counted
unset = record { boot_time = none }

knows : asked counted timekeeper board temperature 3 ≡ (ok 19, 3)
unfolding get_modem_time
knows = rw (clock_parsed, clock_time)

current_time-current_time_example :
    let synced =
      timed counted timekeeper board temperature false (record { info = unset; device = 3 }) in
    let cached =
      timed counted timekeeper board temperature true
        (record { info = synced.1.info; device = 8 }) in
    (synced.0 ≡ ok (some 19))
    × (synced.1.device ≡ 3)
    × (cached ≡ (
      ok (some 24),
      record { info = kept counted timekeeper board temperature 16; device = 8 },
    ))
current_time-current_time_example =
    current_time-current_time counted timekeeper board temperature unset 3 3 8 19 16 24 knows refl
      refl
