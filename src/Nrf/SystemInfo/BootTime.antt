-- ===== src/Nrf/SystemInfo/BootTime.antt =====
-- `current_time` of nrf52840/src/system_info.rs: the time of the boot is kept, and the time is it and
-- the time since.
use yaroc.Prelude.{ap, ◌∙◌, arith, ◌≡◌, true, false, Bool, Option, none, some}
use yaroc.Prelude.Result.{Result, ok, err}
use yaroc.Nrf.Error.{Error}
use yaroc.Nrf.Hardware.{ModemHw, Platform}
use yaroc.Status.{Times}
use yaroc.Nrf.SystemInfo.{SystemInfo, Sys, get_modem_time, ask_time, booted, current_time}

module _ (times : Times) {S F : Type 0} (hw : ModemHw S) (platform : Platform S)
    (cpu_temperature : S → F × S) where
  -- The time in the code's words, of a device and its system info.
  abbrev pub timed : Bool → Sys times S → Result Error (Option times.Time) × Sys times S
  timed = current_time times hw platform cpu_temperature

  abbrev pub asked : S → Result Error times.Time × S
  asked = get_modem_time times hw platform cpu_temperature

  abbrev pub kept : times.Time → SystemInfo times
  kept boot = record { boot_time = some boot }

  -- A synchronization asks the modem, gives the time that it answers, and keeps the time of the boot.
  pub current_time-asked :
      (info : SystemInfo times) (device after : S) (time boot : times.Time)
      → asked device ≡ (ok time, after)
      → times.checked_sub time (platform.now after) ≡ some boot
      → timed false (record { info = info; device = device })
        ≡ (ok (some time), record { info = kept boot; device = after })
  unfolding current_time ask_time booted
  current_time-asked info device after time boot a b =
      let back = times.add_back time boot (platform.now after) b in ground arith

  -- Once the time of the boot is kept, a cached time is that and the time since, and the modem is not
  -- asked.
  pub current_time_cached :
      (device : S) (boot time : times.Time)
      → times.checked_add boot (platform.now device) ≡ some time
      → timed true (record { info = kept boot; device = device })
        ≡ (ok (some time), record { info = kept boot; device = device })
  unfolding current_time ask_time booted
  current_time_cached device boot time a = ground arith

  -- A synchronization that succeeds gives the time that the modem answers; and whenever a cached time is
  -- asked for after it, it is the time of the boot and the time since, the modem is not asked, and nothing
  -- changes.
  pub current_time-current_time :
      (info : SystemInfo times) (device after later : S) (time boot now : times.Time)
      → asked device ≡ (ok time, after)
      → times.checked_sub time (platform.now after) ≡ some boot
      → times.checked_add boot (platform.now later) ≡ some now
      → let synced = timed false (record { info = info; device = device }) in
        let cached = timed true (record { info = synced.1.info; device = later }) in
        (synced.0 ≡ ok (some time))
        × (synced.1.device ≡ after)
        × (cached ≡ (ok (some now), record { info = kept boot; device = later }))
  current_time-current_time info device after later time boot now a b c =
      let synced = current_time-asked info device after time boot a b in
      (
        ap (λ done. done.0) synced,
        ap (λ done. done.1.device) synced,
        ap (λ done. timed true (record { info = done.1.info; device = later })) synced
            ∙ current_time_cached later boot now c,
      )

  -- If the modem gives no time, there is none, and what was kept stays.
  pub current_time_fails :
      (info : SystemInfo times) (device after : S) (e : Error)
      → asked device ≡ (err e, after)
      → timed false (record { info = info; device = device })
        ≡ (ok none, record { info = info; device = after })
  unfolding current_time ask_time booted
  current_time_fails info device after e a = ground arith
