-- ===== src/Nrf/SystemInfo.antt =====
-- `SystemInfo` of nrf52840/src/system_info.rs: the time, and what the modem knows about the node.
pub mod BootTime
pub mod Tests
use yaroc.Prelude.{
  ℕ, ◌+◌, ◌*◌, Bool, true, false, ◌||◌, not, Option, none, some, ◌==◌, if◌then◌else◌,
}
use yaroc.Prelude.Int.{ℤ, sub_ℕ}
use yaroc.Prelude.Numbers.{parse_unsigned, parse_signed, parse_text}
use yaroc.Prelude.Result.{Result, ok, err, panic, ok_or}
use yaroc.Prelude.Exec.{Exec, pure, fail, lift, gets, convert, ◌>>=◌, ◌>>◌}
use yaroc.Prelude.Text.{Text, codes, text_eq}
use yaroc.Error.{Error as CommonError}
use yaroc.Nrf.Error.{Error, from_common, parse_error, network_registration_error}
use yaroc.Nrf.Hardware.{ModemHw, Platform}
use yaroc.At.Types.{AtResponse}
use yaroc.At.Response.{count_response_values, parse1, parse2, parse4}
use yaroc.Status.{
  Times, MiniCallHome, new, set_signal_info, set_battery_info, set_cpu_temperature, set_cellid,
  parse_qlts,
}
use yaroc.Nrf.Mqtt.{parse_u8, parse_u32, parse_i8}

module _ (times : Times) where
  open times use {Time, checked_sub, checked_add}

  pub record SystemInfo : Type 0 where
    pub boot_time : Option Time

  -- The system info and the device that it asks.
  pub record Sys (S : Type 0) : Type 0 where
    pub info : SystemInfo
    pub device : S

  abbrev pub has_value : {A : Type 0} → Option A → Bool
  has_value none = false
  has_value (some a) = true

  -- `count_response_values() != Ok(5)`.
  abbrev pub is_five : Result CommonError ℕ → Result Error Bool
  is_five (ok n) = ok (n == 5)
  is_five (err e) = ok false
  is_five panic = panic

  module _ {S F : Type 0} (hw : ModemHw S) (platform : Platform S)
      (cpu_temperature : S → F × S) where
    -- `.ok()` and `if let Ok(…)`.
    abbrev pub attempt : {A : Type 0} → Exec S Error A → Exec S Error (Option A)
    attempt m s = elim (m s).0 [
      | ok a ↦ (ok (some a), (m s).1)
      | err e ↦ (ok none, (m s).1)
      | panic ↦ (panic, (m s).1)
    ]

    abbrev pub on_device : {A : Type 0} → Exec S Error A → Exec (Sys S) Error A
    on_device m sys = let (r, device) = m sys.device in (r, record sys { device = device })

    pub get_modem_time : Exec S Error Time
    get_modem_time = do
      answer ← hw.simple_call_at (codes "+QLTS=2") none
      modem_clock ← lift (convert from_common (parse1 (parse_text 25) text_eq answer 0 none))
      lift (convert from_common (parse_qlts times modem_clock))

    -- What `current_time` does with the modem's time. The text of the boot time that is logged, which
    -- is unwrapped, is left out: that of a year of four digits fits.
    pub booted : Time → Exec (Sys S) Error (Option Time)
    booted time sys = elim (checked_sub time (platform.now sys.device)) [
      | none ↦ (panic, sys)
      | some boot ↦ (ok (some boot), record sys { info = record { boot_time = some boot } })
    ]

    -- The boot time and the time since.
    abbrev pub since : Option Time → ℕ → Result Error (Option Time)
    since none now = ok none
    since (some boot) now = elim (checked_add boot now) [
      | none ↦ panic
      | some time ↦ ok (some time)
    ]

    pub ask_time : Exec (Sys S) Error (Option Time)
    ask_time = do
      found ← on_device (attempt get_modem_time)
      (elim found [ none ↦ pure none | some time ↦ booted time ])

    pub current_time : Bool → Exec (Sys S) Error (Option Time)
    current_time cached = do
      before ← gets (λ sys. sys.info.boot_time)
      boot ← (if not (has_value before) || not cached then ask_time else pure before)
      now ← gets (λ sys. platform.now sys.device)
      lift (since boot now)

    -- The millivolts and the percents.
    pub battery_state : Exec S Error (ℕ × ℕ)
    battery_state = do
      answer ← hw.simple_call_at (codes "+CBC") none
      found ←
          lift (
            convert from_common
              (parse2 parse_u8 ◌==◌ (parse_unsigned 10 65_536) answer (1, 2) none))
      pure (found.1, found.0)

    pub signal_info : Exec S Error (ℤ × ℤ × ℕ × ℤ)
    signal_info = do
      answer ← hw.simple_call_at (codes "+QCSQ") none
      five ← lift (is_five (count_response_values answer))
      (if five
          then lift (
              convert from_common (
                parse4 parse_i8 (λ _ _. false) (parse_signed 32_768) parse_u8 parse_i8 answer
                  (1, 2, 3, 4)))
          else fail network_registration_error)

    pub cellid : Exec S Error ℕ
    cellid = do
      answer ← hw.simple_call_at (codes "+CEREG?") none
      found ←
          lift (convert from_common (parse2 parse_u32 ◌==◌ (parse_text 8) answer (1, 3) (some 1)))
      lift (ok_or parse_error (parse_unsigned 16 4_294_967_296 found.1))

    abbrev pub with_battery : Option (ℕ × ℕ) → MiniCallHome times F → MiniCallHome times F
    with_battery none report = report
    with_battery (some (mv, percents)) report = set_battery_info times F report mv percents

    abbrev pub with_signal : Option (ℤ × ℤ × ℕ × ℤ) → MiniCallHome times F → MiniCallHome times F
    with_signal none report = report
    with_signal (some (rssi, rsrp, snr_mult, rsrq)) report =
        set_signal_info times F report (sub_ℕ (snr_mult * 2) 200) rssi rsrp rsrq

    abbrev pub with_cellid : Option ℕ → MiniCallHome times F → MiniCallHome times F
    with_cellid none report = report
    with_cellid (some cell) report = set_cellid times F report cell

    -- The report at a time.
    pub report : Time → Exec S Error (MiniCallHome times F)
    report timestamp = do
      temperature ← (λ s. let (t, s') = cpu_temperature s in (ok t, s'))
      battery ← attempt battery_state
      signal ← attempt signal_info
      cell ← attempt cellid
      pure (
          with_cellid cell (
            with_signal signal (
              with_battery battery
                (set_cpu_temperature times F (new times F timestamp) temperature))))

    pub mini_call_home : Exec (Sys S) Error (Option (MiniCallHome times F))
    mini_call_home = do
      time ← current_time true
      (elim time [
        | none ↦ pure none
        | some timestamp ↦ (do made ← on_device (report timestamp); pure (some made))
      ])
