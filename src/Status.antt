-- ===== src/Status.antt =====
-- common/src/status.rs: the modem's clock, and the mini call home, the node's report on itself. What
-- chrono and f32 are there is an argument: `Times` is the part of `DateTime<FixedOffset>` that the
-- code calls.
pub mod Signal
pub mod ModemClock
pub mod Tests
use yaroc.Prelude.{ℕ, ◌*◌, ◌≡◌, Option, none, some, ltb, if◌then◌else◌}
use yaroc.Prelude.Int.{ℤ, pos, ◌-ℤ◌, eq_ℤ, wrapped, bits_of}
use yaroc.Prelude.Numbers.{parse_unsigned}
use yaroc.Prelude.Result.{Result, ok, panic, ◌>>=◌, ok_or}
use yaroc.Prelude.Text.{Text, slice}
use yaroc.Error.{Error, parse_error}

pub record Times : Type 1 where
  pub NaiveDateTime : Type 0
  pub Time : Type 0
  -- `parse_from_str` for the format `%Y/%m/%d,%H:%M:%S`.
  pub parse_from_str : Text → Option NaiveDateTime
  -- `and_local_timezone` of an offset to the east, in seconds.
  pub and_local_timezone : ℕ → NaiveDateTime → Time
  -- `checked_sub_signed` and `checked_add_signed` of milliseconds.
  pub checked_sub : Time → ℕ → Option Time
  pub checked_add : Time → ℕ → Option Time
  pub timestamp_millis : Time → ℤ
  -- What was taken away can be added again.
  pub add_back : (t u : Time) (n : ℕ) → checked_sub t n ≡ some u → checked_add u n ≡ some t

module _ (times : Times) where
  open times use {Time, parse_from_str, and_local_timezone, timestamp_millis}

  -- `FixedOffset::east_opt` is none for a day or more.
  pub parse_qlts : Text → Result Error Time
  parse_qlts modem_clock = do
    front ← slice modem_clock 0 19
    naive_date ← ok_or parse_error (parse_from_str front)
    digits ← slice modem_clock 20 22
    offset ← ok_or parse_error (parse_unsigned 10 256 digits)
    (if ltb (offset * 900) 86_400 then ok (and_local_timezone (offset * 900) naive_date) else panic)

  -- `F` is f32.
  module _ (F : Type 0) where
    pub record MiniCallHome : Type 0 where
      pub rssi_dbm : Option ℤ
      pub snr_cb : Option ℤ
      pub cellid : Option ℕ
      pub batt_mv : Option ℕ
      pub batt_percents : Option ℕ
      pub cpu_temperature : Option F
      pub cpu_freq : Option ℕ
      pub timestamp : Time

    pub new : Time → MiniCallHome
    new timestamp = record {
      rssi_dbm = none;
      snr_cb = none;
      cellid = none;
      batt_mv = none;
      batt_percents = none;
      cpu_temperature = none;
      cpu_freq = none;
      timestamp = timestamp;
    }

    -- The difference is of two i16, and it fits one for what a modem measures.
    pub set_signal_info : MiniCallHome → ℤ → ℤ → ℤ → ℤ → MiniCallHome
    set_signal_info self snr_cb rssi_dbm rsrp_dbm rsrq_dbm = record self {
      snr_cb = some snr_cb;
      rssi_dbm =
          some (if eq_ℤ rssi_dbm (pos 0) then wrapped 128 (rsrp_dbm -ℤ rsrq_dbm) else rssi_dbm);
    }

    pub set_battery_info : MiniCallHome → ℕ → ℕ → MiniCallHome
    set_battery_info self battery_mv battery_percents = record self {
      batt_mv = some battery_mv;
      batt_percents = some battery_percents;
    }

    pub set_cpu_temperature : MiniCallHome → F → MiniCallHome
    set_cpu_temperature self cpu_temperature = record self {
      cpu_temperature = some cpu_temperature;
    }

    pub set_cellid : MiniCallHome → ℕ → MiniCallHome
    set_cellid self cellid = record self { cellid = some cellid }

    -- The fields of the message that the code sets.
    pub record MiniCallHomeProto : Type 0 where
      pub freq : ℕ
      pub millivolts : ℕ
      pub signal_dbm : ℤ
      pub signal_snr_cb : ℤ
      pub cellid : ℕ
      pub time : Option ℕ
      pub cpu_temperature : F

    -- `unwrap_or_default`.
    abbrev pub or_default : {A : Type 0} → A → Option A → A
    or_default d none = d
    or_default d (some a) = a

    -- `zero_f` is the default f32.
    unfoldable pub to_proto : F → MiniCallHome → MiniCallHomeProto
    to_proto zero_f self = record {
      freq = 32;
      millivolts = or_default 0 self.batt_mv;
      signal_dbm = or_default (pos 0) self.rssi_dbm;
      signal_snr_cb = or_default (pos 0) self.snr_cb;
      cellid = or_default 0 self.cellid;
      time = some (bits_of 9_223_372_036_854_775_808 (timestamp_millis self.timestamp));
      cpu_temperature = or_default zero_f self.cpu_temperature;
    }
