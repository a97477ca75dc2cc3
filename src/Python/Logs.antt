-- ===== src/Python/Logs.antt =====
-- python/src/logs.rs and common/src/time.rs: what the server reads from the messages of a cellular
-- node. `timestamp_millis_opt` of the zone is an argument, and so is the difference of two times.
pub mod Report
pub mod Tests
use yaroc.Prelude.{ℕ, ◌%◌, Bool, Option, none, some, ltb, if◌then◌else◌}
use yaroc.Prelude.Int.{ℤ, pos, fits, wrapped}
use yaroc.Prelude.Result.{Result, ok, err, panic, ◌>>=◌, ok_or, unwrap}
use yaroc.Prelude.Text.{Text}
use yaroc.Error.{Error, format_error}
use yaroc.Status.{Times, MiniCallHome, MiniCallHomeProto}
use yaroc.Python.Punches.{MacAddress, HostInfo}

-- `EventType` as it is decoded.
pub data EventType : Type 0 where
  added removed : EventType
  unknown : ℤ → EventType

-- `i8::try_from(n).map_err(|_| Error::FormatError)` and its kin.
abbrev pub try_fit : ℕ → ℤ → Result Error ℤ
try_fit half z = if fits half z then ok z else err format_error

module _ (times : Times) {Duration : Type 0} (F : Type 0)
    (timestamp_millis_opt : ℤ → Option times.Time)
    (minus : times.Time → times.Time → Duration) where
  pub datetime_from_timestamp : ℕ → Result Error times.Time
  datetime_from_timestamp millis_epoch =
      unwrap (timestamp_millis_opt (wrapped 9_223_372_036_854_775_808 (pos millis_epoch)))

  pub record MiniCallHomeLog : Type 0 where
    pub mini_call_home : MiniCallHome times F
    pub host_info : HostInfo
    pub latency : Duration

  pub new :
      Text → MacAddress → times.Time → MiniCallHomeProto times F → Result Error MiniCallHomeLog
  new name mac_address now mch_proto = do
    millis_epoch ← ok_or format_error mch_proto.time
    timestamp ← datetime_from_timestamp millis_epoch
    rssi_dbm ← try_fit 128 mch_proto.signal_dbm
    snr_cb ← try_fit 32_768 mch_proto.signal_snr_cb
    ok (record {
      mini_call_home = record {
        rssi_dbm = some rssi_dbm;
        snr_cb = some snr_cb;
        cellid = if ltb 0 mch_proto.cellid then some mch_proto.cellid else none;
        batt_mv = some (mch_proto.millivolts % 65_536);
        batt_percents = none;
        cpu_temperature = some mch_proto.cpu_temperature;
        cpu_freq = none;
        timestamp = timestamp;
      };
      host_info = record { name = name; mac_address = mac_address };
      latency = minus now timestamp;
    })

  -- `status::Msg`, and the log that is made of it.
  pub data Msg : Type 0 where
    disconnected : Text → Msg
    mini_call_home : MiniCallHomeProto times F → Msg
    dev_event : Text → EventType → Msg

  pub data CellularLogMessage : Type 0 where
    disconnected : Text → Text → CellularLogMessage
    mch : MiniCallHomeLog → CellularLogMessage
    device_event : Text → Text → Bool → CellularLogMessage

  unfoldable pub from_proto :
      Option Msg → MacAddress → Text → times.Time → Result Error CellularLogMessage
  from_proto none mac_addr hostname now = err format_error
  from_proto (some (Msg.disconnected client_name)) mac_addr hostname now =
      ok (CellularLogMessage.disconnected hostname client_name)
  from_proto (some (Msg.mini_call_home proto)) mac_addr hostname now =
      new hostname mac_addr now proto >>= λ log. ok (mch log)
  from_proto (some (Msg.dev_event port (unknown n))) mac_addr hostname now = err format_error
  from_proto (some (Msg.dev_event port added)) mac_addr hostname now =
      ok (device_event hostname port Bool.true)
  from_proto (some (Msg.dev_event port removed)) mac_addr hostname now =
      ok (device_event hostname port Bool.false)
