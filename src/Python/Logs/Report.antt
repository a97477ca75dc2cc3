-- ===== src/Python/Logs/Report.antt =====
-- A mini call home from the firmware to the server: `to_proto` of common/src/status.rs against
-- `from_proto` of python/src/logs.rs.
use yaroc.Prelude.{ℕ, ◌%◌, ◌<◌, ◌≡◌, arith, true, Option, none, some, ltb, if◌then◌else◌}
use yaroc.Prelude.Int.{ℤ, pos, negsuc, Fits, fits, wrapped, bits_of}
use yaroc.Prelude.Result.{ok}
use yaroc.Prelude.Text.{Text}
use yaroc.Status.{Times, MiniCallHome, or_default, to_proto}
use yaroc.Python.Punches.{MacAddress}
use yaroc.Python.Logs.{datetime_from_timestamp, new, mini_call_home, mch, from_proto}

-- A signed number of 64 bits is sent as an unsigned one and read back.
sent_back :
    (z : ℤ)
    → Fits 9_223_372_036_854_775_808 z
    → wrapped 9_223_372_036_854_775_808 (pos (bits_of 9_223_372_036_854_775_808 z)) ≡ z
sent_back (pos n) h = ground arith
sent_back (negsuc n) h = ground arith

fits-Fits : (half : ℕ) (z : ℤ) → Fits half z → fits half z ≡ true
fits-Fits half (pos n) h = ground arith
fits-Fits half (negsuc n) h = ground arith

module _ (times : Times) {Duration : Type 0} (F : Type 0)
    (timestamp_millis_opt : ℤ → Option times.Time) (minus : times.Time → times.Time → Duration)
    (zero_f : F) where
  -- The numbers of the report are of their types, and its time is that of its milliseconds.
  pub record IsReport (self : MiniCallHome times F) : Type 0 where
    pub rssi : Fits 128 (or_default times F (pos 0) self.rssi_dbm)
    pub snr : Fits 32_768 (or_default times F (pos 0) self.snr_cb)
    pub millivolts : or_default times F 0 self.batt_mv < 65_536
    pub in_range : Fits 9_223_372_036_854_775_808 (times.timestamp_millis self.timestamp)
    pub known : timestamp_millis_opt (times.timestamp_millis self.timestamp) ≡ some self.timestamp

  -- What the server shows of a report: its values, where they are missing those that protobuf has by
  -- default, but no cell 0 and no percents.
  abbrev pub shown : MiniCallHome times F → MiniCallHome times F
  shown self = record {
    rssi_dbm = some (or_default times F (pos 0) self.rssi_dbm);
    snr_cb = some (or_default times F (pos 0) self.snr_cb);
    cellid = let cell = or_default times F 0 self.cellid in if ltb 0 cell then some cell else none;
    batt_mv = some (or_default times F 0 self.batt_mv);
    batt_percents = none;
    cpu_temperature = some (or_default times F zero_f self.cpu_temperature);
    cpu_freq = none;
    timestamp = self.timestamp;
  }

  -- A mini call home that the firmware sends is read by the server as the log of its values, at its
  -- time and with its latency. A signal, a battery or a temperature that the firmware does not know is
  -- read as 0, and a percentage of the battery is lost.
  pub from_proto-to_proto :
      (self : MiniCallHome times F) (mac : MacAddress) (name : Text) (now : times.Time)
      → IsReport self
      → from_proto times F timestamp_millis_opt minus
          (some (mini_call_home (to_proto times F zero_f self)))
          mac
          name
          now
        ≡ ok (
            mch (record {
              mini_call_home = shown self;
              host_info = record { name = name; mac_address = mac };
              latency = minus now self.timestamp;
            }))
  unfolding from_proto new datetime_from_timestamp to_proto
  from_proto-to_proto self mac name now h =
      let millivolts : or_default times F 0 self.batt_mv % 65_536
          ≡ or_default times F 0 self.batt_mv =
        omega (arith, h.millivolts) in
      rw (
        sent_back (times.timestamp_millis self.timestamp) h.in_range,
        h.known,
        fits-Fits 128 (or_default times F (pos 0) self.rssi_dbm) h.rssi,
        fits-Fits 32_768 (or_default times F (pos 0) self.snr_cb) h.snr,
        millivolts,
      )
