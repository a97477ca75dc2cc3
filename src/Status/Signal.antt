-- ===== src/Status/Signal.antt =====
-- The signal of a mini call home of common/src/status.rs, as the server receives it.
use yaroc.Prelude.{zero, suc, ◌≡◌, refl, arith, if◌then◌else◌}
use yaroc.Prelude.Int.{ℤ, pos, negsuc, ◌-ℤ◌, eq_ℤ, Fits, wrapped, wrapped-Fits_i8}
use yaroc.Status.{Times, MiniCallHome, set_signal_info, to_proto}

difference :
    (z d : ℤ)
    → (z ≡ pos 0 → Fits 128 d)
    → (if eq_ℤ z (pos 0) then wrapped 128 d else z) ≡ (if eq_ℤ z (pos 0) then d else z)
difference (pos zero) d h = wrapped-Fits_i8 d (h refl)
difference (pos (suc n)) d h = ground arith
difference (negsuc n) d h = refl

module _ (times : Times) (F : Type 0) (zero_f : F) where
  -- The server receives the signal that the modem measured: its RSSI, or where the modem has none
  -- and says 0, the RSRP less the RSRQ, if that fits an i8; and the other fields stay as they were.
  pub to_proto-set_signal_info :
      (self : MiniCallHome times F) (snr rssi rsrp rsrq : ℤ)
      → (rssi ≡ pos 0 → Fits 128 (rsrp -ℤ rsrq))
      → let proto = to_proto times F zero_f (set_signal_info times F self snr rssi rsrp rsrq) in
        let before = to_proto times F zero_f self in
        (proto.signal_dbm ≡ (if eq_ℤ rssi (pos 0) then rsrp -ℤ rsrq else rssi))
        × (proto.signal_snr_cb ≡ snr)
        × (proto.millivolts ≡ before.millivolts)
        × (proto.cellid ≡ before.cellid)
        × (proto.time ≡ before.time)
        × (proto.cpu_temperature ≡ before.cpu_temperature)
  unfolding to_proto set_signal_info
  to_proto-set_signal_info self snr rssi rsrp rsrq h =
      (difference rssi (rsrp -ℤ rsrq) h, refl, refl, refl, refl, refl)
