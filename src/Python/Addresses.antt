-- ===== src/Python/Addresses.antt =====
-- `MacAddress` of python/src/logs.rs as a key of maps, and as the text that Python gets.
pub mod Display
use yaroc.Prelude.{◌≡◌, ◌↔◌, Bool, true, false, ◌==◌, ==_iff, ap}
use yaroc.Prelude.Dict.{Eq}
use yaroc.Python.Punches.{MacAddress, full, meshtastic}

abbrev pub mac_beq : MacAddress → MacAddress → Bool
mac_beq (full m) (full n) = m == n
mac_beq (meshtastic m) (meshtastic n) = m == n
mac_beq _ _ = false

pub mac_beq_iff : (a b : MacAddress) → (mac_beq a b ≡ true) ↔ (a ≡ b)
mac_beq_iff (full m) (full n) = ((λ h. ap full ((==_iff m n).0 h)), (λ h. (==_iff m n).1 cc))
mac_beq_iff (meshtastic m) (meshtastic n) =
    ((λ h. ap meshtastic ((==_iff m n).0 h)), (λ h. (==_iff m n).1 cc))
mac_beq_iff (full m) (meshtastic n) = ((λ h. cc), (λ h. cc))
mac_beq_iff (meshtastic m) (full n) = ((λ h. cc), (λ h. cc))

instance abbrev pub mac_eq : Eq MacAddress
mac_eq = record { beq = mac_beq; beq_iff = mac_beq_iff }
