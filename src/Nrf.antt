-- ===== src/Nrf.antt =====
-- nrf52840/src: the firmware, which reads punches and sends them by a cellular modem.
pub mod Error
pub mod Hardware
pub mod Mqtt
pub mod SystemInfo
pub mod SendPunch
pub mod SiUart
pub mod Tests
