-- ===== src/At/Uart.antt =====
-- common/src/at/uart.rs: the broker of what the modem sends, and the calls of AT commands.
pub mod Broker
pub mod Calls
pub mod Fake
