-- ===== src/At.antt =====
-- common/src/at: the AT commands of the modem and its answers.
pub mod Types
pub mod Values
pub mod Response
pub mod Uart
