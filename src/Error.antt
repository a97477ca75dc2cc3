-- ===== src/Error.antt =====
-- common/src/error.rs and nrf52840/src/error.rs: the error types of the two crates, and the
-- conversion that the firmware's `?` makes.

-- `Error` of the common crate.
pub data Error : Type 0 where
  buffer_too_small_error format_error parse_error value_error modem_error : Error
  uart_read_error uart_write_error at_error_response timeout_error string_encoding_error : Error
