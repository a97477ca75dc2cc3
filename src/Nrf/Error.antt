-- ===== src/Nrf/Error.antt =====
-- nrf52840/src/error.rs: the firmware's errors, and the conversion of the common crate's.
use yaroc.Prelude.Int.{ℤ}
use yaroc.Error.{Error as CommonError}

pub data Error : Type 0 where
  buffer_too_small_error format_error value_error parse_error string_encoding_error : Error
  uart_read_error uart_write_error at_error_response timeout_error modem_error : Error
  network_registration_error : Error
  mqtt_error : ℤ → Error

-- `From<common_error::Error>`.
unfoldable pub from_common : CommonError → Error
from_common CommonError.buffer_too_small_error = buffer_too_small_error
from_common CommonError.modem_error = modem_error
from_common CommonError.value_error = value_error
from_common CommonError.parse_error = parse_error
from_common CommonError.uart_read_error = uart_read_error
from_common CommonError.uart_write_error = uart_write_error
from_common CommonError.string_encoding_error = string_encoding_error
from_common CommonError.format_error = format_error
from_common CommonError.at_error_response = at_error_response
from_common CommonError.timeout_error = timeout_error
