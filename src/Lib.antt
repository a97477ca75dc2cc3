-- ===== src/Lib.antt =====
-- yaroc: the radio readout of SportIdent punches, from the firmware that reads them and sends them by
-- a cellular modem to the server that receives them.
--
-- The parts and the files that model them:
-- * common/src/punch.rs (Punch): a punch and its 20 bytes. `SiPunch::new`, `from_raw`, `last_dow` and
--   the encoders and decoders of cards and times are functions of the same names; a byte is a number
--   below 256 and an array the list of its bytes. Punch/Payload has `punches_from_payload`.
-- * common/src/at/response.rs (At/Types, At/Values, At/Response): the answers of the modem.
--   `CommandResponse::new`, `command`, `values`, `split_values` and `pick_values` are in At/Values,
--   `AtResponse::new`, `response` and `parse1` to `parse4` in At/Response. A text is the list of its
--   UTF-8 bytes; all that the modem writes is taken for ASCII, so that a slice by bytes never cuts a
--   character.
-- * common/src/at/uart.rs (At/Uart/Broker, At/Uart/Calls): the broker turns the bytes of the UART into
--   messages of the main channel; `AtUart` writes commands and reads their replies from there.
--   At/Uart/Fake has the two fakes of that file as the far end of `AtUart`.
-- * nrf52840/src/bg77_hw.rs (Nrf/Hardware): the trait of the modem as a record of operations, which
--   Nrf/Hardware/Bg77 fills by the calls of `AtUart`. The clients take any such record.
-- * nrf52840/src/mqtt.rs (Nrf/Mqtt): the MQTT client in the modem, its handler of URCs (Urcs), and the
--   sending of a message until the modem reports on it (Sending).
-- * nrf52840/src/system_info.rs, common/src/status.rs (Nrf/SystemInfo, Status): the clock of the modem
--   and the mini call home, the report of a node on itself.
-- * nrf52840/src/si_uart.rs (Nrf/SiUart): the software UART over what the code does with its pin and
--   its clock (`Line`), and in Reader what goes to the channel of punches. Nrf/SiUart/Timing has what
--   the code relies on, and Nrf/SiUart/Wire a device that has it.
-- * nrf52840/src/send_punch.rs (Nrf/SendPunch): the parts of the firmware in one state, the rounds of
--   its event handler, and those of its main loop.
-- * python/src/status.rs, python/src/punch.rs, python/src/logs.rs, python/src/meshtastic.rs
--   (Python/Status, Python/Punches, Python/Logs, Python/Addresses, Python/Meshtastic): the server's state
--   of a node, its punches, and the logs that it makes of the messages of a node. Python/Server is all
--   that the server uses of other crates, as one record.
-- * python/src/message_handler.rs (Python/Handler): the maps of names and statuses. The methods of
--   `MessageHandler` are in Python/Handler/Cellular and Python/Handler/Mesh, and Python/Handler/Requests
--   has them as steps. A `HashMap` is the list of its entries (Prelude/Dict); `&mut` into a map is a
--   function on the entry, whose outcome is put back. Python/Handler/Table is the table from addresses
--   to statuses that the maps stand for.
-- * python/src/python.rs (Python/Raspberry): the model of a Raspberry Pi from its name.
--
-- A function that may fail gives a `Result`: a value, an error, or `panic`, where an `unwrap`, an
-- index or an `assert!` of the code panics. A method that changes a state and may fail is an `Exec`, a
-- function from the state to the result and the state, so that what was done before an error stays
-- done. The clients act on the whole device, since codes and time come in while a method waits.
--
-- Bounds and fuel: the capacities of heapless vectors and strings are tested where they are filled.
-- `split_values_loop` and `chunks_of` have fuel for as many rounds as there are bytes, and each round
-- takes a byte at least. `await_report` has fuel for the reports of tries that failed; one more than
-- are to come is enough. Sums of the code that stay far below the bound of their type are sums of
-- natural numbers; where the code wraps, the wrap is written out.
--
-- Parameters, for code outside of the repository: chrono's dates and times of day (Chrono, with the
-- documented laws that the code relies on, and an instance), its times with an offset (Status), the
-- UART, the pins, timers, signals and channels of embassy, the cycles of the processor, the encoding of femtopb and prost, distances of
-- geoutils, and floats. What a method reads of the clock is an argument; a message has one day for all
-- its punches.
--
-- Not modelled: the set-up of peripherals and tasks, output for people (Display, defmt), generated
-- protocol buffers, and the bindings to Python.
pub mod Prelude
pub mod Chrono
pub mod Error
pub mod Punch
pub mod At
pub mod Status
pub mod Nrf
pub mod Python
