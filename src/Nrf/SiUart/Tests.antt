-- ===== src/Nrf/SiUart/Tests.antt =====
-- The theorems on nrf52840/src/si_uart.rs at a concrete device.
use yaroc.Prelude.{ℕ, ◌<◌, ◌≡◌, refl, arith, inr, Option, some, List, [], ◌∷◌, All}
use yaroc.Prelude.Result.{ok}
use yaroc.Chrono.Sample.{sample}
use yaroc.Punch.{SiPunch}
use yaroc.Punch.RoundTrip.{IsReread}
use yaroc.Punch.Tests.{thursday, punch_bytes, written, punch-new}
use yaroc.Nrf.SiUart.{read, read_bytes}
use yaroc.Nrf.SiUart.Frames.{read_bytes-AreFrames}
use yaroc.Nrf.SiUart.Wire.{wave, starts, sent-AreFrames, device, timed}
use yaroc.Nrf.SiUart.Reader.{si_uart_reader, si_uart_reader-new}

abbrev two_bytes : List ℕ
two_bytes = 0xe0 ∷ 0x1a ∷ []

read_bytes-AreFrames_example : (read_bytes (device two_bytes) 2 0).0 ≡ two_bytes
read_bytes-AreFrames_example =
    read_bytes-AreFrames (device two_bytes) (wave two_bytes) (timed two_bytes) (starts 0 two_bytes)
      0 (sent-AreFrames two_bytes (omega arith, (omega arith, tt)))

bytes_fit : All (λ b. b < 256) punch_bytes
bytes_fit = omega arith

-- The date of the code.
abbrev fixed_date : ℕ → ℕ → ℕ → Option ℕ
fixed_date year month day = some 705

si_uart_reader-new_example :
    (q : SiPunch sample) × (si_uart_reader sample fixed_date (inr (read (device punch_bytes) 0).0)
      ≡ ok q)
    × IsReread sample 1_715_004 47 thursday 2 (omega arith) q
    × (q.raw ≡ punch_bytes)
si_uart_reader-new_example =
    si_uart_reader-new sample (device punch_bytes) (wave punch_bytes) (timed punch_bytes) 1_715_004
      47 thursday 2 (omega arith) fixed_date 705 written (starts 0 punch_bytes) 0
      (record { fits = omega arith; early = λ small. omega arith }) (omega arith) (omega arith) refl
      (omega arith) (omega arith, omega arith) punch-new refl (sent-AreFrames punch_bytes bytes_fit)
