-- ===== src/Nrf/SiUart.antt =====
-- nrf52840/src/si_uart.rs: SportIdent's UART, read by the hardware and by software from a pin. The pin,
-- the counter of cycles and the delay of the processor are a parameter.
pub mod Timing
pub mod Digits
pub mod Frames
pub mod Wire
pub mod Reader
pub mod Tests
use yaroc.Prelude.{ℕ, zero, suc, ◌+◌, ◌-◌, ◌*◌, ◌/◌, ◌%◌, ◌^◌, bit_or, Bool, List, [], ◌∷◌}
use yaroc.Prelude.{ltb, if◌then◌else◌}

-- What the code does with its pin and its processor; each step is one of the device `S`.
pub record Line (S : Type 0) : Type 0 where
  pub wait_for_low : S → S
  pub wait_for_high : S → S
  pub is_high : S → Bool × S
  -- `DWT::cycle_count`, a u32, and `cortex_m::asm::delay`.
  pub cycle_count : S → ℕ × S
  pub delay : ℕ → S → S

abbrev pub cycles_per_bit : ℕ
cycles_per_bit = 1664

-- The subtraction of u32 wraps, without overflow checks: a negative discrepancy is a large one.
abbrev pub discrepancy_of : ℕ → ℕ → ℕ → ℕ
discrepancy_of start_cycles i now =
    (start_cycles + (200 + (i + 1) * cycles_per_bit) + (4_294_967_296 - now)) % 4_294_967_296

module _ {S : Type 0} (line : Line S) where
  pub wait_for_bit : ℕ → ℕ → S → S
  wait_for_bit start_cycles i s =
      let counted = line.cycle_count s in
      let discrepancy = discrepancy_of start_cycles i counted.0 in
      if ltb discrepancy (cycles_per_bit * 2)
      then line.delay (discrepancy * 2 / 3) counted.1
      else counted.1

  -- The bits from `i` on, as many as the first number.
  pub read_bits : ℕ → ℕ → ℕ → ℕ → S → ℕ × S
  read_bits zero i start_cycles byte s = (byte, s)
  read_bits (suc n) i start_cycles byte s =
      let sampled = line.is_high (wait_for_bit start_cycles i s) in
      read_bits n (suc i) start_cycles (if sampled.0 then bit_or byte (2 ^ i) else byte) sampled.1

  pub read_byte : S → ℕ × S
  read_byte s =
      let started = line.cycle_count (line.wait_for_low s) in
      let done = read_bits 8 0 started.0 0 started.1 in (done.0, line.wait_for_high done.1)

  pub read_bytes : ℕ → S → List ℕ × S
  read_bytes zero s = ([], s)
  read_bytes (suc n) s =
      let first = read_byte s in let rest = read_bytes n first.1 in (first.0 ∷ rest.0, rest.1)

  -- `SoftwareSerial::read`.
  pub read : S → List ℕ × S
  read s = read_bytes 20 s
