-- ===== src/At/Types.antt =====
-- The types of common/src/at/response.rs. A text is the list of its bytes; `heapless`' `String` and
-- `Vec` are texts and lists, and the functions that fill one test its capacity.
use yaroc.Prelude.{ℕ, Bool, true, false, List}
use yaroc.Prelude.Text.{Text}

pub record Substring : Type 0 where
  pub start : ℕ
  pub end : ℕ

abbrev pub at_command_size : ℕ
at_command_size = 90

abbrev pub at_lines : ℕ
at_lines = 4

abbrev pub at_value_len : ℕ
at_value_len = 40

abbrev pub at_value_count : ℕ
at_value_count = 8

pub record CommandResponse : Type 0 where
  pub line : Text
  pub prefix : Substring

pub data FromModem : Type 0 where
  line : Text → FromModem
  command_response : CommandResponse → FromModem
  ok error eof : FromModem

pub record AtResponse : Type 0 where
  pub lines : List FromModem
  pub command : Text

-- `FromModem::terminal`.
unfoldable pub terminal : FromModem → Bool
terminal FromModem.ok = true
terminal FromModem.error = true
terminal FromModem.eof = true
terminal _ = false
