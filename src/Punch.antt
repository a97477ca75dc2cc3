-- ===== src/Punch.antt =====
-- common/src/punch.rs: SportIdent punches and their 20-byte form.
-- A byte is a number below 256 and a fixed array is the list of its bytes; `SiPunch::new` and the
-- decoders give `panic` where an `unwrap`, an `assert!` or an index of theirs panics.
pub mod Cards
pub mod Polynomials
pub mod Checksum
pub mod Message
pub mod RoundTrip
pub mod Payload
pub mod Weekdays
pub mod Clock
pub mod Tests
use Prim.Native.Nat.{◌-◌}
use yaroc.Prelude.{ℕ, zero, suc, ◌+◌, ◌*◌, ◌/◌, ◌%◌, ◌^◌, bit_and, bit_or, bit_xor}
use yaroc.Prelude.{
  List, [], ◌∷◌, ◌++◌, map, length, get_or, take, drop, ltb, leb, ◌==◌, if◌then◌else◌,
}
use yaroc.Prelude.Result.{Result, ok, err, panic, ◌>>=◌, ◌>>◌, unwrap, try_below, checked_sub}
use yaroc.Error.{Error, buffer_too_small_error}
use yaroc.Chrono.{Chrono, DateTime}

pub record SiPunch (c : Chrono) : Type 0 where
  pub card : ℕ
  pub code : ℕ
  pub time : DateTime c
  pub mode : ℕ
  pub raw : List ℕ

-- The message `Punch` of the schema.
pub record PunchProto : Type 0 where
  pub raw : List ℕ

pub to_proto : {c : Chrono} → SiPunch c → PunchProto
to_proto punch = record { raw = punch.raw }

abbrev pub early_series_complement : ℕ
early_series_complement = 100_000 - 2 ^ 16

abbrev pub billion_by_256 : ℕ
billion_by_256 = 1_000_000_000 / 256

-- The value at an index that is in range by the type of the array.
abbrev pub byte_at : List ℕ → ℕ → ℕ
byte_at bytes i = get_or bytes i 0

-- `from_be_bytes` and `to_be_bytes`.
abbrev pub u16_from_be_bytes : ℕ → ℕ → ℕ
u16_from_be_bytes a b = a * 256 + b

abbrev pub u32_from_be_bytes : ℕ → ℕ → ℕ → ℕ → ℕ
u32_from_be_bytes a b c d = ((a * 256 + b) * 256 + c) * 256 + d

abbrev pub u16_to_be_bytes : ℕ → List ℕ
u16_to_be_bytes n = (n / 256 % 256) ∷ (n % 256) ∷ []

abbrev pub u32_to_be_bytes : ℕ → List ℕ
u32_to_be_bytes n =
    (n / 256 / 256 / 256 % 256) ∷ (n / 256 / 256 % 256) ∷ (n / 256 % 256) ∷ (n % 256) ∷ []

-- One of the 16 rounds on the top bit of `val`.
pub checksum_round : ℕ → ℕ → ℕ
checksum_round chksum val =
    let shifted = chksum * 2 % 2 ^ 16 in
    let filled = if ltb 0 (bit_and val 0x8000) then (shifted + 1) % 2 ^ 16 else shifted in
    if ltb 0 (bit_and chksum 0x8000) then bit_xor filled 0x8005 else filled

-- `for _ in 0..16`, with the rounds left.
pub checksum_rounds : ℕ → ℕ → ℕ → ℕ
checksum_rounds zero chksum val = chksum
checksum_rounds (suc left) chksum val =
    checksum_rounds left (checksum_round chksum val) (val * 2 % 2 ^ 16)

-- `for i in (2..message.len()).step_by(2)`, over the bytes of `msg` from index `i`.
pub checksum_words : List ℕ → ℕ → ℕ → ℕ → ℕ
checksum_words (a ∷ b ∷ rest) i len chksum =
    if ltb i len
    then checksum_words rest (i + 2) len (checksum_rounds 16 chksum (u16_from_be_bytes a b))
    else chksum
checksum_words _ i len chksum = chksum

-- `msg`: the message with one zero byte, and a second where the count is odd. A `Vec<u8, 20>` that
-- is full panics.
pub padded : List ℕ → Result Error (List ℕ)
padded message =
    if ltb 19 (length message)
    then panic
    else if (length message + 1) % 2 == 1
    then if ltb 18 (length message) then panic else ok (message ++ 0 ∷ 0 ∷ [])
    else ok (message ++ 0 ∷ [])

pub sportident_checksum : List ℕ → Result Error ℕ
sportident_checksum message = do
  msg ← padded message
  ok (
      checksum_words (drop 2 msg) 2 (length message)
        (u16_from_be_bytes (byte_at msg 0) (byte_at msg 1)))

pub card_to_bytes : ℕ → List ℕ
card_to_bytes card =
    let series = card / 100_000 in
    u32_to_be_bytes (if leb series 4 then card - series * early_series_complement else card)

-- The card number in four bytes of a punch.
pub bytes_to_card : ℕ → ℕ → ℕ → ℕ → ℕ
bytes_to_card a b c d =
    let card = bit_and (u32_from_be_bytes a b c d) 0xffffff in
    let series = card / 2 ^ 16 in
    if leb series 4 then (card + series * early_series_complement) % 2 ^ 32 else card

module _ (chrono : Chrono) where
  open chrono use {
    Date, num_days_from_sunday, checked_sub_days, from_num_seconds, hour, num_seconds_from_midnight,
    nanosecond,
  }

  pub last_dow : ℕ → Date → Result Error Date
  last_dow dow today =
      if leb dow 7
      then unwrap (checked_sub_days today ((num_days_from_sunday today + 7 - dow) % 7))
      else panic

  pub bytes_to_datetime : List ℕ → Date → Result Error (DateTime chrono)
  bytes_to_datetime bytes today = do
    let dow = bit_and (byte_at bytes 0) 14 / 2
    date ← last_dow dow today
    let seconds =
        bit_and (byte_at bytes 0) 1 * (12 * 60 * 60)
        + u16_from_be_bytes (byte_at bytes 1) (byte_at bytes 2)
    let nanos = byte_at bytes 3 * billion_by_256
    time ← unwrap (from_num_seconds seconds nanos)
    ok (record { date = date; time = time })

  pub time_to_bytes : DateTime chrono → Result Error (List ℕ)
  time_to_bytes time = do
    weekday ← try_below 256 (num_days_from_sunday time.date)
    let afternoon = leb 12 (hour time.time)
    let first = weekday * 2 % 256
    let seconds = num_seconds_from_midnight time.time
    secs ← (if afternoon then checked_sub seconds (12 * 60 * 60) else ok seconds)
    half_day ← try_below 65_536 secs
    fraction ← try_below 256 (nanosecond time.time / billion_by_256)
    ok ((if afternoon then bit_or first 1 else first) ∷ u16_to_be_bytes half_day ++ fraction ∷ [])

  -- The writes into `res` follow one another, so the array is the bytes of each in turn.
  pub punch_to_bytes : ℕ → ℕ → DateTime chrono → ℕ → Result Error (List ℕ)
  punch_to_bytes card code time mode = do
    time_bytes ← time_to_bytes time
    let body = u16_to_be_bytes code ++ card_to_bytes card ++ time_bytes ++ mode ∷ 0 ∷ 1 ∷ []
    chksum ← sportident_checksum (0xd3 ∷ 0x0d ∷ body)
    ok (0xff ∷ 0x02 ∷ 0xd3 ∷ 0x0d ∷ body ++ u16_to_be_bytes chksum ++ 0x03 ∷ [])

  -- `SiPunch::new`.
  pub new : ℕ → ℕ → DateTime chrono → ℕ → Result Error (SiPunch chrono)
  new card code time mode = do
    raw ← punch_to_bytes card code time mode
    ok (record { card = card; code = code; time = time; mode = mode; raw = raw })

  pub from_raw : List ℕ → Date → Result Error (SiPunch chrono)
  from_raw bytes today = do
    let payload = drop 4 bytes
    let code = u16_from_be_bytes (bit_and (byte_at payload 0) 1) (byte_at payload 1)
    let card =
        bytes_to_card (byte_at payload 2) (byte_at payload 3) (byte_at payload 4)
          (byte_at payload 5)
    let rest = drop 6 payload
    datetime ← bytes_to_datetime rest today
    ok (record {
      card = card;
      code = code;
      time = datetime;
      mode = bit_and (byte_at rest 4) 15;
      raw = bytes;
    })
