-- ===== src/Punch/Tests.antt =====
-- The unit tests of common/src/punch.rs, and the theorems at concrete inputs.
use yaroc.Prelude.{ℕ, zero, suc, ◌++◌, ◌≡◌, refl, [], ◌∷◌, List}
use yaroc.Prelude.Result.{ok, panic}
use yaroc.Chrono.{DateTime}
use yaroc.Chrono.Sample.{sample}
use yaroc.Punch.{sportident_checksum, padded, checksum_words, checksum_rounds, checksum_round}
use yaroc.Punch.{card_to_bytes, time_to_bytes, punch_to_bytes, new, from_raw, last_dow}
use yaroc.Punch.{bytes_to_datetime, bytes_to_card, SiPunch}
use yaroc.Prelude.{◌<◌, ◌≤◌, ◌↔◌, ◌⊎◌, arith, drop}
use yaroc.Punch.Cards.{IsCardNumber, reread, reread_iff}
use yaroc.Punch.Weekdays.{IsLast, last_dow_iff}
use yaroc.Punch.Clock.{IsTold, told_seconds, IsCut, bytes_to_datetime-time_to_bytes}
use yaroc.Punch.Polynomials.{IsRemainder}
use yaroc.Punch.Message.{polynomial, sportident_checksum_iff}
use yaroc.Punch.RoundTrip.{IsReread, from_raw-new, from_raw_cases}
use yaroc.Punch.Payload.{
  IsReadAs, joined, frames, results, punches_from_payload, punches_from_payload-joined,
  punches_from_payload_panics,
}

checksums :
    (sportident_checksum
        (0xd3 ∷ 0x0d ∷ 0 ∷ 2 ∷ 0 ∷ 0x1f ∷ 0xb5 ∷ 0xf3 ∷ 0x18 ∷ 0x99 ∷ 0x41 ∷ 0x73 ∷ 0 ∷ 7 ∷ 8 ∷ [])
      ≡ ok 0x8f98)
    × (sportident_checksum (1 ∷ 0x80 ∷ 5 ∷ []) ≡ ok 0)
unfolding sportident_checksum padded checksum_words checksum_rounds checksum_round
checksums = (refl, refl)

card_series :
    (card_to_bytes 65535 ≡ 0 ∷ 0 ∷ 0xff ∷ 0xff ∷ [])
    × (card_to_bytes 416_534 ≡ 0 ∷ 4 ∷ 0x40 ∷ 0x96 ∷ [])
    × (card_to_bytes 81_110_151 ≡ 4 ∷ 0xd5 ∷ 0xa4 ∷ 0x87 ∷ [])
unfolding card_to_bytes
card_series = (refl, refl, refl)

-- A Thursday at 10:00:03.793.
abbrev pub thursday : DateTime sample
thursday = record { date = 704; time = record { secs = 36_003; nanos = 793_000_000 } }

time_bytes : time_to_bytes sample thursday ≡ ok (0x8 ∷ 0x8c ∷ 0xa3 ∷ 0xcb ∷ [])
unfolding time_to_bytes
time_bytes = refl

abbrev pub punch_bytes : List ℕ
punch_bytes =
    0xff ∷ 2 ∷ 0xd3 ∷ 0x0d ∷ 0 ∷ 0x2f ∷ 0 ∷ 0x1a ∷ 0x2b ∷ 0x3c ∷ 8 ∷ 0x8c ∷ 0xa3 ∷ 0xcb ∷ 2 ∷ 0 ∷ 1
    ∷ 0x50 ∷ 0xe3 ∷ 3 ∷ []

punch : punch_to_bytes sample 1_715_004 47 thursday 2 ≡ ok punch_bytes
unfolding punch_to_bytes time_to_bytes card_to_bytes sportident_checksum padded checksum_words
    checksum_rounds checksum_round
punch = refl

abbrev pub written : SiPunch sample
written = record { card = 1_715_004; code = 47; time = thursday; mode = 2; raw = punch_bytes }

pub punch-new : new sample 1_715_004 47 thursday 2 ≡ ok written
unfolding new
punch-new = rw punch refl

sportident_checksum_iff_example :
    (sportident_checksum (1 ∷ 0x80 ∷ 5 ∷ []) ≡ ok 0)
    ↔ IsRemainder (polynomial (1 ∷ 0x80 ∷ 5 ∷ [])) 0
sportident_checksum_iff_example =
    sportident_checksum_iff (1 ∷ 0x80 ∷ 5 ∷ []) 0 (omega arith, (omega arith, (omega arith, tt)))
      (omega arith)

reread_iff_example : (reread 81_110_151 ≡ 81_110_151) ↔ IsCardNumber 81_110_151
reread_iff_example = reread_iff 81_110_151 (omega arith)

last_dow_iff_example : (last_dow sample 4 705 ≡ ok 704) ↔ IsLast sample 4 705 704
last_dow_iff_example = last_dow_iff sample 4 705 704 (omega arith) (omega arith)

abbrev time_part : List ℕ
time_part = 0x8 ∷ 0x8c ∷ 0xa3 ∷ 0xcb ∷ []

bytes_to_datetime-time_to_bytes_example :
    (bytes : List ℕ) × (time_to_bytes sample thursday ≡ ok bytes)
    × (read : DateTime sample) × (bytes_to_datetime sample bytes 705 ≡ ok read)
    × IsCut sample thursday read
bytes_to_datetime-time_to_bytes_example =
    bytes_to_datetime-time_to_bytes sample thursday 705 (omega arith) (omega arith)
      (omega arith, omega arith)

from_raw-new_example :
    (p : SiPunch sample) × (new sample 1_715_004 47 thursday 2 ≡ ok p)
    × (q : SiPunch sample) × (from_raw sample p.raw 705 ≡ ok q)
    × IsReread sample 1_715_004 47 thursday 2 (omega arith) q
    × (q.raw ≡ p.raw)
from_raw-new_example =
    from_raw-new sample 1_715_004 47 thursday 2 (omega arith) 705
      (record { fits = omega arith; early = λ small. omega arith }) (omega arith) (omega arith)
      (omega arith) (omega arith, omega arith)

from_raw_cases_example :
    ((told_seconds sample (drop 10 punch_bytes) < 86_400)
      × (q : SiPunch sample) × (from_raw sample punch_bytes 705 ≡ ok q)
      × IsTold sample (drop 10 punch_bytes) 705 q.time
      × (q.raw ≡ punch_bytes))
    ⊎ ((86_400 ≤ told_seconds sample (drop 10 punch_bytes))
        × (from_raw sample punch_bytes 705 ≡ panic))
from_raw_cases_example = from_raw_cases sample punch_bytes 705 (omega arith) (omega arith)

-- A leap second.
abbrev leap : DateTime sample
leap = record { date = 704; time = record { secs = 86_399; nanos = 1_500_000_000 } }

abbrev pub punch_read : SiPunch sample
punch_read = record {
  card = 1_715_004;
  code = 47;
  time = record { date = 704; time = record { secs = 36_003; nanos = 792_968_750 } };
  mode = 2;
  raw = punch_bytes;
}

pub reads : IsReadAs sample 705 (punch_bytes, punch_read)
unfolding from_raw bytes_to_datetime last_dow bytes_to_card
reads = record { frame = refl; reads = refl }

punches_from_payload-joined_example :
    punches_from_payload sample
      (joined (frames sample 705 ((punch_bytes, punch_read) ∷ [])) (0xff ∷ 2 ∷ []))
      705
    ≡ ok (results sample 705 ((punch_bytes, punch_read) ∷ []) (0xff ∷ 2 ∷ []))
punches_from_payload-joined_example =
    punches_from_payload-joined sample 705 ((punch_bytes, punch_read) ∷ []) (0xff ∷ 2 ∷ [])
      (reads, tt) (omega arith) (omega arith)

-- Eleven frames.
abbrev long_payload : ℕ → List ℕ
long_payload zero = []
long_payload (suc n) = punch_bytes ++ long_payload n

punches_from_payload_panics_example : punches_from_payload sample (long_payload 11) 705 ≡ panic
punches_from_payload_panics_example =
    punches_from_payload_panics sample 705 (long_payload 11) (omega arith)
