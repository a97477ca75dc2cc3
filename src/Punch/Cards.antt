-- ===== src/Punch/Cards.antt =====
-- `card_to_bytes` of common/src/punch.rs against the card number that `from_raw` reads.
use Prim.Native.Nat.{◌-◌}
use yaroc.Prelude.{ℕ, ◌*◌, ◌/◌, ◌%◌, ◌^◌, ◌≤◌, ◌<◌, ◌≡◌, ◌↔◌, arith}
use mathlib.Core.Logic.{◌≢◌}
use native.Mathlib.Decide.{dec_lt}
use yaroc.Prelude.Bits.Masks.{bit_and_ones}
use yaroc.Punch.{card_to_bytes, bytes_to_card, byte_at, u32_from_be_bytes}

-- The numbers that SportIdent gives to cards of four bytes: below 2 ^ 24, and in the early series,
-- of a hundred thousand each, only the first 2 ^ 16 of a series.
pub record IsCardNumber (n : ℕ) : Type 0 where
  pub fits : n < 2 ^ 24
  pub early : n < 500_000 → n % 100_000 < 2 ^ 16

-- The card number that `from_raw` reads from the bytes that `card_to_bytes` writes.
abbrev pub reread : ℕ → ℕ
reread n =
    let bytes = card_to_bytes n in
    bytes_to_card (byte_at bytes 0) (byte_at bytes 1) (byte_at bytes 2) (byte_at bytes 3)

be_bytes :
    (n : ℕ)
    → n < 2 ^ 32
    → u32_from_be_bytes (n / 256 / 256 / 256 % 256) (n / 256 / 256 % 256) (n / 256 % 256) (n % 256)
      ≡ n
be_bytes n h = omega arith

reread_early : (n : ℕ) → n < 500_000 → n % 100_000 < 2 ^ 16 → reread n ≡ n
unfolding card_to_bytes bytes_to_card
reread_early n h r =
    ground (arith, bit_and_ones 24 (n - n / 100_000 * 34_464), be_bytes (n - n / 100_000 * 34_464))

reread_late : (n : ℕ) → 500_000 ≤ n → n < 2 ^ 24 → reread n ≡ n
unfolding card_to_bytes bytes_to_card
reread_late n h r = ground (arith, bit_and_ones 24 n, be_bytes n)

reread_past_series : (n : ℕ) → n < 500_000 → 2 ^ 16 ≤ n % 100_000 → reread n ≢ n
unfolding card_to_bytes bytes_to_card
reread_past_series n h r =
    ground (arith, bit_and_ones 24 (n - n / 100_000 * 34_464), be_bytes (n - n / 100_000 * 34_464))

reread_too_large : (n : ℕ) → 2 ^ 24 ≤ n → n < 2 ^ 32 → reread n ≢ n
unfolding card_to_bytes bytes_to_card
reread_too_large n h r = ground (arith, bit_and_ones 24 n, be_bytes n)

-- A card number of 32 bits is read back exactly when it is one that SportIdent gives out.
pub reread_iff : (n : ℕ) → n < 2 ^ 32 → (reread n ≡ n) ↔ IsCardNumber n
reread_iff n h = (to, from)
  where
    to : reread n ≡ n → IsCardNumber n
    to e = record {
      fits = elim (dec_lt n (2 ^ 24)) [
        | yes p ↦ p
        | no p ↦ absurd (reread_too_large n (omega arith) h e)
      ];
      early = λ small. elim (dec_lt (n % 100_000) (2 ^ 16)) [
        | yes p ↦ p
        | no p ↦ absurd (reread_past_series n small (omega arith) e)
      ];
    }

    from : IsCardNumber n → reread n ≡ n
    from v = elim (dec_lt n 500_000) [
      | yes p ↦ reread_early n p (v.early p)
      | no p ↦ reread_late n (omega arith) v.fits
    ]
