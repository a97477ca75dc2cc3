-- ===== src/Nrf/Mqtt/Urcs/Signals.antt =====
-- `qmtpub_handler` of nrf52840/src/mqtt.rs: the report on a message goes to the message's signal.
use yaroc.Prelude.{ℕ, zero, suc, ◌<◌, ◌≡◌, ◌≢◌, refl, ap, arith, true, Option, some}
use yaroc.Prelude.{List, [], ◌∷◌, length, get_elem?, lt→ltb}
use yaroc.Prelude.Result.{ok, panic}
use yaroc.Prelude.Text.{codes, text_eq}
use yaroc.At.Types.{CommandResponse}
use yaroc.At.Values.{command, parse_values}
use yaroc.Nrf.Mqtt.{parse_u8}
use yaroc.Nrf.Mqtt.Urcs.{
  UrcState, or_zero, set_signal, qmtpub_values, qmtpub_parsed, qmtpub_handler, urc_handler,
}

-- The signals when one was set, and no other.
pub record HasSignal (idx : ℕ) (value : ℕ × ℕ) (before after : List (Option (ℕ × ℕ))) : Type 0 where
  pub at : get_elem? after idx ≡ some (some value)
  pub others : (j : ℕ) → j ≢ idx → get_elem? after j ≡ get_elem? before j
  pub size : length after ≡ length before

set_at :
    (signals : List (Option (ℕ × ℕ))) (idx : ℕ) (value : ℕ × ℕ)
    → idx < length signals
    → get_elem? (set_signal signals idx value) idx ≡ some (some value)
set_at [] idx value h = absurd (omega arith)
set_at (signal ∷ signals) zero value h = refl
set_at (signal ∷ signals) (suc idx) value h = set_at signals idx value (omega arith)

set_others :
    (signals : List (Option (ℕ × ℕ))) (idx j : ℕ) (value : ℕ × ℕ)
    → j ≢ idx
    → get_elem? (set_signal signals idx value) j ≡ get_elem? signals j
set_others [] idx j value h = refl
set_others (signal ∷ signals) zero zero value h = absurd (h refl)
set_others (signal ∷ signals) zero (suc j) value h = refl
set_others (signal ∷ signals) (suc idx) zero value h = refl
set_others (signal ∷ signals) (suc idx) (suc j) value h =
    set_others signals idx j value (λ e. h (ap suc e))

set_size :
    (signals : List (Option (ℕ × ℕ))) (idx : ℕ) (value : ℕ × ℕ)
    → length (set_signal signals idx value) ≡ length signals
set_size [] idx value = refl
set_size (signal ∷ signals) zero value = refl
set_size (signal ∷ signals) (suc idx) value = ap suc (set_size signals idx value)

set_HasSignal :
    (signals : List (Option (ℕ × ℕ))) (idx : ℕ) (value : ℕ × ℕ)
    → idx < length signals
    → HasSignal idx value signals (set_signal signals idx value)
set_HasSignal signals idx value h = record {
  at = set_at signals idx value h;
  others = λ j. set_others signals idx j value;
  size = set_size signals idx value;
}

module _ (now : ℕ) (response : CommandResponse) (s : UrcState)
    (named : command response ≡ ok (codes "QMTPUB")) where
  handler-values :
      (values : List ℕ)
      → parse_values parse_u8 response ≡ ok values
      → urc_handler now response s ≡ qmtpub_values values s
  unfolding urc_handler qmtpub_handler qmtpub_parsed text_eq
  handler-values values h = rw (named, h)

  -- A report that the modem sends on a message of the client 0: its result and its retries, 0 if
  -- they are left out, become the signal of the message, and no other signal and no event changes.
  pub urc_handler-report :
      (idx result : ℕ) (rest : List ℕ)
      → parse_values parse_u8 response ≡ ok (0 ∷ idx ∷ result ∷ rest)
      → idx < length s.signals
      → (after : UrcState) × (urc_handler now response s ≡ ok (true, after))
        × HasSignal idx (result, or_zero (get_elem? rest 0)) s.signals after.signals
        × (after.events ≡ s.events)
  unfolding qmtpub_values
  urc_handler-report idx result rest h room =
      let value : ℕ × ℕ = (result, or_zero (get_elem? rest 0)) in
      (
        record s { signals = set_signal s.signals idx value },
        rw (handler-values (0 ∷ idx ∷ result ∷ rest) h, lt→ltb idx (length s.signals) room),
        set_HasSignal s.signals idx value room,
        refl,
      )

  -- Fewer values than a report has: none, the client 0 alone, or the client 0 and a message that has
  -- a signal.
  pub data TooShort : List ℕ → Type 0 where
    nothing : TooShort []
    only_client : TooShort (0 ∷ [])
    no_result : (idx : ℕ) → idx < length s.signals → TooShort (0 ∷ idx ∷ [])

  -- A report with too few values panics.
  pub urc_handler_panics :
      (values : List ℕ)
      → parse_values parse_u8 response ≡ ok values
      → TooShort values
      → urc_handler now response s ≡ panic
  unfolding qmtpub_values
  urc_handler_panics values h nothing = rw (handler-values [] h)
  urc_handler_panics values h only_client = rw (handler-values (0 ∷ []) h)
  urc_handler_panics values h (no_result idx room) =
      rw (handler-values (0 ∷ idx ∷ []) h, lt→ltb idx (length s.signals) room)
