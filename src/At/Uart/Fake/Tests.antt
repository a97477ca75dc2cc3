-- ===== src/At/Uart/Fake/Tests.antt =====
-- A command to the fake modem of common/src/at/uart.rs, as the tests of the crate send it.
use yaroc.Prelude.{ℕ, ◌≡◌, refl, ◌≢◌, arith, Bool, false, none, [], ◌∷◌, All}
use yaroc.Prelude.Result.{Result, ok}
use yaroc.Prelude.Text.{codes}
use yaroc.Error.{Error}
use yaroc.At.Types.{CommandResponse, FromModem}
use yaroc.At.Response
use yaroc.At.Values.RoundTrip.{raw}
use yaroc.At.Uart.Broker.Exchange.{Answer, IsAnswer, Shows, line}
use yaroc.At.Uart.Calls.{call_at}
use yaroc.At.Uart.Fake.{write, arrivals}
use yaroc.At.Uart.Fake.Scripts.{written, replied, idle, call_at-answer}

-- A handler that takes nothing.
abbrev leave : CommandResponse → ℕ → Result Error (Bool × ℕ)
leave r s = ok (false, s)

abbrev creg : Answer
creg = record { name = codes "CREG"; items = raw (codes "0") ∷ [] }

-- Neither a carriage return nor a newline.
abbrev Inside : ℕ → Type 0
Inside c = (c ≢ 13) × (c ≢ 10)

inside : All Inside (line creg)
inside = (
  (omega arith, omega arith),
  (
    (omega arith, omega arith),
    (
      (omega arith, omega arith),
      (
        (omega arith, omega arith),
        (
          (omega arith, omega arith),
          (
            (omega arith, omega arith),
            ((omega arith, omega arith), ((omega arith, omega arith), tt)),
          ),
        ),
      ),
    ),
  ),
)

creg-IsAnswer : IsAnswer creg
creg-IsAnswer = record {
  named = (omega arith, (omega arith, (omega arith, (omega arith, tt))));
  valued = ((omega arith, (omega arith, tt)), tt);
  ends = λ e. absurd (cc (e));
  few = omega arith;
  fits = omega arith;
  whole = (λ e. absurd (cc (e)), inside);
}

call_at-answer_example :
    (r : CommandResponse) × Shows creg r
    × (call_at write
          (arrivals leave)
          (codes "+CREG?")
          10
          none
          (idle leave ((written (codes "+CREG?"), replied creg) ∷ []) 7)
        ≡ (
          Response.new (FromModem.command_response r ∷ FromModem.ok ∷ []) (codes "+CREG?"),
          idle leave [] 7,
        ))
call_at-answer_example =
    call_at-answer leave (codes "+CREG?") 10 creg [] 7 (omega arith) creg-IsAnswer (λ r shows. refl)
