-- ===== src/At/Uart/Calls/Tests.antt =====
-- The theorems on the calls of common/src/at/uart.rs at concrete replies.
use yaroc.Prelude.{
  ℕ, zero, suc, All, ◌≤◌, ◌≡◌, ◌↔◌, refl, arith, Bool, true, none, List, [], ◌∷◌, ◌++◌, length,
}
use yaroc.Prelude.Text.{Text, codes}
use yaroc.Prelude.Result.{ok, err}
use yaroc.Error.{at_error_response}
use yaroc.At.Types.{FromModem, terminal}
use yaroc.At.Uart.Broker.{Message}
use yaroc.At.Uart.Calls.{AtUart, read_loop, call_at}
use yaroc.At.Uart.Calls.Reads.{IsReply, sent, read_loop_iff, IsOpen}
use yaroc.At.Uart.Calls.Replies.{Answers, behind, call_at-outcome}

abbrev reply : FromModem → List FromModem
reply m = FromModem.line (codes "ATI") ∷ m ∷ []

read_loop_iff_example :
    (read_loop [] (ok (FromModem.line (codes "ATI")) ∷ ok FromModem.ok ∷ ok FromModem.eof ∷ [])
      ≡ (ok (reply FromModem.ok), ok FromModem.eof ∷ []))
    ↔ (IsReply (reply FromModem.ok)
        × (length (reply FromModem.ok) ≤ 4)
        × (ok (FromModem.line (codes "ATI")) ∷ ok FromModem.ok ∷ ok FromModem.eof ∷ []
            ≡ sent (reply FromModem.ok) ++ ok FromModem.eof ∷ []))
read_loop_iff_example =
    read_loop_iff (ok (FromModem.line (codes "ATI")) ∷ ok FromModem.ok ∷ ok FromModem.eof ∷ [])
      (ok FromModem.eof ∷ []) (reply FromModem.ok)

abbrev lines : ℕ → List FromModem
lines zero = []
lines (suc n) = FromModem.line (codes "ATI") ∷ lines n

IsOpen-lines : (n : ℕ) → All IsOpen (lines n)
unfolding terminal
IsOpen-lines zero = tt
IsOpen-lines (suc n) = (refl, IsOpen-lines n)

-- A modem that takes every text, and answers to it with the reply.
abbrev send : Text → Text → Bool × Text
send message wire = (true, message)

abbrev arrivals : FromModem → ℕ → Text → List Message × Text
arrivals m timeout wire = (sent (reply m), wire)

abbrev idle : AtUart Text
idle = record { channel = []; wire = [] }

answers :
    (m : FromModem)
    → terminal m ≡ true
    → Answers send (arrivals m) (codes "I") 300 (reply m) [] idle
unfolding terminal
answers m h = record {
  sends = refl;
  gives = refl;
  fits = omega arith;
  whole = (refl, h);
  few = omega arith;
}

call_at-outcome_example :
    call_at send (arrivals FromModem.error) (codes "I") 300 none idle
    ≡ (err at_error_response, behind send (arrivals FromModem.error) (codes "I") 300 [] idle)
call_at-outcome_example =
    call_at-outcome send (arrivals FromModem.error) (codes "I") 300 (reply FromModem.error) [] idle
      FromModem.error (answers FromModem.error (unfold terminal in refl)) refl
