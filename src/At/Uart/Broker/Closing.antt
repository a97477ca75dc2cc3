-- ===== src/At/Uart/Broker/Closing.antt =====
-- What `parse_lines` of common/src/at/uart.rs sends for a piece of text, whatever the text is: the
-- reader of the channel is never left waiting inside of a reply.
use yaroc.Prelude.{◌≡◌, refl, ap, sym, ◌∙◌, Bool, true, false, Option, none, some}
use yaroc.Prelude.{List, [], ◌∷◌, ◌++◌, last?, if◌then◌else◌, if◌then◌else◌}
use yaroc.Prelude.Result.{Result, ok, >>=-eq-ok}
use mathlib.Core.Path.{subst}
use yaroc.Prelude.Text.{Text}
use yaroc.Error.{Error}
use yaroc.At.Types.{CommandResponse, FromModem, terminal}
use yaroc.At.Uart.Broker.{
  Message, lines, nonempty_lines, to_send, opens, offered, parse_lines_loop, parse_lines,
}

-- Whether a reply is open behind the messages, given whether one was before.
abbrev open_after : Bool → List Message → Bool
open_after before [] = before
open_after before (m ∷ ms) = open_after (opens m) ms

abbrev Closes : Option Message → Type 0
Closes none = Unit
Closes (some m) = opens m ≡ false

-- The last message that was sent ends a reply or is an error.
abbrev pub IsClosed : List Message → Type 0
IsClosed ms = Closes (last? ms)

open_after-append :
    (before : Bool) (ms : List Message) (m : Message) → open_after before (ms ++ m ∷ []) ≡ opens m
open_after-append before [] m = refl
open_after-append before (n ∷ ms) m = open_after-append (opens n) ms m

open_after-IsClosed :
    (before : Bool) (ms : List Message) → open_after before ms ≡ false → IsClosed ms
open_after-IsClosed before [] h = tt
open_after-IsClosed before (n ∷ []) h = h
open_after-IsClosed before (n ∷ k ∷ ms) h = open_after-IsClosed (opens n) (k ∷ ms) h

ok_inj : {A : Type 0} {x y : A} → ◌≡◌ {A = Result Error A} (ok x) (ok y) → x ≡ y
ok_inj h = cc (h)

-- One message more in front, unless it was taken.
open_round :
    (taken before opened : Bool) (message : Message) (later : List Message)
    → open_after (if taken then before else opens message) later ≡ opened
    → open_after before (if taken then later else message ∷ later) ≡ opened
open_round true before opened message later h = h
open_round false before opened message later h = h

IsClosed-end :
    (opened : Bool) (ms : List Message)
    → open_after false ms ≡ opened
    → IsClosed (if opened then ms ++ ok FromModem.eof ∷ [] else ms)
unfolding opens terminal
IsClosed-end true ms h =
    open_after-IsClosed false (ms ++ ok FromModem.eof ∷ [])
      (open_after-append false ms (ok FromModem.eof))
IsClosed-end false ms h = open_after-IsClosed false ms h

module _ {S : Type 0} (urc_handler : CommandResponse → S → Result Error (Bool × S)) where
  loop_open :
      (ls : List Text) (before : Bool) (s : S) {done : List Message × Bool × S}
      → parse_lines_loop urc_handler ls before s ≡ ok done
      → open_after before done.0 ≡ done.1
  unfolding parse_lines_loop
  loop_open [] before s {done = done} h =
      let e = ok_inj h in
      ap (λ (d : List Message × Bool × S). open_after before d.0) (sym e)
      ∙ ap (λ (d : List Message × Bool × S). d.1) e
  loop_open (l ∷ ls) before s {done = done} h =
      let (message, e, h1) = >>=-eq-ok (to_send l) _ h in
      let (taken, e2, h2) = >>=-eq-ok (offered urc_handler message s) _ h1 in
      let (later, e3, h3) = >>=-eq-ok (parse_lines_loop urc_handler ls _ taken.1) _ h2 in
      let front = open_round taken.0 before later.1 message later.0 (loop_open ls _ taken.1 e3) in
      let same = ok_inj h3 in
      ap (λ (d : List Message × Bool × S). open_after before d.0) (sym same)
      ∙ front
      ∙ ap (λ (d : List Message × Bool × S). d.1) same

  -- Whenever the broker is through with a piece of text without a panic, the last message that it
  -- sent for it ends a reply or is an error, whatever lines the text has and whichever of them the
  -- handler takes: where the last line that was sent would leave a reply open, an end is sent.
  pub parse_lines-IsClosed :
      (text : Text) (s : S) (sent : List Message) (after : S)
      → parse_lines urc_handler text s ≡ ok (sent, after)
      → IsClosed sent
  unfolding parse_lines
  parse_lines-IsClosed text s sent after h =
      let ls = nonempty_lines (lines text) in
      let (done, e, h1) = >>=-eq-ok (parse_lines_loop urc_handler ls false s) _ h in
      let same = ok_inj h1 in
      subst (λ (d : List Message × S). IsClosed d.0) same
        (IsClosed-end done.1 done.0 (loop_open ls false s e))
