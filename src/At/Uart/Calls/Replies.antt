-- ===== src/At/Uart/Calls/Replies.antt =====
-- `call_at_impl` and `call_at` of common/src/at/uart.rs: what comes of a command, for each reply.
use yaroc.Prelude.{ℕ, ◌≤◌, ◌≡◌, refl, ◌≢◌, arith, Bool, true, none, some}
use yaroc.Prelude.{List, [], ◌∷◌, ◌++◌, length, last?, le→ltb, length-append}
use yaroc.Prelude.Result.{Result, ok, err}
use yaroc.Prelude.Text.{Text, codes}
use yaroc.Error.{Error, modem_error, at_error_response}
use yaroc.At.Types.{FromModem, AtResponse}
use yaroc.At.Response
use yaroc.At.Uart.Broker.{Message}
use yaroc.At.Uart.Calls.{
  AtUart, checked_lines, read, write, write_at, call_at_impl, with_response, call_at,
}
use yaroc.At.Uart.Calls.Reads.{IsReply, sent, read_loop_iff}

-- A reply with the last line that ends it.
abbrev pub EndsIn : FromModem → List FromModem → Type 0
EndsIn m lines = last? lines ≡ some m

-- The error of a last line that is not OK.
abbrev pub failure : FromModem → Error
failure FromModem.error = at_error_response
failure _ = modem_error

checked_fails :
    (reply : List FromModem) (m : FromModem)
    → EndsIn m reply
    → m ≢ FromModem.ok
    → checked_lines reply ≡ err (failure m)
unfolding checked_lines
checked_fails reply (FromModem.line t) e other = rw (checked_lines, e)
checked_fails reply (FromModem.command_response r) e other = rw (checked_lines, e)
checked_fails reply FromModem.ok e other = absurd (other refl)
checked_fails reply FromModem.error e other = rw (checked_lines, e)
checked_fails reply FromModem.eof e other = rw (checked_lines, e)

module _ {W : Type 0} (send : Text → W → Bool × W) (arrivals : ℕ → W → List Message × W) where
  -- What the far end does with a command: the text is sent, and the reply and more comes in time.
  pub record Answers (command : Text) (timeout : ℕ) (reply : List FromModem) (left : List Message)
      (s : AtUart W) : Type 0 where
    pub sends : (send (codes "AT" ++ command ++ 13 ∷ []) s.wire).0 ≡ true
    pub gives :
        s.channel ++ (arrivals timeout (send (codes "AT" ++ command ++ 13 ∷ []) s.wire).1).0
        ≡ sent reply ++ left
    pub fits : length command ≤ 87
    pub whole : IsReply reply
    pub few : length reply ≤ 4

  -- The UART when the reply was read.
  abbrev pub behind : Text → ℕ → List Message → AtUart W → AtUart W
  behind command timeout left s = record {
    channel = left;
    wire = (arrivals timeout (send (codes "AT" ++ command ++ 13 ∷ []) s.wire).1).1;
  }

  call_at_impl-reply :
      (command : Text) (timeout : ℕ) (reply : List FromModem) (left : List Message) (s : AtUart W)
      → Answers command timeout reply left s
      → call_at_impl send arrivals command timeout s
        ≡ (checked_lines reply, behind command timeout left s)
  unfolding call_at_impl write_at write read
  call_at_impl-reply command timeout reply left s a =
      let reads = (read_loop_iff (sent reply ++ left) left reply).1 (a.whole, a.few, refl) in
      rw (
        le→ltb 90 (length (codes "AT" ++ command ++ 13 ∷ []))
            (omega (arith, a.fits, length-append command (13 ∷ []))),
        a.sends,
        a.gives,
        reads,
      )

  -- A command whose reply ends in OK gives the lines of the reply and the command up to its sign,
  -- and what comes behind the reply is left in the channel.
  pub call_at-reply :
      (command : Text) (timeout : ℕ) (reply : List FromModem) (left : List Message) (s : AtUart W)
      → Answers command timeout reply left s
      → EndsIn FromModem.ok reply
      → call_at send arrivals command timeout none s
        ≡ (Response.new reply command, behind command timeout left s)
  unfolding call_at with_response checked_lines
  call_at-reply command timeout reply left s a e =
      let checked : checked_lines reply ≡ ok reply = rw (checked_lines, e) in
      rw (call_at_impl-reply command timeout reply left s a, checked)

  -- A command whose reply ends otherwise fails: as an AT error, if it ends in ERROR, and else as an
  -- error of the modem. What comes behind the reply is left in the channel.
  pub call_at_fails :
      (command : Text) (timeout : ℕ) (reply : List FromModem) (left : List Message) (s : AtUart W)
      (m : FromModem)
      → Answers command timeout reply left s
      → EndsIn m reply
      → m ≢ FromModem.ok
      → call_at send arrivals command timeout none s
        ≡ (err (failure m), behind command timeout left s)
  unfolding call_at with_response
  call_at_fails command timeout reply left s m a e other =
      let first = call_at_impl-reply command timeout reply left s a in
      rw (first, checked_fails reply m e other)

  -- What the end of a reply makes of it.
  abbrev pub outcome : FromModem → List FromModem → Text → Result Error AtResponse
  outcome FromModem.ok reply command = Response.new reply command
  outcome m reply command = err (failure m)

  -- A command whose whole reply is read ends by the last line of it: in OK, it gives the lines of the
  -- reply and the command up to its sign; in ERROR, an AT error; and else an error of the modem. What
  -- comes behind the reply is left in the channel.
  pub call_at-outcome :
      (command : Text) (timeout : ℕ) (reply : List FromModem) (left : List Message) (s : AtUart W)
      (m : FromModem)
      → Answers command timeout reply left s
      → EndsIn m reply
      → call_at send arrivals command timeout none s
        ≡ (outcome m reply command, behind command timeout left s)
  call_at-outcome command timeout reply left s FromModem.ok a e =
      call_at-reply command timeout reply left s a e
  call_at-outcome command timeout reply left s FromModem.error a e =
      call_at_fails command timeout reply left s FromModem.error a e (λ same. cc same)
  call_at-outcome command timeout reply left s FromModem.eof a e =
      call_at_fails command timeout reply left s FromModem.eof a e (λ same. cc same)
  call_at-outcome command timeout reply left s (FromModem.line t) a e =
      call_at_fails command timeout reply left s (FromModem.line t) a e (λ same. cc same)
  call_at-outcome command timeout reply left s (FromModem.command_response r) a e =
      call_at_fails command timeout reply left s (FromModem.command_response r) a e
        (λ same. cc same)
