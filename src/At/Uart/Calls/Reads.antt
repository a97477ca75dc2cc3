-- ===== src/At/Uart/Calls/Reads.antt =====
-- The loop of `read` of common/src/at/uart.rs: which lines make a reply, and what is left.
use mathlib.Core.List.{append_assoc}
use yaroc.Prelude.{◌+◌, ◌≤◌, ◌≡◌, refl, ap, sym, ◌∙◌, arith, true, false, ◌↔◌, inl, inr}
use yaroc.Prelude.{
  List, [], ◌∷◌, ◌++◌, map, length, ltb, length-append, Bool-cases, lt→ltb, le→ltb, ltb→lt, All,
}
use yaroc.Prelude.Result.{ok, err, panic}
use yaroc.Error.{buffer_too_small_error, timeout_error}
use yaroc.At.Types.{FromModem, terminal}
use yaroc.At.Uart.Broker.{Message}
use yaroc.At.Uart.Calls.{read_loop}

-- The last line ends the reply, and no line before it does.
abbrev pub IsReply : List FromModem → Type 0
IsReply [] = ⊥
IsReply (m ∷ []) = terminal m ≡ true
IsReply (m ∷ n ∷ ms) = (terminal m ≡ false) × IsReply (n ∷ ms)

abbrev pub sent : List FromModem → List Message
sent ms = map ok ms

reads_reply :
    (reply res : List FromModem) (left : List Message)
    → IsReply reply
    → length res + length reply ≤ 4
    → read_loop res (sent reply ++ left) ≡ (ok (res ++ reply), left)
unfolding read_loop
reads_reply [] res left h room = absurd h
reads_reply (m ∷ []) res left h room = rw (lt→ltb (length res) 4 (omega arith), h)
reads_reply (m ∷ n ∷ ms) res left h room = rw (
  lt→ltb (length res) 4 (omega arith),
  h.0,
  reads_reply (n ∷ ms) (res ++ m ∷ []) left h.1 (omega (arith, length-append res (m ∷ []))),
  append_assoc res (m ∷ []) (n ∷ ms),
)

-- What a read that succeeds took from the channel.
record Took (res lines : List FromModem) (queue left : List Message) : Type 0 where
  reply : List FromModem
  whole : IsReply reply
  fits : length lines ≤ 4
  all : lines ≡ res ++ reply
  front : queue ≡ sent reply ++ left

longer :
    {res lines : List FromModem} {queue left : List Message} (m : FromModem)
    → terminal m ≡ false
    → (reply : List FromModem) → IsReply reply
    → length lines ≤ 4
    → lines ≡ (res ++ m ∷ []) ++ reply
    → queue ≡ sent reply ++ left
    → Took res lines (ok m ∷ queue) left
longer m h [] whole fits all front = absurd whole
longer {res = res} m h (n ∷ ms) whole fits all front = record {
  reply = m ∷ n ∷ ms;
  whole = (h, whole);
  fits = fits;
  all = all ∙ append_assoc res (m ∷ []) (n ∷ ms);
  front = ap (λ t. ok m ∷ t) front;
}

reply_read :
    (queue : List Message) (res lines : List FromModem) (left : List Message)
    → read_loop res queue ≡ (ok lines, left)
    → Took res lines queue left
unfolding read_loop
reply_read [] res lines left h = absurd (cc)
reply_read (err e ∷ queue) res lines left h = absurd (cc)
reply_read (panic ∷ queue) res lines left h = absurd (cc)
reply_read (ok m ∷ queue) res lines left h = elim (Bool-cases (ltb (length res) 4)) [
  | inr full ↦ absurd (let e = rw full at h in cc (e))
  | inl room ↦ elim (Bool-cases (terminal m)) [
    | inl ends ↦
        let e = rw (room, ends) at h in
        let e1 : res ++ m ∷ [] ≡ lines = cc (e) in
        let e2 : queue ≡ left = cc (e) in
        record {
          reply = m ∷ [];
          whole = ends;
          fits = rw (← e1) (omega (arith, length-append res (m ∷ []), ltb→lt _ _ room));
          all = sym e1;
          front = ap (λ t. ok m ∷ t) e2;
        }
    | inr goes_on ↦
        let took = reply_read queue (res ++ m ∷ []) lines left (rw (room, goes_on) at h) in
        longer m goes_on took.reply took.whole took.fits took.all took.front
  ]
]

-- `read` succeeds exactly when the messages begin with a reply of at most four lines: it gives its
-- lines, and what comes behind is left in the channel.
pub read_loop_iff :
    (queue left : List Message) (lines : List FromModem)
    → (read_loop [] queue ≡ (ok lines, left))
      ↔ (IsReply lines × (length lines ≤ 4) × (queue ≡ sent lines ++ left))
read_loop_iff queue left lines = (
  λ h.
      let took = reply_read queue [] lines left h in
      (rw took.all took.whole, took.fits, took.front ∙ ap (λ t. sent t ++ left) (sym took.all)),
  λ (whole, fits, e). rw e (reads_reply lines [] left whole (omega arith)),
)

abbrev pub IsOpen : FromModem → Type 0
IsOpen m = terminal m ≡ false

times_out :
    (ms res : List FromModem)
    → All IsOpen ms
    → length res + length ms ≤ 4
    → read_loop res (sent ms) ≡ (err timeout_error, [])
unfolding read_loop
times_out [] res h room = refl
times_out (m ∷ ms) res h room =
    rw (lt→ltb (length res) 4 (omega arith), h.0)
      (times_out ms (res ++ m ∷ []) h.1 (omega (arith, length-append res (m ∷ []))))

overflows :
    (ms res : List FromModem) (m : FromModem) (left : List Message)
    → All IsOpen ms
    → length res + length ms ≡ 4
    → read_loop res (sent ms ++ ok m ∷ left) ≡ (err buffer_too_small_error, left)
unfolding read_loop
overflows [] res m left h room = rw (le→ltb (length res) 4 (omega arith))
overflows (n ∷ ms) res m left h room =
    rw (lt→ltb (length res) 4 (omega arith), h.0)
      (overflows ms (res ++ n ∷ []) m left h.1 (omega (arith, length-append res (n ∷ []))))

-- Up to four lines of a reply that does not end time out, and the lines are lost.
pub read_loop_times_out :
    (ms : List FromModem)
    → All IsOpen ms
    → length ms ≤ 4
    → read_loop [] (sent ms) ≡ (err timeout_error, [])
read_loop_times_out ms h room = times_out ms [] h (omega arith)

-- A fifth message behind four lines that do not end the reply is one too many, even if it would
-- end it: the lines are lost with it, and what comes behind is left in the channel.
pub read_loop_overflows :
    (ms : List FromModem) (m : FromModem) (left : List Message)
    → All IsOpen ms
    → length ms ≡ 4
    → read_loop [] (sent ms ++ ok m ∷ left) ≡ (err buffer_too_small_error, left)
read_loop_overflows ms m left h room = overflows ms [] m left h (omega arith)
