-- ===== src/At/Uart/Broker/Lines.antt =====
-- `str::lines` without the empty lines, as common/src/at/uart.rs cuts what the modem sends.
use mathlib.Core.Logic.{◌≢◌}
use yaroc.Prelude.{◌≡◌, refl, ap, arith, List, [], ◌∷◌, ◌++◌, All}
use yaroc.Prelude.Text.{Text}
use yaroc.At.Uart.Broker.{lines, nonempty_lines, carriage_return, newline}

-- A line of text: it is not empty, and has no end of a line in it.
abbrev pub IsLine : Text → Type 0
IsLine line = (line ≢ []) × All (λ c. (c ≢ carriage_return) × (c ≢ newline)) line

-- The lines as the modem sends them, each between two ends of lines.
abbrev pub framed : List Text → Text
framed [] = []
framed (line ∷ rest) = 13 ∷ 10 ∷ line ++ 13 ∷ 10 ∷ framed rest

lines-end :
    (line rest : Text)
    → All (λ c. (c ≢ carriage_return) × (c ≢ newline)) line
    → lines (line ++ 13 ∷ 10 ∷ rest) ≡ line ∷ lines rest
unfolding lines
lines-end [] rest h = refl
lines-end (c ∷ line) rest h = ground (arith, lines-end line rest h.1)

-- The broker cuts what the modem sends into its lines: the carriage returns, the newlines and the
-- empty lines are left out, and the order is kept.
pub lines-framed : (ls : List Text) → All IsLine ls → nonempty_lines (lines (framed ls)) ≡ ls
unfolding lines nonempty_lines
lines-framed [] h = refl
lines-framed ([] ∷ ls) h = absurd (h.0.0 refl)
lines-framed ((c ∷ line) ∷ ls) h =
    rw (lines-end (c ∷ line) (framed ls) h.0.1) (ap (λ t. (c ∷ line) ∷ t) (lines-framed ls h.1))
