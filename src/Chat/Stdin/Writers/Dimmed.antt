-- ===== src/Chat/Stdin/Writers/Dimmed.antt =====
-- Log lines that pass through `dimWriter` of bridge/termstyle/style.go to `tuiLogWriter` of
-- bridge/chat/stdin.go.
use mathlib.Core.List.{map}
use claw.Prelude.{
  suc, Bool, true, false, List, [], ◌∷◌, ◌++◌, append_assoc, append-nil, ◌≡◌, refl, ap, ◌∙◌, arith,
  length, Bytes, split, All,
}
use claw.Prelude.Text.Trims.{Lacks}
use claw.Prelude.Text.Splits.{split-cons, split-alone}
use claw.Termstyle.{reset, dim_style, wrap, dim}
use claw.Chat.Stdin.{StdinChannel, send_line, send_msg, log_line}
use claw.Chat.Stdin.Ansi.{
  strip_ansi, Plain, strip_ansi-Plain, strip_ansi-reset, strip_ansi-dim_style,
}
use claw.Chat.Stdin.Writers.{newline, trim_returns, write_log, write_dim_log}
use claw.Chat.Stdin.Writers.Lines.{log_loop-lines}

-- What the buffer holds between two log lines: nothing, or the end of the last line's style.
data Between : Bytes → Type 0 where
  fresh : Between []
  styled : Between reset

-- A log line: no newline and no escape, and no carriage return at its end.
pub record IsLogLine (line : Bytes) : Type 0 where
  pub one_line : Lacks newline line
  pub plain : Plain line
  pub no_return : trim_returns line ≡ line

send_line-strip :
    (x y : Bytes) (ch : StdinChannel)
    → strip_ansi x ≡ strip_ansi y
    → send_line x ch ≡ send_line y ch
unfolding send_line
send_line-strip x y ch e = rw e

-- One line behind some style, with what the style's end leaves in the buffer.
write_log-line :
    (buf front line back : Bytes) (ch : StdinChannel)
    → Lacks newline (buf ++ (front ++ line))
    → Lacks newline back
    → write_log (front ++ (line ++ (newline ∷ back))) (buf, ch)
      ≡ (back, send_line (trim_returns (buf ++ (front ++ line))) ch)
unfolding write_log
write_log-line buf front line back ch h k =
    let whole_text = buf ++ (front ++ (line ++ (newline ∷ back))) in
    let regroup : whole_text ≡ (buf ++ (front ++ line)) ++ (newline ∷ back) = simp (append_assoc) in
    let parts : split whole_text newline ≡ (buf ++ (front ++ line)) ∷ back ∷ [] = rw regroup (
      split-cons newline (buf ++ (front ++ line)) back h
      ∙ ap (λ l. (buf ++ (front ++ line)) ∷ l) (split-alone newline back k)) in
    log_loop-lines (suc (length whole_text)) whole_text ch (omega arith) ∙ rw parts refl

-- What a line leaves in the buffer.
abbrev left_over : Bool → Bytes
left_over true = reset
left_over false = []

left_over-Between : (on : Bool) → Between (left_over on)
left_over-Between true = styled
left_over-Between false = fresh

abbrev front : Bool → Bytes
front true = dim_style
front false = []

-- The styles around a line are taken out again.
strip_ansi-styles :
    (on : Bool) (buf line : Bytes)
    → Between buf
    → trim_returns line ≡ line
    → strip_ansi (trim_returns (buf ++ (front on ++ line))) ≡ strip_ansi line
unfolding trim_returns
strip_ansi-styles false buf line fresh h = ap strip_ansi h
strip_ansi-styles true buf line fresh h = rw h (strip_ansi-dim_style line)
strip_ansi-styles false buf line styled h = rw h (strip_ansi-reset line)
strip_ansi-styles true buf line styled h =
    rw h (strip_ansi-reset (dim_style ++ line) ∙ strip_ansi-dim_style line)

one_line-styles :
    (on : Bool) (buf line : Bytes)
    → Between buf
    → Lacks newline line
    → Lacks newline (buf ++ (front on ++ line))
one_line-styles false buf line fresh h = h
one_line-styles true buf line fresh h =
    (omega arith, (omega arith, (omega arith, (omega arith, (omega arith, h)))))
one_line-styles false buf line styled h =
    (omega arith, (omega arith, (omega arith, (omega arith, h))))
one_line-styles true buf line styled h =
    (omega arith, (omega arith, (omega arith, (omega arith, dimmed line h))))
  where
    dimmed : (l : Bytes) → Lacks newline l → Lacks newline (dim_style ++ l)
    dimmed l k = (omega arith, (omega arith, (omega arith, (omega arith, (omega arith, k)))))

back_one_line : (on : Bool) → Lacks newline (left_over on)
back_one_line false = tt
back_one_line true = omega arith

dim-front :
    (on : Bool) (line : Bytes)
    → dim on (line ++ (newline ∷ [])) ≡ front on ++ (line ++ (newline ∷ left_over on))
unfolding dim wrap
dim-front true line = rw append_assoc
dim-front false line = refl

write_dim_log-line :
    (on : Bool) (buf line : Bytes) (ch : StdinChannel)
    → Between buf
    → IsLogLine line
    → write_dim_log on (line ++ (newline ∷ [])) (buf, ch) ≡ (left_over on, send_line line ch)
unfolding write_dim_log
write_dim_log-line on buf line ch b h = rw (dim-front on line) (
    write_log-line buf (front on) line (left_over on) ch (one_line-styles on buf line b h.one_line)
      (back_one_line on)
    ∙ ap (λ c. (left_over on, c))
        (send_line-strip _ line ch (strip_ansi-styles on buf line b h.no_return)))

-- `log.Printf` for each line, through both writers.
abbrev pub log_all : Bool → List Bytes → Bytes × StdinChannel → Bytes × StdinChannel
log_all on [] w = w
log_all on (l ∷ ls) w = log_all on ls (write_dim_log on (l ++ (newline ∷ [])) w)

abbrev pub AllLogLines : List Bytes → Type 0
AllLogLines ls = All IsLogLine ls

send_line-Plain :
    (line : Bytes) (ch : StdinChannel)
    → Plain line
    → ch.running ≡ true
    → send_line line ch ≡ send_msg (log_line line) ch
unfolding send_line
send_line-Plain line ch p r = simp (r, strip_ansi-Plain line p)

log_all-Between :
    (on : Bool) (ls : List Bytes) (buf : Bytes) (ch : StdinChannel)
    → Between buf
    → AllLogLines ls
    → ch.running ≡ true
    → (log_all on ls (buf, ch)).1 ≡ record ch { sent = ch.sent ++ map log_line ls }
log_all-Between on [] buf ch b h r = rw append-nil
log_all-Between on (l ∷ ls) buf ch b h r =
    ap (λ w. (log_all on ls w).1)
      (write_dim_log-line on buf l ch b h.0
        ∙ ap (λ c. (left_over on, c)) (send_line-Plain l ch h.0.plain r))
    ∙ log_all-Between on ls (left_over on) (send_msg (log_line l) ch) (left_over-Between on) h.1 r
    ∙ ap (λ m. record ch { sent = m }) (append_assoc ch.sent (log_line l ∷ []) (map log_line ls))

-- Log lines, without newlines, escapes and carriage returns at their ends, that pass through the
-- dimming writer and the log writer reach a running terminal program plain, one message for each,
-- in order, whether colours are enabled or not: the style of a line ends in the buffer in front of
-- the next one, and is taken out there.
pub log_all-lines :
    (on : Bool) (ls : List Bytes) (ch : StdinChannel)
    → AllLogLines ls
    → ch.running ≡ true
    → (log_all on ls ([], ch)).1 ≡ record ch { sent = ch.sent ++ map log_line ls }
log_all-lines on ls ch h r = log_all-Between on ls [] ch fresh h r
