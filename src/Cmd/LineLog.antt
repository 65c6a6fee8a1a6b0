-- ===== src/Cmd/LineLog.antt =====
-- cmd/claw64-bridge/main.go: `lineLogWriter`.
use claw.Prelude.{
  ℕ, zero, suc, ◌<◌, List, [], ◌∷◌, ◌++◌, ◌≡◌, refl, arith, if◌then◌else◌, length, Bytes, is_nil,
  before, behind, contains_rune, split, Bool-cases, inl, inr,
}
use claw.Chat.Stdin.Writers.{newline, trim_returns}
use claw.Chat.Stdin.Writers.Lines.{rest_of, lines_of-cut, split-uncut, length-behind}

-- The prefix, the buffer and the lines that were logged.
pub record LineLogWriter : Type 0 where
  pub prefix : Bytes
  pub buf : Bytes
  pub logged : List Bytes

unfoldable pub flush_line : LineLogWriter → LineLogWriter
flush_line w =
    let line = trim_returns w.buf in
    let w' = record w { buf = [] } in
    if is_nil line then w' else record w' { logged = w.logged ++ ((w.prefix ++ line) ∷ []) }

-- The loop of `Write`, on fuel above the length of the text; the number is what it returns.
unfoldable pub line_loop : ℕ → Bytes → LineLogWriter → ℕ × LineLogWriter
line_loop zero p w = (length p, w)
line_loop (suc n) p w =
    let rest =
      line_loop n (behind p newline) (flush_line (record w { buf = w.buf ++ before p newline })) in
    if is_nil p
    then (length p, w)
    else if contains_rune p newline
    then rest
    else (length p, record w { buf = w.buf ++ p })

unfoldable pub write_line_log : Bytes → LineLogWriter → ℕ × LineLogWriter
write_line_log p w = line_loop (suc (length p)) p w

-- A text without a newline, and one with some.
line_loop-returned :
    (n : ℕ) (p : Bytes) (w : LineLogWriter)
    → length p < n
    → (line_loop n p w).0 ≡ length (rest_of p)
unfolding line_loop
line_loop-returned zero p w h = absurd (omega arith)
line_loop-returned (suc n) [] w h = unfold split in refl
line_loop-returned (suc n) (c ∷ p) w h = elim (Bool-cases (contains_rune (c ∷ p) newline)) [
  | inr e ↦ rw (e, split-uncut (c ∷ p) e)
  | inl e ↦
      let (lines, rest) = lines_of-cut (c ∷ p) e in
      rw (e, rest)
        (line_loop-returned n (behind (c ∷ p) newline) _ (omega (arith, length-behind (c ∷ p) e)))
]

-- `Write` returns the length of what follows the last newline of its text, and not the length of
-- the text, which `io.Writer` wants from a `Write` without an error.
pub write_line_log-returned :
    (p : Bytes) (w : LineLogWriter) → (write_line_log p w).0 ≡ length (rest_of p)
unfolding write_line_log
write_line_log-returned p w = line_loop-returned (suc (length p)) p w (omega arith)
