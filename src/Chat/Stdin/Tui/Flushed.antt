-- ===== src/Chat/Stdin/Tui/Flushed.antt =====
-- The terminal of bridge/chat/stdin.go once its commands have run.
use claw.Prelude.{
  ℕ, zero, suc, ◌+◌, ◌*◌, ◌≤◌, List, [], ◌∷◌, ◌++◌, append_assoc, append-nil, ◌≡◌, refl, sym, ap,
  ◌∙◌, arith, length, Bytes,
}
use claw.Chat.Stdin.{Msg, flush_scrollback}
use claw.Chat.Stdin.Tui.{
  Host, Tui, Cmd, nothing, message, print_and_go_on, flush, go_on_msg, update,
}
use claw.Chat.Stdin.Tui.Shown.{Session, steps, waiting, last_shown, all_lines, steps-waiting}

module _ (host : Host) where
  -- The runtime runs a command, and the commands that come from it; fuel counts them.
  pub run_cmd : ℕ → Cmd → Session → Session
  run_cmd zero c s = s
  run_cmd (suc n) (message m) s =
      run_cmd n (update host m s.tui).1 (record s { tui = (update host m s.tui).0 })
  run_cmd (suc n) (print_and_go_on out) s =
      run_cmd n (message (go_on_msg host s.tui)) (record s { taken = s.taken ++ (out ∷ []) })
  run_cmd (suc n) c s = s

  run_cmd-nothing : (n : ℕ) (s : Session) → run_cmd n nothing s ≡ s
  unfolding run_cmd
  run_cmd-nothing zero s = refl
  run_cmd-nothing (suc n) s = refl

  run_cmd-flush :
      (sb : List Bytes) (n : ℕ) (t : Tui) (taken : List Bytes)
      → 2 * length sb + 2 ≤ n
      → run_cmd n
          (message flush_scrollback)
          (record { tui = record t { scrollback = sb }; taken = taken })
        ≡ record { tui = record t { scrollback = [] }; taken = taken ++ sb }
  unfolding run_cmd update flush go_on_msg
  run_cmd-flush [] zero t taken h = absurd (omega arith)
  run_cmd-flush [] (suc zero) t taken h = absurd (omega arith)
  run_cmd-flush [] (suc (suc n)) t taken h =
      ap (λ p. record { tui = record t { scrollback = [] }; taken = p }) (sym (append-nil taken))
  run_cmd-flush (out ∷ rest) zero t taken h = absurd (omega arith)
  run_cmd-flush (out ∷ rest) (suc zero) t taken h = absurd (omega arith)
  run_cmd-flush (out ∷ []) (suc (suc zero)) t taken h = absurd (omega arith)
  run_cmd-flush (out ∷ []) (suc (suc (suc n))) t taken h = run_cmd-nothing n _
  run_cmd-flush (out ∷ next ∷ rest) (suc (suc n)) t taken h =
      run_cmd-flush (next ∷ rest) n t (taken ++ (out ∷ [])) (omega arith)
      ∙ ap (λ p. record { tui = record t { scrollback = [] }; taken = p })
          (append_assoc taken (out ∷ []) (next ∷ rest))

  -- Whatever messages come to the terminal, in whatever order, and whenever a flush command has run
  -- to its end then: every line that was settled, wrapped at the width of its time, has been taken
  -- off for `tea.Println` once and in the order of its settling, but the last one, which is kept as
  -- the line above the prompt, and none waits. A flush command ends: two steps for each line that
  -- waits, and two, are enough.
  pub run_cmd-steps :
      (ms : List Msg) (s : Session) (n : ℕ)
      → 2 * length (steps host ms s).tui.scrollback + 2 ≤ n
      → let after = run_cmd n (message flush_scrollback) (steps host ms s) in
        (after.taken ++ last_shown host after.tui.last_line
          ≡ (s.taken ++ waiting host s.tui) ++ all_lines host s ms)
        × (after.tui.scrollback ≡ [])
  run_cmd-steps ms s n h =
      let e = steps host ms s in
      rw (run_cmd-flush e.tui.scrollback n e.tui e.taken h) (
        append_assoc e.taken e.tui.scrollback (last_shown host e.tui.last_line)
            ∙ steps-waiting host ms s,
        refl,
      )
