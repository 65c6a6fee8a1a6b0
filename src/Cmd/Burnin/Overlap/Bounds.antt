-- ===== src/Cmd/Burnin/Overlap/Bounds.antt =====
-- The step of an overlap script of cmd/claw64-bridge/burnin.go never leaves its range.
use claw.Prelude.{
  ℕ, ◌+◌, ◌-◌, ◌*◌, ◌/◌, ◌%◌, ◌≤◌, ◌<◌, Bool, true, false, ◌&&◌, ◌≡◌, refl, arith, ltb, leb, ◌==◌,
  if◌then◌else◌, Bytes, Bool-cases, inl, inr, leb→le, ==_iff, codes,
}
use claw.Cmd.Burnin.{ScriptedBurnin, answer, empty_message, failed, signal}
use claw.Cmd.Burnin.Moves.{
  Turn, wrong, no_such_step, then_exec, then_call, poll, say, then_say, stored_then, drain_status,
}
use claw.Cmd.Burnin.Overlap.{
  first_run_step, complete_overlap_run, run_request, run_result, run_screen, run_phase,
  complete_overlap_run_step, store_step, overlap_turn,
}

-- What a turn leaves: a failure leaves the script as it was, and an answer a step below `n`.
abbrev pub Leaves : ℕ → ScriptedBurnin → Turn → Type 0
Leaves n s (s', answer m) = s'.step < n
Leaves n s (s', empty_message) = s'.step < n
Leaves n s (s', failed f) = s' ≡ s

if-Leaves :
    (n : ℕ) (s : ScriptedBurnin) (b : Bool) (x y : Turn)
    → (b ≡ true → Leaves n s x)
    → (b ≡ false → Leaves n s y)
    → Leaves n s (if b then x else y)
if-Leaves n s true x y hx hy = hx refl
if-Leaves n s false x y hx hy = hy refl

module _ (n : ℕ) (s : ScriptedBurnin) (room : s.step + 1 < n) where
  stored_then-Leaves : (t command : Bytes) → Leaves n s (stored_then t command s)
  unfolding stored_then then_exec wrong
  stored_then-Leaves t command = ground arith

  drain_status-Leaves : (t : Bytes) → Leaves n s (drain_status t s)
  unfolding drain_status then_call poll wrong
  drain_status-Leaves t = ground arith

  run_request-Leaves : (u : Bytes) → Leaves n s (run_request u s)
  unfolding run_request then_exec wrong
  run_request-Leaves u = ground arith

  store_step-Leaves : (u t : Bytes) → Leaves n s (store_step u t s)
  unfolding store_step then_exec then_say wrong no_such_step
  store_step-Leaves u t = elim (Bool-cases (s.step == 0)) [
    | inl e ↦ simp e (ground arith)
    | inr e ↦ elim (Bool-cases (leb s.step 5)) [
      | inl b ↦ simp (e, b) (stored_then-Leaves t _)
      | inr b ↦
          simp (e, b)
            (ground (
              arith,
              stored_then-Leaves t (codes "20 PRINT \"OVERLAP TWO\""),
              stored_then-Leaves t (codes "LIST"),
            ))
    ]
  ]

module _ (total completed : ℕ) (s : ScriptedBurnin) (within : s.step < 5 + 4 * total)
    (first : 2 ≤ completed) (upto : completed ≤ total) where
  complete_overlap_run-Leaves : Leaves (5 + 4 * total) s (complete_overlap_run completed total s)
  unfolding complete_overlap_run say
  complete_overlap_run-Leaves = ground arith

  run_screen-Leaves : (t : Bytes) → Leaves (5 + 4 * total) s (run_screen t completed total s)
  unfolding run_screen wrong
  run_screen-Leaves t = ground (arith, complete_overlap_run-Leaves)

  run_result-Leaves :
      (t : Bytes)
      → s.step + 1 < 5 + 4 * total
      → Leaves (5 + 4 * total) s (run_result t completed total s)
  unfolding run_result wrong then_call signal
  run_result-Leaves t room = ground (arith, complete_overlap_run-Leaves)

run_phase-Leaves :
    (total completed phase : ℕ) (u t : Bytes) (s : ScriptedBurnin)
    → s.step ≡ first_run_step + 4 * (completed - 2) + phase
    → phase < 4
    → 2 ≤ completed
    → completed ≤ total
    → Leaves (5 + 4 * total) s (run_phase phase u t completed total s)
unfolding run_phase
run_phase-Leaves total completed phase u t s e p first upto =
    if-Leaves n s (phase == 0) _ _ (λ h. run_request-Leaves n s (room 0 h (omega arith)) u)
      (λ h0.
        if-Leaves n s (phase == 1) _ _
          (λ h. run_result-Leaves total completed s within first upto t (room 1 h (omega arith)))
          (λ h1.
            if-Leaves n s (phase == 2) _ _ (λ h. drain_status-Leaves n s (room 2 h (omega arith)) t)
              (λ h2. run_screen-Leaves total completed s within first upto t)))
  where
    n : ℕ
    n = 5 + 4 * total

    within : s.step < 5 + 4 * total
    within = omega arith

    room : (k : ℕ) → (phase == k) ≡ true → k < 3 → s.step + 1 < 5 + 4 * total
    room k h lt = omega (arith, (==_iff phase k).0 h)

-- Whatever the user and the tools say: a script for a number of runs, two at least, that is at a
-- step below the one behind its last run is at such a step after a turn too, and a turn that fails
-- leaves the script as it was.
pub overlap_turn-Leaves :
    (u t : Bytes) (total : ℕ) (s : ScriptedBurnin)
    → 2 ≤ total
    → s.step < 5 + 4 * total
    → Leaves (5 + 4 * total) s (overlap_turn u t total s)
unfolding overlap_turn complete_overlap_run_step say
overlap_turn-Leaves u t total s two within =
    if-Leaves (5 + 4 * total) s (s.step == 0 && _) _ _ (λ h. within)
      (λ h.
        if-Leaves (5 + 4 * total) s (leb first_run_step s.step) _ _
          (λ b.
            if-Leaves (5 + 4 * total) s (ltb total ((s.step - first_run_step) / 4 + 2)) _ _
              (λ k. refl)
              (λ k.
                run_phase-Leaves total ((s.step - first_run_step) / 4 + 2)
                  ((s.step - first_run_step) % 4) u t s
                  (omega (arith, leb→le first_run_step s.step b)) (omega arith) (omega arith)
                  (ground arith)))
          (λ b. store_step-Leaves (5 + 4 * total) s (ground arith) u t))
