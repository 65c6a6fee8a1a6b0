-- ===== src/Cmd/Burnin/Overlap/Runs.antt =====
-- An overlap script of cmd/claw64-bridge/burnin.go against a Commodore that runs its program.
use claw.Prelude.{
  ℕ, ◌+◌, ◌-◌, ◌*◌, ◌/◌, ◌%◌, ◌≤◌, ◌<◌, true, false, ◌||◌, Option, none, some, List, [], ◌∷◌, ◌++◌,
  ◌≡◌, ◌⊎◌, inl, inr, refl, ap, ◌∙◌, arith, ltb, leb, lt→ltb, ◌==◌, if◌then◌else◌, Bytes, codes,
  contains, has_prefix, same_text, All,
}
use claw.Prelude.Text.Trims.{trim_prefix-append}
use claw.Relay.Events.{format_c64_llm_event}
use claw.Relay.History.{Message, status, screen}
use claw.Cmd.Burnin.{
  ScriptedBurnin, Answer, answer, empty_message, failed, signal, to_lower, text_message,
  simple_tool_call, exec_tool_call,
}
use claw.Cmd.Burnin.Moves.{then_exec, then_call, poll, say, drain_status}
use claw.Cmd.Burnin.Results.{
  basic_status, screen_output, screenshot, run_parts, tool_result_contains,
  overlap_direct_run_result_looks_clean, overlap_run_complete_text, overlap_run_prompt,
  overlap_run_prompt-contains,
}
use claw.Cmd.Burnin.Overlap.{
  first_run_step, complete_overlap_run, run_request, run_result, run_screen, run_phase,
  complete_overlap_run_step, overlap_turn,
}

-- The script's turns on the user's last text and the last tool result, one pair for each.
abbrev pub drive : ℕ → List (Bytes × Bytes) → ScriptedBurnin → ScriptedBurnin × List Answer
drive total [] s = (s, [])
drive total ((u, t) ∷ inputs) s =
    let (s', a) = overlap_turn u t total s in
    let (s'', more) = drive total inputs s' in (s'', a ∷ more)

-- The texts that are said, or none where a turn fails; a tool call says nothing.
abbrev pub said : Message → List Bytes → List Bytes
said m texts = elim m.tool_calls [ [] ↦ m.content ∷ texts | c ∷ cs ↦ texts ]

abbrev pub spoken : List Answer → Option (List Bytes)
spoken [] = some []
spoken (failed f ∷ more) = none
spoken (empty_message ∷ more) = spoken more
spoken (answer m ∷ more) = elim (spoken more) [ none ↦ none | some texts ↦ some (said m texts) ]

-- How the Commodore carries a run out: its screen output comes at once, or it says that BASIC
-- runs, is polled, gets ready and shows its screen.
pub data Way : Type 0 where
  direct : Bytes → Way
  drained : List Bytes → Bytes → Bytes → Way

abbrev pub IsRunning : Bytes → Type 0
IsRunning p = (p ≡ basic_status ++ codes "RUNNING") ⊎ (p ≡ basic_status ++ codes "STOP REQUESTED")

-- The output shows both lines of the program; the statuses are those that the agent sends.
abbrev pub IsClean : Way → Type 0
IsClean (direct result) = overlap_direct_run_result_looks_clean result ≡ true
IsClean (drained polls ready shot) =
    All IsRunning polls
    × ((ready ≡ basic_status ++ codes "READY") ⊎ (ready ≡ basic_status ++ codes "READY."))
    × ((tool_result_contains shot screenshot run_parts
          || tool_result_contains shot screen_output run_parts)
        ≡ true)

abbrev pub polled : Bytes → List Bytes → List (Bytes × Bytes) → List (Bytes × Bytes)
polled u [] rest = rest
polled u (p ∷ ps) rest = (u, p) ∷ polled u ps rest

abbrev pub way_inputs : Bytes → Way → List (Bytes × Bytes)
way_inputs u (direct result) = (u, []) ∷ (u, result) ∷ []
way_inputs u (drained polls ready shot) =
    (u, []) ∷ (u, basic_status ++ codes "RUNNING") ∷ polled u polls ((u, ready) ∷ (u, shot) ∷ [])

-- The request for a run, as the relay puts it into the history.
abbrev pub request : ℕ → Bytes
request run = to_lower (format_c64_llm_event (1 ∷ overlap_run_prompt run))

to_lower-append : (a b : Bytes) → to_lower (a ++ b) ≡ to_lower a ++ to_lower b
unfolding to_lower
to_lower-append [] b = refl
to_lower-append (c ∷ a) b = rw (to_lower-append a b)

contains_behind : (a s p : Bytes) → contains s p ≡ true → contains (a ++ s) p ≡ true
unfolding contains
contains_behind [] s p h = h
contains_behind (c ∷ a) s p h = ground (arith, contains_behind a s p)

pub request-contains : (run : ℕ) → contains (request run) (codes "run") ≡ true
unfolding format_c64_llm_event
request-contains run =
    let front = codes "[C64 user]\n" in
    rw (to_lower-append front (overlap_run_prompt run)) (
      contains_behind (to_lower front) (to_lower (overlap_run_prompt run)) (codes "run")
        (overlap_run_prompt-contains run))

-- The script stands at a phase of the run with this index.
abbrev pub At : ℕ → ℕ → ScriptedBurnin → Type 0
At j phase s = s.step ≡ first_run_step + 4 * j + phase

module _ (total j : ℕ) (upto : j + 2 ≤ total) where
  At-phase :
      (phase : ℕ) (u t : Bytes) (s : ScriptedBurnin)
      → phase < 4
      → At j phase s
      → overlap_turn u t total s ≡ run_phase phase u t (j + 2) total s
  unfolding overlap_turn complete_overlap_run_step
  At-phase phase u t s lt h =
      let run : (s.step - first_run_step) / 4 + 2 ≡ j + 2 = omega arith in
      let rest : (s.step - first_run_step) % 4 ≡ phase = omega arith in
      let not_over : ltb total (j + 2) ≡ false = ground arith in
      let begun : (s.step == 0) ≡ false = ground arith in
      let stored : leb first_run_step s.step ≡ true = ground arith in
      simp (begun, stored, run, rest, not_over)

  At-request :
      (u t : Bytes) (s : ScriptedBurnin)
      → At j 0 s
      → contains u (codes "run") ≡ true
      → overlap_turn u t total s ≡ then_exec (codes "RUN") s
  unfolding run_phase run_request
  At-request u t s h r = At-phase 0 u t s (omega arith) h ∙ simp r

  At-status :
      (u t : Bytes) (s : ScriptedBurnin) → At j 2 s → overlap_turn u t total s ≡ drain_status t s
  unfolding run_phase
  At-status u t s h = At-phase 2 u t s (omega arith) h

  -- The run's text is said, no turn fails, and where runs are left the script stands at the next.
  abbrev pub RunDone : List (Bytes × Bytes) → ScriptedBurnin → Type 0
  RunDone inputs s =
      (spoken (drive total inputs s).1 ≡ some (overlap_run_complete_text (j + 2) ∷ []))
      × (j + 2 < total → At (j + 1) 0 (drive total inputs s).0)

  -- A turn that calls a tool.
  tool_turn :
      (u t : Bytes) (inputs : List (Bytes × Bytes)) (s s' : ScriptedBurnin) (m : Message)
      → overlap_turn u t total s ≡ (s', answer m)
      → ((texts : List Bytes) → said m texts ≡ texts)
      → RunDone inputs s'
      → RunDone ((u, t) ∷ inputs) s
  tool_turn u t inputs s s' m e quiet done = rw (e, done.0) (ap some (quiet _), done.1)

  -- The turn in which the run is found complete.
  last_turn :
      (u t : Bytes) (s : ScriptedBurnin)
      → overlap_turn u t total s ≡ complete_overlap_run (j + 2) total s
      → RunDone ((u, t) ∷ []) s
  unfolding complete_overlap_run say text_message
  last_turn u t s e = rw e (refl, λ h. rw (lt→ltb (j + 2) total h) (omega arith))

  exec_turn :
      (u t : Bytes) (inputs : List (Bytes × Bytes)) (s : ScriptedBurnin)
      → At j 0 s
      → contains u (codes "run") ≡ true
      → RunDone inputs (record s { step = s.step + 1 })
      → RunDone ((u, t) ∷ inputs) s
  unfolding then_exec exec_tool_call simple_tool_call
  exec_turn u t inputs s h r done =
      tool_turn u t inputs s _ (exec_tool_call (codes "RUN") (s.step + 1)) (At-request u t s h r)
        (λ texts. refl) done

  poll_turns :
      (u : Bytes) (ps : List Bytes) (rest : List (Bytes × Bytes)) (s : ScriptedBurnin)
      → At j 2 s
      → All IsRunning ps
      → RunDone rest s
      → RunDone (polled u ps rest) s
  unfolding drain_status poll simple_tool_call same_text
  poll_turns u [] rest s h r done = done
  poll_turns u (p ∷ ps) rest s h r done =
      tool_turn u p (polled u ps rest) s s (simple_tool_call status (codes "{}") s.step)
        (At-status u p s h ∙ drains r.0) (λ texts. refl) (poll_turns u ps rest s h r.1 done)
    where
      drains : IsRunning p → drain_status p s ≡ poll s
      drains (inl e) = rw (e, trim_prefix-append basic_status (codes "RUNNING"))
      drains (inr e) = rw (e, trim_prefix-append basic_status (codes "STOP REQUESTED"))

  screen_turns :
      (u ready shot : Bytes) (s : ScriptedBurnin)
      → At j 2 s
      → ((ready ≡ basic_status ++ codes "READY") ⊎ (ready ≡ basic_status ++ codes "READY."))
      → ((tool_result_contains shot screenshot run_parts
            || tool_result_contains shot screen_output run_parts)
          ≡ true)
      → RunDone ((u, ready) ∷ (u, shot) ∷ []) s
  unfolding drain_status then_call simple_tool_call same_text run_phase run_screen
  screen_turns u ready shot s h r clean =
      tool_turn u ready ((u, shot) ∷ []) s (record s { step = s.step + 1 })
        (simple_tool_call screen (codes "{}") (s.step + 1)) (At-status u ready s h ∙ shows r)
        (λ texts. refl)
        (last_turn u shot (record s { step = s.step + 1 })
          (At-phase 3 u shot (record s { step = s.step + 1 }) (omega arith) (omega arith)
            ∙ simp clean))
    where
      shows :
          (ready ≡ basic_status ++ codes "READY") ⊎ (ready ≡ basic_status ++ codes "READY.")
          → drain_status ready s ≡ then_call screen s
      shows (inl e) = rw (e, trim_prefix-append basic_status (codes "READY"))
      shows (inr e) = rw (e, trim_prefix-append basic_status (codes "READY."))

  result_turn :
      (u : Bytes) (inputs : List (Bytes × Bytes)) (s : ScriptedBurnin)
      → At j 1 s
      → ((s' : ScriptedBurnin) → At j 2 s' → RunDone inputs s')
      → RunDone ((u, basic_status ++ codes "RUNNING") ∷ inputs) s
  unfolding run_phase run_result then_call simple_tool_call same_text signal
      overlap_direct_run_result_looks_clean has_prefix
  result_turn u inputs s h done =
      let s' = if j + 2 == 2 then signal (codes "overlap-first-running") s else s in
      tool_turn u (basic_status ++ codes "RUNNING") inputs s (record s' { step = s'.step + 1 })
        (simple_tool_call status (codes "{}") (s'.step + 1))
        (At-phase 1 u (basic_status ++ codes "RUNNING") s (omega arith) h) (λ texts. refl)
        (done (record s' { step = s'.step + 1 }) (ground arith))

  pub run_way :
      (u : Bytes) (w : Way) (s : ScriptedBurnin)
      → At j 0 s
      → contains u (codes "run") ≡ true
      → IsClean w
      → RunDone (way_inputs u w) s
  unfolding run_phase run_result
  run_way u (direct result) s h r clean =
      let s' = record s { step = s.step + 1 } in
      exec_turn u [] ((u, result) ∷ []) s h r
        (last_turn u result s' (At-phase 1 u result s' (omega arith) (omega arith) ∙ simp clean))
  run_way u (drained polls ready shot) s h r clean =
      exec_turn u []
        ((u, basic_status ++ codes "RUNNING") ∷ polled u polls ((u, ready) ∷ (u, shot) ∷ [])) s h r
        (result_turn u (polled u polls ((u, ready) ∷ (u, shot) ∷ []))
          (record s { step = s.step + 1 }) (omega arith)
          (λ s' h'.
            poll_turns u polls ((u, ready) ∷ (u, shot) ∷ []) s' h' clean.0
              (screen_turns u ready shot s' h' clean.1 clean.2)))
