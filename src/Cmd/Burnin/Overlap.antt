-- ===== src/Cmd/Burnin/Overlap.antt =====
-- cmd/claw64-bridge/burnin.go: `completeOverlapQueue` and the steps of overlapping runs.
pub mod Bounds
pub mod Runs
pub mod Session
use claw.Prelude.{
  ℕ, ◌+◌, ◌-◌, ◌*◌, ◌/◌, ◌%◌, Bool, ◌&&◌, ◌||◌, not, [], ◌∷◌, ◌++◌, ◌==◌, ltb, leb, if◌then◌else◌,
  Bytes, codes, same_text, trim_space, trim_prefix, contains, List,
}
use claw.Relay.History.{Message, status}
use claw.Cmd.Burnin.{
  ScriptedBurnin, Answer, failed, after_runs, signal, last_tool_message, last_user_message,
  to_lower,
}
use claw.Cmd.Burnin.Moves.{
  Turn, wrong, no_such_step, then_exec, then_call, poll, say, then_say, is_status, stored_then,
  drain_status,
}
use claw.Cmd.Burnin.Results.{
  screen_output, screenshot, list_parts, run_parts, tool_result_contains,
  overlap_direct_run_result_looks_clean, overlap_run_complete_text,
}

-- The step at which the first of the later runs begins.
abbrev pub first_run_step : ℕ
first_run_step = 9

unfoldable pub complete_overlap_run : ℕ → ℕ → ScriptedBurnin → Turn
complete_overlap_run completed total s =
    let s' =
      if ltb completed total then record s { step = first_run_step + (completed - 1) * 4 } else s in
    say (overlap_run_complete_text completed) s'

unfoldable pub run_request : Bytes → ScriptedBurnin → Turn
run_request last_user s =
    if contains last_user (codes "run") then then_exec (codes "RUN") s else wrong s last_user

unfoldable pub run_result : Bytes → ℕ → ℕ → ScriptedBurnin → Turn
run_result last_tool completed total s =
    if overlap_direct_run_result_looks_clean last_tool
    then complete_overlap_run completed total s
    else if is_status last_tool (codes "RUNNING")
    then then_call status (if completed == 2 then signal (codes "overlap-first-running") s else s)
    else wrong s last_tool

unfoldable pub run_screen : Bytes → ℕ → ℕ → ScriptedBurnin → Turn
run_screen last_tool completed total s =
    if tool_result_contains last_tool screenshot run_parts
      || tool_result_contains last_tool screen_output run_parts
    then complete_overlap_run completed total s
    else wrong s last_tool

-- By the phase of the run; there are four.
unfoldable pub run_phase : ℕ → Bytes → Bytes → ℕ → ℕ → ScriptedBurnin → Turn
run_phase phase last_user last_tool completed total s =
    if phase == 0
    then run_request last_user s
    else if phase == 1
    then run_result last_tool completed total s
    else if phase == 2
    then drain_status last_tool s
    else run_screen last_tool completed total s

unfoldable pub complete_overlap_run_step : Bytes → Bytes → ℕ → ScriptedBurnin → Turn
complete_overlap_run_step last_user last_tool total s =
    let completed = (s.step - first_run_step) / 4 + 2 in
    let phase = (s.step - first_run_step) % 4 in
    if ltb total completed
    then (s, failed (after_runs s.step total))
    else run_phase phase last_user last_tool completed total s

abbrev pub clear_line : ℕ → Bytes
clear_line n =
    if n == 0
    then codes "30"
    else if n == 1
    then codes "40"
    else if n == 2
    then codes "50"
    else if n == 3
    then codes "60"
    else codes "70"

-- The `switch` on the first steps, in which the program is stored.
unfoldable pub store_step : Bytes → Bytes → ScriptedBurnin → Turn
store_step last_user last_tool s =
    if s.step == 0
    then if contains last_user (codes "program")
      then then_exec (clear_line 0) s
      else wrong s last_user
    else if leb s.step 5
    then stored_then last_tool
        (if leb (s.step + 1) 5 then clear_line s.step else codes "10 PRINT \"OVERLAP ONE\"") s
    else if s.step == 6
    then stored_then last_tool (codes "20 PRINT \"OVERLAP TWO\"") s
    else if s.step == 7
    then stored_then last_tool (codes "LIST") s
    else if s.step == 8
    then if tool_result_contains last_tool screen_output list_parts
      then then_say (codes "FIRST PROGRAM STORED.") s
      else wrong s last_tool
    else no_such_step s

-- The first request may be a greeting.
is_warmup : Bytes → Bool
is_warmup last_user =
    same_text (trim_space (trim_prefix last_user (codes "[c64 user]\n"))) (codes "hi")
    || contains last_user (codes "warmup")

unfoldable pub overlap_turn : Bytes → Bytes → ℕ → ScriptedBurnin → Turn
unfolding is_warmup
overlap_turn last_user last_tool total s =
    if s.step == 0 && is_warmup last_user
    then say (codes "READY FOR OVERLAP.") s
    else if leb first_run_step s.step
    then complete_overlap_run_step last_user last_tool total s
    else store_step last_user last_tool s

unfoldable pub complete_overlap_queue : List Message → ℕ → ScriptedBurnin → Turn
complete_overlap_queue messages total s =
    overlap_turn (to_lower (last_user_message messages)) (last_tool_message messages) total s
