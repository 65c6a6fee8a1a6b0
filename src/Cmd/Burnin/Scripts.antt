-- ===== src/Cmd/Burnin/Scripts.antt =====
-- cmd/claw64-bridge/burnin.go: the scripts of the scenarios without overlapping runs, and
-- `Complete`.
use claw.Prelude.{
  ℕ, ◌+◌, Bool, ◌||◌, none, some, List, [], ◌∷◌, ◌==◌, leb, if◌then◌else◌, Bytes, codes, same_text,
  has_prefix, trim_prefix, contains,
}
use claw.Relay.History.{Message, screen, stop, status}
use claw.Cmd.Burnin.{
  ScriptedBurnin, empty_message, failed, unknown_scenario, overlap_scenario_runs, last_tool_message,
  last_user_message, to_lower,
}
use claw.Cmd.Burnin.Moves.{
  Turn, wrong, no_such_step, advance, then_exec, then_call, say, then_say, is_status, stored_then,
  drain_status,
}
use claw.Cmd.Burnin.Results.{
  basic_status, screen_output, screenshot, ready_prompt, tool_result_contains,
  slow_exec_result_looks_done,
}
use claw.Cmd.Burnin.Overlap.{complete_overlap_queue}

unfoldable pub stop_screen : Bytes → ScriptedBurnin → Turn
stop_screen last_tool s =
    if s.step == 0
    then then_exec (codes "10 FOR I=1 TO 1000") s
    else if s.step == 1
    then stored_then last_tool (codes "20 PRINT I") s
    else if s.step == 2
    then stored_then last_tool (codes "30 NEXT I") s
    else if s.step == 3
    then stored_then last_tool (codes "RUN") s
    else if s.step == 4
    then if is_status last_tool (codes "RUNNING") then then_call stop s else wrong s last_tool
    else if s.step == 5
    then if is_status last_tool (codes "STOP REQUESTED")
      then then_call status s
      else wrong s last_tool
    else if s.step == 6
    then drain_status last_tool s
    else if s.step == 7
    then if has_prefix last_tool screenshot || has_prefix last_tool screen_output
      then say (codes "BURN-IN stop-screen complete.") s
      else wrong s last_tool
    else no_such_step s

abbrev repeat_parts : List Bytes
repeat_parts =
    codes "10 PRINT \"SCREEN REPEAT\"" ∷ codes "20 PRINT \"SECOND LINE\"" ∷ ready_prompt ∷ []

unfoldable pub screen_repeat : Bytes → ScriptedBurnin → Turn
screen_repeat last_tool s =
    if s.step == 0
    then then_exec (codes "10 PRINT \"SCREEN REPEAT\"") s
    else if s.step == 1
    then stored_then last_tool (codes "20 PRINT \"SECOND LINE\"") s
    else if s.step == 2
    then stored_then last_tool (codes "LIST") s
    else if s.step == 3
    then if tool_result_contains last_tool screen_output repeat_parts
      then then_call screen s
      else wrong s last_tool
    else if s.step == 4
    then if tool_result_contains last_tool screenshot repeat_parts
      then then_call screen s
      else wrong s last_tool
    else if s.step == 5
    then if tool_result_contains last_tool screenshot repeat_parts
      then say (codes "BURN-IN screen-repeat complete.") s
      else wrong s last_tool
    else no_such_step s

-- The steps of `direct-exec` that store its program.
store_sum : Bytes → ScriptedBurnin → Turn
store_sum last_tool s =
    stored_then last_tool
      (if s.step == 4
        then codes "20 FOR I=1 TO 25"
        else if s.step == 5
        then codes "30 S=S+I"
        else if s.step == 6
        then codes "40 NEXT I"
        else if s.step == 7
        then codes "50 FOR I=26 TO 100"
        else if s.step == 8
        then codes "60 S=S+I:NEXT I"
        else if s.step == 9
        then codes "70 PRINT S"
        else codes "LIST")
      s

abbrev sum_parts : List Bytes
sum_parts = codes "5050" ∷ ready_prompt ∷ []

sum_result : Bytes → ScriptedBurnin → Turn
sum_result last_tool s =
    if tool_result_contains last_tool screen_output sum_parts
    then say (codes "BURN-IN direct-exec complete.") s
    else if is_status last_tool (codes "RUNNING")
    then then_call status s
    else wrong s last_tool

unfoldable pub direct_exec : Bytes → Bytes → ScriptedBurnin → Turn
unfolding store_sum sum_result
direct_exec last_user last_tool s =
    if s.step == 0
    then then_exec (codes "PRINT 7*8") s
    else if s.step == 1
    then if tool_result_contains last_tool screen_output (codes "56" ∷ ready_prompt ∷ [])
      then then_exec (codes "PRINT 42") s
      else wrong s last_tool
    else if s.step == 2
    then if tool_result_contains last_tool screen_output (codes "42" ∷ ready_prompt ∷ [])
      then then_say (codes "READY FOR PROGRAMMING.") s
      else wrong s last_tool
    else if s.step == 3
    then if contains (to_lower last_user) (codes "program")
      then then_exec (codes "10 S=0") s
      else wrong s last_user
    else if leb s.step 10
    then store_sum last_tool s
    else if s.step == 11
    then if tool_result_contains last_tool screen_output
        (codes "10 S=0" ∷ codes "70 PRINT S" ∷ ready_prompt ∷ [])
      then then_say (codes "I'VE STORED THIS PROGRAM:\n\n10 S=0\n...\n70 PRINT S") s
      else wrong s last_tool
    else if s.step == 12
    then if contains (to_lower last_user) (codes "run")
      then then_exec (codes "RUN") s
      else wrong s last_user
    else if s.step == 13
    then sum_result last_tool s
    else if s.step == 14
    then drain_status last_tool s
    else if s.step == 15
    then if tool_result_contains last_tool screenshot sum_parts
        || tool_result_contains last_tool screen_output sum_parts
      then say (codes "BURN-IN direct-exec complete.") s
      else wrong s last_tool
    else no_such_step s

abbrev slow_parts : List Bytes
slow_parts = codes "SLOW DONE" ∷ ready_prompt ∷ []

slow_result : Bytes → ScriptedBurnin → Turn
slow_result last_tool s =
    if tool_result_contains last_tool screen_output slow_parts
    then say (codes "BURN-IN slow-exec complete.") s
    else if is_status last_tool (codes "RUNNING")
    then then_call status s
    else wrong s last_tool

slow_drain : Bytes → ScriptedBurnin → Turn
slow_drain last_tool s =
    if slow_exec_result_looks_done last_tool
    then say (codes "BURN-IN slow-exec complete.") s
    else drain_status last_tool s

unfoldable pub slow_exec : Bytes → Bytes → ScriptedBurnin → Turn
unfolding slow_result slow_drain
slow_exec last_user last_tool s =
    if s.step == 0
    then then_say (codes "READY FOR SLOW EXEC.") s
    else if s.step == 1
    then if contains last_user (codes "slow")
      then then_exec (codes "FOR I=1 TO 20000:NEXT I:PRINT \"SLOW DONE\"") s
      else wrong s last_user
    else if s.step == 2
    then slow_result last_tool s
    else if s.step == 3
    then slow_drain last_tool s
    else if s.step == 4
    then if slow_exec_result_looks_done last_tool
      then say (codes "BURN-IN slow-exec complete.") s
      else wrong s last_tool
    else no_such_step s

unfoldable pub silent_completion : Bytes → ScriptedBurnin → Turn
silent_completion last_user s =
    if s.step == 0
    then if contains last_user (codes "silent")
      then (advance s, empty_message)
      else wrong s last_user
    else no_such_step s

abbrev pub wraparound_reliable_checks : ℕ
wraparound_reliable_checks = 20

wrap_status : Bytes → Bool
wrap_status last_tool = same_text (trim_prefix last_tool basic_status) (codes "STORED")

unfoldable pub wraparound : Bytes → Bytes → ScriptedBurnin → Turn
unfolding wrap_status
wraparound last_user last_tool s =
    if s.step == 0
    then then_say (codes "READY FOR WRAPAROUND.") s
    else if s.step == 1
    then if contains last_user (codes "wrap")
      then then_exec (codes "0 REM WRAP") s
      else wrong s last_user
    else if leb s.step wraparound_reliable_checks
    then if wrap_status last_tool then then_exec (codes "0 REM WRAP") s else wrong s last_tool
    else if s.step == wraparound_reliable_checks + 1
    then if wrap_status last_tool
      then say (codes "BURN-IN WRAPAROUND COMPLETE.") s
      else wrong s last_tool
    else no_such_step s

-- `Complete`
unfoldable pub complete_burnin : List Message → ScriptedBurnin → Turn
complete_burnin messages s =
    let tool_text = last_tool_message messages in
    let user_text = last_user_message messages in
    elim (overlap_scenario_runs s.scenario) [
      | some total ↦ complete_overlap_queue messages total s
      | none ↦
          if same_text s.scenario (codes "stop-screen")
          then stop_screen tool_text s
          else if same_text s.scenario (codes "screen-repeat")
          then screen_repeat tool_text s
          else if same_text s.scenario (codes "silent-completion")
          then silent_completion (to_lower user_text) s
          else if same_text s.scenario (codes "direct-exec")
          then direct_exec user_text tool_text s
          else if same_text s.scenario (codes "slow-exec")
          then slow_exec (to_lower user_text) tool_text s
          else if same_text s.scenario (codes "wraparound")
          then wraparound (to_lower user_text) tool_text s
          else (s, failed (unknown_scenario s.scenario))
    ]

-- `burninInputs`
unfoldable pub burnin_inputs : Bytes → List Bytes
burnin_inputs scenario = elim (overlap_scenario_runs scenario) [
  | some total ↦ []
  | none ↦
      if same_text scenario (codes "silent-completion")
      then codes "stay silent" ∷ []
      else if same_text scenario (codes "direct-exec")
      then codes "hello warmup" ∷ codes "Can you program a sum of 1 to 100 ?" ∷ codes "run it" ∷ []
      else if same_text scenario (codes "slow-exec")
      then codes "hello warmup" ∷ codes "run a slow exec" ∷ []
      else if same_text scenario (codes "wraparound")
      then codes "hello warmup" ∷ codes "wrap ids" ∷ []
      else codes "hello warmup" ∷ []
]
