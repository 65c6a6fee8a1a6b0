-- ===== src/Cmd/Burnin/Moves.antt =====
-- cmd/claw64-bridge/burnin.go: what the steps of the scripts do.
use claw.Prelude.{◌+◌, Bool, ◌||◌, ◌++◌, if◌then◌else◌, Bytes, codes, same_text, trim_prefix}
use claw.Relay.History.{ToolName, screen, status}
use claw.Cmd.Burnin.{
  ScriptedBurnin, Answer, answer, failed, at_step, unexpected_step, simple_tool_call,
  exec_tool_call, text_message,
}
use claw.Cmd.Burnin.Results.{basic_status}

abbrev pub Turn : Type 0
Turn = ScriptedBurnin × Answer

-- `fmt.Errorf("step %d: expected …, got %q", s.step, got)`
unfoldable pub wrong : ScriptedBurnin → Bytes → Turn
wrong s got = (s, failed (at_step s.step got))

unfoldable pub no_such_step : ScriptedBurnin → Turn
no_such_step s = (s, failed (unexpected_step s.step))

-- `s.step++`
abbrev pub advance : ScriptedBurnin → ScriptedBurnin
advance s = record s { step = s.step + 1 }

unfoldable pub then_exec : Bytes → ScriptedBurnin → Turn
then_exec command s = (advance s, answer (exec_tool_call command (s.step + 1)))

unfoldable pub then_call : ToolName → ScriptedBurnin → Turn
then_call name s = (advance s, answer (simple_tool_call name (codes "{}") (s.step + 1)))

-- A status call that does not leave the step.
unfoldable pub poll : ScriptedBurnin → Turn
poll s = (s, answer (simple_tool_call status (codes "{}") s.step))

unfoldable pub say : Bytes → ScriptedBurnin → Turn
say text s = (s, answer (text_message text))

unfoldable pub then_say : Bytes → ScriptedBurnin → Turn
then_say text s = (advance s, answer (text_message text))

abbrev pub is_status : Bytes → Bytes → Bool
is_status last_tool text = same_text last_tool (basic_status ++ text)

-- A step that wants a status and then sends a command.
unfoldable pub stored_then : Bytes → Bytes → ScriptedBurnin → Turn
stored_then last_tool command s =
    if is_status last_tool (codes "STORED") then then_exec command s else wrong s last_tool

-- The `switch` on the status that drains a running program.
unfoldable pub drain_status : Bytes → ScriptedBurnin → Turn
drain_status last_tool s =
    let status_text = trim_prefix last_tool basic_status in
    if same_text status_text (codes "RUNNING") || same_text status_text (codes "STOP REQUESTED")
    then poll s
    else if same_text status_text (codes "READY") || same_text status_text (codes "READY.")
    then then_call screen s
    else wrong s last_tool
