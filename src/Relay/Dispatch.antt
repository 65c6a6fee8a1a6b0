-- ===== src/Relay/Dispatch.antt =====
-- bridge/relay/relay.go: `callAndDispatch`, the LLM's turn.
pub mod Command
use Prim.Native.String.{String}
use claw.Prelude.{
  codes, ℕ, ◌+◌, Bool, true, false, ◌||◌, none, some, List, [], ◌∷◌, ◌++◌, ◌==◌, if◌then◌else◌,
  take, Bytes,
}
use claw.Relay.Deliver.{
  not_empty, bridge_frame_body_max, send_verified, send_verified_or_semantic, send_status_probe,
  start_tool_wait, send_exec, send_next_text_chunk,
}
use claw.Relay.History.{
  ToolName, exec, screen, status, unknown_tool, ToolCall, Role, Message, append, get,
}
use claw.Relay.State.{
  Relay, Env, Args, parsed, refused, Name, ended, context_error, llm_error, no_soul, M, pure, fail,
  ◌>>=◌, ◌>>◌, modify, state, sleep,
}
use claw.Serial.Ascii.{to_ascii, to_c64_text}
use claw.Serial.Frame.{frame_done, frame_screenshot, frame_stop}

-- `appendToolResult`
unfoldable pub append_tool_result : String → Bytes → Relay → Relay
append_tool_result user_id result r = record r {
  history = append r.history user_id (record {
    role = Role.tool;
    content = result;
    tool_calls = [];
    tool_call_id = r.last_tool_call_id;
  });
}

abbrev append_message : String → Message → Relay → Relay
append_message user_id m r = record r { history = append r.history user_id m }

-- `if i := strings.IndexAny(cmd, "\n\r"); i >= 0 { cmd = cmd[:i] }`
unfoldable pub first_line : Bytes → Bytes
first_line [] = []
first_line (c ∷ cs) = let rest = first_line cs in if c == b'\n' || c == b'\r' then [] else c ∷ rest

-- The command of an EXEC frame.
unfoldable pub sanitize : Bytes → Bytes
unfolding first_line
sanitize command = take bridge_frame_body_max (first_line (to_ascii command))

-- The `select` between the context and the poll timer.
unfoldable pub wait_poll_interval : M (Unit {0})
wait_poll_interval (ended k ∷ sch) r = fail (context_error k) sch r
wait_poll_interval sch r = pure tt sch (sleep 3000 r)

module _ (env : Env) (user_id : String) where
  unfoldable pub tool_request : Name → ℕ → M (Unit {0})
  tool_request name kind = do
    send_verified_or_semantic env (record { kind = kind; payload = [] }) name
    modify (start_tool_wait [])

  abbrev pub poll_if : Bool → M (Unit {0})
  poll_if true = wait_poll_interval
  poll_if false = pure tt

  unfoldable pub exec_args : Bytes → Args → M (Unit {0})
  exec_args id (refused e) = modify (
      append_message user_id (record {
        role = Role.tool;
        content = codes "ERROR: " ++ e;
        tool_calls = [];
        tool_call_id = id;
      }))
  exec_args id (parsed command) = send_exec env (sanitize command)

  -- The `switch` on the tool's name.
  unfoldable pub dispatch_by_name : ToolName → ToolCall → M (Unit {0})
  unfolding tool_request exec_args
  dispatch_by_name exec tc = exec_args tc.id (env.unmarshal tc.arguments)
  dispatch_by_name screen tc = tool_request Name.screenshot frame_screenshot
  dispatch_by_name ToolName.stop tc = tool_request Name.stop frame_stop
  dispatch_by_name status tc = do
    r ← state
    poll_if r.basic_running
    send_status_probe env
    modify (start_tool_wait [])
  dispatch_by_name (unknown_tool name) tc = modify (
      append_message user_id (record {
        role = Role.tool;
        content = codes "ERROR: unknown tool";
        tool_calls = [];
        tool_call_id = tc.id;
      }))

  -- An answer without a tool call; the flag is `resp.Content != ""`.
  unfoldable pub dispatch_text : Bool → Message → M Bool
  dispatch_text false resp = do
    send_verified env (record { kind = frame_done; payload = [] }) Name.done
    pure true
  dispatch_text true resp = do
    modify (append_message user_id resp)
    modify (λ r. record r { text_out_queue = to_c64_text resp.content })
    send_next_text_chunk env
    pure false

  -- By `resp.ToolCalls`; only the first is dispatched.
  unfoldable pub dispatch_calls : List ToolCall → Message → M Bool
  dispatch_calls [] resp = dispatch_text (not_empty resp.content) resp
  dispatch_calls (tc ∷ ignored) resp = do
    modify (append_message user_id resp)
    modify (λ r. record r {
      last_tool_call_id = tc.id;
      last_tool_name = some tc.name;
      text_drain_pending = false;
    })
    dispatch_by_name tc.name tc
    pure false

  -- `r.LLM.Complete(ctx, msgs, llmTools)`, with the system prompt before the history.
  unfoldable pub call_llm : M Message
  call_llm sch r =
      let msgs =
        (record {
          role = Role.system;
          content = r.system_prompt;
          tool_calls = [];
          tool_call_id = [];
        })
        ∷ get r.history user_id in
      let r' = record r { llm_calls = r.llm_calls + 1 } in
      elim (env.complete r.llm_calls msgs) [
        | none ↦ fail llm_error sch r'
        | some resp ↦ pure resp sch r'
      ]

  -- `callAndDispatch`; the result is `idle`.
  unfoldable pub call_and_dispatch : M Bool
  call_and_dispatch sch r =
      let answer : M Bool = call_llm >>= (λ resp. dispatch_calls resp.tool_calls resp) in
      if not_empty r.system_prompt then answer sch r else fail no_soul sch r
