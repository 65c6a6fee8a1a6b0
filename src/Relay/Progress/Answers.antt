-- ===== src/Relay/Progress/Answers.antt =====
-- `callAndDispatch` ends, and leaves no more to come.
use Prim.Native.String.{String}
use claw.Prelude.{ℕ, Bool, true, false, List, [], ◌∷◌, refl, arith, Bytes, if◌then◌else◌}
use claw.Relay.Deliver.{not_empty, start_tool_wait}
use claw.Relay.Dispatch.{
  wait_poll_interval, tool_request, poll_if, exec_args, dispatch_by_name, dispatch_text,
  dispatch_calls, call_llm, call_and_dispatch,
}
use claw.Relay.History.{ToolName, exec, screen, status, unknown_tool, ToolCall, Message}
use claw.Relay.Progress.Frames.{
  Leaves, Never, bind-Never, then-Never, pure-Never, modify-Never, any_text,
  send_next_text_chunk-Never,
}
use claw.Relay.Progress.Sends.{
  AtMost, send_verified-Costs, send_verified_or_semantic-Costs, send_status_probe-Costs,
  send_exec-Costs,
}
use claw.Relay.Progress.Waits.{NotFuel}
use claw.Relay.Rules.{Keeps-state}
use claw.Relay.State.{
  Relay, Env, Name, Args, parsed, refused, Schedule, ended, expires, fails, arrives, pure, fail,
  no_soul, ◌>>=◌,
}

module _ (env : Env) (user_id : String) (n : ℕ) where
  poll-Never : Never n wait_poll_interval
  unfolding wait_poll_interval pure fail
  poll-Never = record { ends = go }
    where
      go : (sch : Schedule) (r : Relay) → AtMost n sch r → Leaves n (wait_poll_interval sch r)
      go [] r i = (i, tt)
      go (ended k ∷ sch) r i = (omega arith, tt)
      go (expires dt k ∷ sch) r i = (i, tt)
      go (fails dt ∷ sch) r i = (i, tt)
      go (arrives dt f ∷ sch) r i = (i, tt)

  poll_if-Never : (b : Bool) → Never n (poll_if env user_id b)
  poll_if-Never true = poll-Never
  poll_if-Never false = pure-Never n tt

  tool_request-Never : (name : Name) (kind : ℕ) → Never n (tool_request env user_id name kind)
  unfolding tool_request
  tool_request-Never name kind =
      then-Never n (any_text n env (λ text. send_verified_or_semantic-Costs env n text _ name _))
        (modify-Never n (start_tool_wait []) (λ r. refl))

  exec_args-Never : (id : Bytes) (a : Args) → Never n (exec_args env user_id id a)
  unfolding exec_args
  exec_args-Never id (refused e) = modify-Never n _ (λ r. refl)
  exec_args-Never id (parsed command) = any_text n env (λ text. send_exec-Costs env n text _)

  dispatch_by_name-Never :
      (name : ToolName) (tc : ToolCall) → Never n (dispatch_by_name env user_id name tc)
  unfolding dispatch_by_name
  dispatch_by_name-Never exec tc = exec_args-Never tc.id (env.unmarshal tc.arguments)
  dispatch_by_name-Never screen tc = tool_request-Never _ _
  dispatch_by_name-Never ToolName.stop tc = tool_request-Never _ _
  dispatch_by_name-Never status tc = bind-Never n (Keeps-state (AtMost n) NotFuel) (λ r.
      then-Never n (poll_if-Never r.basic_running) (
        then-Never n (any_text n env (λ text. send_status_probe-Costs env n text))
          (modify-Never n (start_tool_wait []) (λ r. refl))))
  dispatch_by_name-Never (unknown_tool name) tc = modify-Never n _ (λ r. refl)

  dispatch_text-Never : (b : Bool) (resp : Message) → Never n (dispatch_text env user_id b resp)
  unfolding dispatch_text
  dispatch_text-Never false resp =
      then-Never n (any_text n env (λ text. send_verified-Costs env n text _ _)) (pure-Never n true)
  dispatch_text-Never true resp = then-Never n (modify-Never n _ (λ r. refl)) (
      then-Never n (modify-Never n _ (λ r. refl))
        (then-Never n (send_next_text_chunk-Never env n) (pure-Never n false)))

  dispatch_calls-Never :
      (tcs : List ToolCall) (resp : Message) → Never n (dispatch_calls env user_id tcs resp)
  unfolding dispatch_calls
  dispatch_calls-Never [] resp = dispatch_text-Never (not_empty resp.content) resp
  dispatch_calls-Never (tc ∷ ignored) resp = then-Never n (modify-Never n _ (λ r. refl)) (
      then-Never n (modify-Never n _ (λ r. refl))
        (then-Never n (dispatch_by_name-Never tc.name tc) (pure-Never n false)))

  call_llm-Never : Never n (call_llm env user_id)
  unfolding call_llm pure fail
  call_llm-Never = record { ends = λ sch r i. ground (arith, i) }

  -- `callAndDispatch` ends on every schedule, with text that is cut into chunks until none is left.
  pub call_and_dispatch-Never : Never n (call_and_dispatch env user_id)
  unfolding call_and_dispatch fail
  call_and_dispatch-Never = record { ends = go }
    where
      answer-Never :
          Never n
            (call_llm env user_id >>= (λ resp. dispatch_calls env user_id resp.tool_calls resp))
      answer-Never = bind-Never n call_llm-Never (λ resp. dispatch_calls-Never resp.tool_calls resp)

      pick :
          (b : Bool) (sch : Schedule) (r : Relay)
          → AtMost n sch r
          → Leaves n (
              if b
              then (call_llm env user_id
                    >>= (λ resp. dispatch_calls env user_id resp.tool_calls resp))
                  sch r
              else fail no_soul sch r)
      pick true sch r i = answer-Never.ends sch r i
      pick false sch r i = (i, tt)

      go :
          (sch : Schedule) (r : Relay)
          → AtMost n sch r
          → Leaves n (call_and_dispatch env user_id sch r)
      go sch r i = pick (not_empty r.system_prompt) sch r i
