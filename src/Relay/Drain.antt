-- ===== src/Relay/Drain.antt =====
-- bridge/relay/relay.go: `drainTrailingAfterUserText` and `drainTrailingLLMMessages`. The stream
-- output and the log lines are not modelled.
pub mod Order
use Prim.Native.String.{String}
use claw.Prelude.{
  codes, ℕ, zero, suc, ◌+◌, ◌*◌, Bool, true, false, not, ◌&&◌, ◌||◌, Option, none, some, List, [],
  ◌∷◌, ◌++◌, ◌==◌, if◌then◌else◌, length, Bytes,
}
use claw.Relay.Accept.{Accepted, consume_late_ack}
use claw.Relay.Chunks.{handle_system_frame, handle_result_frame}
use claw.Relay.Deliver.{not_empty}
use claw.Relay.Dispatch.{append_tool_result, call_and_dispatch}
use claw.Relay.Events.{format_c64_llm_events}
use claw.Relay.History.{ToolName, screen, Role, append}
use claw.Relay.Receive.{
  Verdict, stop, go_on, receive, recv_from_c64, pending_loop, unwrap_accepted_frame,
}
use claw.Relay.State.{
  Relay, Env, Queued, Schedule, Result, Run, emit_error, out_of_fuel, ok, err, M, pure, fail, ◌>>=◌,
  ◌>>◌, modify, state, catch,
}
use claw.Relay.Wait.{push_front, ok_at_deadline}
use claw.Serial.Frame.{
  Frame, extract_ack_id, frame_user, frame_system, frame_status, frame_result, frame_error,
  frame_llm, frame_ack,
}

-- `append(r.pendingFrames, queuedFrame{frame: f, accepted: accepted})`, with `accepted` as
-- `unwrapAcceptedFrame` returns it for a frame that it does not consume, which is true.
abbrev requeue : Frame → Relay → Relay
requeue f r = record r {
  pending_frames = r.pending_frames ++ ((record { frame = f; accepted = true }) ∷ []);
}

-- A round of `drainTrailingLLMMessages` goes on, or ends with the payloads.
abbrev pub after_round :
    Bool × List Bytes × Relay
    → Schedule
    → (List Bytes → Relay → Run (List Bytes))
    → Run (List Bytes)
after_round (true, payloads, r) sch k = k payloads r
after_round (false, payloads, r) sch k = pure payloads sch r

-- `if err != nil { return payloads }`
abbrev pub or_payloads :
    Result Frame × Relay
    → List Bytes
    → Schedule
    → (Frame → Relay → Run (List Bytes))
    → Run (List Bytes)
or_payloads (ok f, r) payloads sch k = k f r
or_payloads (err e, r) payloads sch k = pure payloads sch r

module _ (env : Env) where
  -- The body of `drainTrailingAfterUserText`; every way out is a plain return.
  unfoldable pub drain_user_body : Queued → Relay → Verdict (Unit {0}) × Relay
  drain_user_body q r =
      let a = unwrap_accepted_frame env q r in
      if a.duplicate
      then (go_on, a.relay)
      else if a.frame.kind == frame_user
      then (go_on, record a.relay { text_buf = a.relay.text_buf ++ a.frame.payload })
      else if a.frame.kind == frame_system
      then (go_on, handle_system_frame a.frame.payload a.relay)
      else (stop (ok tt), requeue a.frame a.relay)

  unfoldable pub drain_trailing_after_user_text : M (Unit {0})
  drain_trailing_after_user_text sch r =
      let s = pending_loop env drain_user_body r.pending_frames sch r in pure tt s.left s.relay

  -- A round of `drainTrailingLLMMessages`: whether it goes on, the payloads so far, the state.
  unfoldable pub drain_llm_body : Queued → List Bytes → Relay → Bool × List Bytes × Relay
  drain_llm_body q payloads r =
      let a = unwrap_accepted_frame env q r in
      if a.duplicate
      then (true, payloads, a.relay)
      else if a.frame.kind == frame_llm
      then (true, payloads ++ (a.frame.payload ∷ []), a.relay)
      else if a.frame.kind == frame_system
      then (true, payloads, handle_system_frame a.frame.payload a.relay)
      else (false, payloads, requeue a.frame a.relay)

  -- `drainTrailingLLMMessages` off the socket. Every error ends it.
  unfoldable pub drain_llm_socket : Schedule → List Bytes → Relay → Run (List Bytes)
  drain_llm_socket [] payloads r = pure payloads [] r
  drain_llm_socket (a ∷ sch) payloads r = or_payloads (receive env false a r) payloads sch (λ f r'.
      after_round (drain_llm_body (record { frame = f; accepted = false }) payloads r') sch
        (drain_llm_socket sch))

  -- The same on the pending frames, and then off the socket.
  unfoldable pub drain_llm_pending : List Queued → Schedule → List Bytes → Relay → Run (List Bytes)
  drain_llm_pending [] sch payloads r = drain_llm_socket sch payloads r
  drain_llm_pending (q ∷ qs) sch payloads r =
      after_round (drain_llm_body q payloads (record r { pending_frames = qs })) sch
        (drain_llm_pending qs sch)

  unfoldable pub drain_trailing_llm_messages : M (List Bytes)
  drain_trailing_llm_messages sch r = drain_llm_pending r.pending_frames sch [] r
