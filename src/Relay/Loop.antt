-- ===== src/Relay/Loop.antt =====
-- bridge/relay/relay.go: the cases of `eventLoop` and its loop.
-- The stream output and the log lines are not modelled.
use Prim.Native.String.{String}
use claw.Prelude.{
  codes, ℕ, zero, suc, ◌+◌, ◌*◌, Bool, true, false, not, ◌&&◌, ◌||◌, Option, none, some, List, [],
  ◌∷◌, ◌++◌, ◌==◌, if◌then◌else◌, length, Bytes,
}
use claw.Relay.Accept.{Accepted, consume_late_ack}
use claw.Relay.Chunks.{handle_system_frame, handle_result_frame}
use claw.Relay.Drain.{drain_trailing_after_user_text, drain_trailing_llm_messages}
use claw.Relay.Deliver.{not_empty}
use claw.Relay.Dispatch.{append_tool_result, call_and_dispatch}
use claw.Relay.Events.{format_c64_llm_events}
use claw.Relay.History.{ToolName, screen, Role, append}
use claw.Relay.Receive.{recv_from_c64, unwrap_accepted_frame}
use claw.Relay.State.{
  Relay, Env, emit_error, out_of_fuel, M, pure, fail, ◌>>=◌, ◌>>◌, modify, state, catch,
}
use claw.Relay.Wait.{push_front, ok_at_deadline}
use claw.Serial.Frame.{
  Frame, extract_ack_id, frame_user, frame_system, frame_status, frame_result, frame_error,
  frame_llm, frame_ack,
}

-- `==` on byte strings.
unfoldable pub same : Bytes → Bytes → Bool
same [] [] = true
same (x ∷ xs) (y ∷ ys) = if x == y then same xs ys else false
same _ _ = false

unfoldable pub should_hand_off_semantic_frame_after_user_text : ℕ → Bool
should_hand_off_semantic_frame_after_user_text t =
    t == frame_llm || t == frame_status || t == frame_result || t == frame_error

-- The fields that `case serial.FrameStatus` sets, by the status text.
unfoldable pub note_status : Bytes → Relay → Relay
note_status status r =
    let running = same status (codes "RUNNING") || same status (codes "STOP REQUESTED") in
    let ready = same status (codes "READY") || same status (codes "READY.") in
    record r {
      tool_in_flight = [];
      waiting_tool = false;
      basic_running =
          if same status (codes "RUNNING") then running else if ready then false else running;
      completion_drain =
          if same status (codes "RUNNING")
          then true
          else if ready
          then false
          else r.completion_drain;
      text_drain_pending = if not running then true else r.text_drain_pending;
    }

-- The fields that `case serial.FrameResult` and `case serial.FrameError` set.
unfoldable pub note_completion : Relay → Relay
note_completion r = record r {
  tool_in_flight = [];
  waiting_tool = false;
  basic_running = false;
  completion_drain = false;
  text_drain_pending = true;
}

abbrev is_screen : Option ToolName → Bool
is_screen (some screen) = true
is_screen _ = false

-- The tool result that a complete RESULT text makes.
unfoldable pub tool_result : Option ToolName → Bytes → Bytes
tool_result name text =
    let prefix =
      if is_screen name
      then codes "[C64 text screen screenshot]: "
      else codes "[C64 screen output]: " in
    if not_empty text then prefix ++ text else prefix ++ codes "(empty)"

-- How a frame leaves the loop's two flags: as they are, with text delivered, or idle.
pub data Step : Type 0 where
  nothing delivered idle : Step

abbrev pub step_of : Bool → Step
step_of true = idle
step_of false = nothing

module _ (env : Env) (user_id : String) where
  -- `appendC64LLMEvents`
  unfoldable pub append_c64_llm_events : List Bytes → Relay → Relay
  append_c64_llm_events payloads r = record r {
    history = append r.history user_id (record {
      role = Role.user;
      content = format_c64_llm_events payloads;
      tool_calls = [];
      tool_call_id = [];
    });
  }

  -- `callAndDispatch` as each case of the `switch` ends.
  abbrev pub dispatch : M Step
  dispatch = do is_idle ← call_and_dispatch env user_id; pure (step_of is_idle)

  unfoldable pub handle_llm : Bytes → M Step
  handle_llm payload = do
    more ← drain_trailing_llm_messages env
    modify (append_c64_llm_events (payload ∷ more))
    dispatch

  abbrev pub handle_text : Option Bytes → M Step
  handle_text none = pure nothing
  handle_text (some text) = do
    modify (λ r. append_tool_result user_id (tool_result r.last_tool_name text) r)
    dispatch

  unfoldable pub handle_result : Bytes → M Step
  handle_result payload sch r =
      let (text, r') = handle_result_frame payload (note_completion r) in handle_text text sch r'

  unfoldable pub handle_status : Bytes → M Step
  handle_status payload = do
    let status = if not_empty payload then payload else codes "UNKNOWN"
    modify (note_status status)
    modify (append_tool_result user_id (codes "[C64 BASIC status]: " ++ status))
    dispatch

  unfoldable pub handle_error : M Step
  handle_error = do
    modify note_completion
    modify (append_tool_result user_id (codes "ERROR: command timed out on C64"))
    dispatch

  -- `if err := emit(text); err != nil { return err }`
  abbrev pub emit_text : Bytes → M Step
  emit_text text sch r =
      let r' = record r { emitted = text ∷ r.emitted; text_buf = [] } in
      if env.emit text then pure delivered sch r' else fail emit_error sch r'

  unfoldable pub handle_user : Bytes → M Step
  handle_user payload = do
    modify (λ r. record r { text_buf = r.text_buf ++ payload })
    drain_trailing_after_user_text env
    r ← state
    emit_text r.text_buf

  -- `case serial.FrameAck`
  abbrev pub handle_ack : Option ℕ → M Step
  handle_ack none = pure nothing
  handle_ack (some ack_id) = do modify (λ r. (consume_late_ack ack_id r).1); pure nothing

  -- The `switch` of `eventLoop`.
  unfoldable pub handle_frame : Frame → M Step
  handle_frame f =
      if f.kind == frame_llm
      then handle_llm f.payload
      else if f.kind == frame_result
      then handle_result f.payload
      else if f.kind == frame_status
      then handle_status f.payload
      else if f.kind == frame_error
      then handle_error
      else if f.kind == frame_user
      then handle_user f.payload
      else if f.kind == frame_system
      then (do modify (handle_system_frame f.payload); pure nothing)
      else if f.kind == frame_ack
      then handle_ack (extract_ack_id f.payload)
      else pure nothing

  -- How a handled frame sets the flags `deliveredUserText` and `completedWithoutText`.
  abbrev pub after_step : Bool → (Bool → Bool → M (Unit {0})) → Step → M (Unit {0})
  after_step user_text again nothing = again user_text false
  after_step user_text again delivered = again true false
  after_step user_text again idle = again user_text true

  -- A round of `eventLoop` behind `unwrapAcceptedFrame`.
  unfoldable pub on_frame : Bool → (Bool → Bool → M (Unit {0})) → Accepted → M (Unit {0})
  on_frame user_text again a =
      if a.duplicate
      then again user_text false
      else if user_text
          && env.queued_waiter a.relay
          && should_hand_off_semantic_frame_after_user_text a.frame.kind
      then modify (push_front a.frame)
      else handle_frame a.frame >>= after_step user_text again

  -- The loop of `eventLoop`, with its two flags and fuel for the rounds.
  unfoldable pub event_loop_from : ℕ → Bool → Bool → M (Unit {0})
  event_loop_from zero user_text without_text sch r = fail out_of_fuel sch r
  event_loop_from (suc fuel) user_text without_text sch r =
      catch (recv_from_c64 env (not_empty r.text_out_queue))
        (λ q sch' r'.
          let a = unwrap_accepted_frame env q r' in
          on_frame user_text (event_loop_from fuel) a sch' a.relay)
        (λ e. if user_text || without_text then ok_at_deadline e else fail e) sch r

  -- Each round takes a pending frame or an arrival, and each arrival makes at most one frame
  -- pending.
  unfoldable pub event_loop : M (Unit {0})
  event_loop sch r =
      event_loop_from (suc (2 * length sch + length r.pending_frames)) false false sch r
