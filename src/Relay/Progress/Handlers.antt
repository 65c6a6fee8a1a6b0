-- ===== src/Relay/Progress/Handlers.antt =====
-- The cases of the `switch` of `eventLoop`: each ends, and leaves no more to come.
use Prim.Native.String.{String}
use claw.Prelude.{
  ℕ, Bool, true, false, Option, none, some, ◌≡◌, refl, ap, ◌∙◌, arith, length, Bytes, if◌then◌else◌,
}
use claw.Relay.Chunks.{handle_result_frame}
use claw.Relay.Dispatch.{append_tool_result}
use claw.Relay.Loop.{
  Step, nothing, delivered, idle, step_of, dispatch, handle_llm, handle_text, handle_result,
  handle_status, handle_error, handle_user, handle_ack, handle_frame, after_step, note_status,
  note_completion, append_c64_llm_events, emit_text,
}
use claw.Relay.Progress.Answers.{call_and_dispatch-Never}
use claw.Relay.Progress.Drains.{drain_user-Never, drain_llm-Never, kept-system}
use claw.Relay.Progress.Frames.{Never, bind-Never, then-Never, pure-Never, modify-Never}
use claw.Relay.Progress.Pending.{kept-consume_late_ack}
use claw.Relay.Progress.Sends.{AtMost}
use claw.Relay.Progress.Waits.{NotFuel, pending}
use claw.Relay.Rules.{Keeps-state}
use claw.Relay.State.{Relay, Env, M, pure, fail}
use claw.Serial.Frame.{Frame, extract_ack_id}

note_status-pending : (s : Bytes) (r : Relay) → pending (note_status s r) ≡ pending r
unfolding note_status
note_status-pending s r = refl

note_completion-pending : (r : Relay) → pending (note_completion r) ≡ pending r
unfolding note_completion
note_completion-pending r = refl

handle_result_frame-pending :
    (p : Bytes) (r : Relay) → pending (handle_result_frame p r).1 ≡ pending r
unfolding handle_result_frame
handle_result_frame-pending p r = ground arith

module _ (env : Env) (user_id : String) (n : ℕ) where
  dispatch-Never : Never n (dispatch env user_id)
  dispatch-Never =
      bind-Never n (call_and_dispatch-Never env user_id n) (λ b. pure-Never n (step_of b))

  handle_llm-Never : (p : Bytes) → Never n (handle_llm env user_id p)
  unfolding handle_llm append_c64_llm_events
  handle_llm-Never p =
      bind-Never n (drain_llm-Never env n)
        (λ more. then-Never n (modify-Never n _ (λ r. refl)) dispatch-Never)

  handle_text-Never : (o : Option Bytes) → Never n (handle_text env user_id o)
  unfolding append_tool_result
  handle_text-Never none = pure-Never n nothing
  handle_text-Never (some text) = then-Never n (modify-Never n _ (λ r. refl)) dispatch-Never

  handle_result-Never : (p : Bytes) → Never n (handle_result env user_id p)
  unfolding handle_result
  handle_result-Never p = record {
    ends = λ sch r i.
        let e = handle_result_frame-pending p (note_completion r) ∙ note_completion-pending r in
        (handle_text-Never (handle_result_frame p (note_completion r)).0).ends sch _ (omega arith);
  }

  handle_status-Never : (p : Bytes) → Never n (handle_status env user_id p)
  unfolding handle_status append_tool_result
  handle_status-Never p =
      then-Never n (modify-Never n _ (note_status-pending _))
        (then-Never n (modify-Never n _ (λ r. refl)) dispatch-Never)

  handle_error-Never : Never n (handle_error env user_id)
  unfolding handle_error append_tool_result
  handle_error-Never =
      then-Never n (modify-Never n note_completion note_completion-pending)
        (then-Never n (modify-Never n _ (λ r. refl)) dispatch-Never)

  emit_text-Never : (text : Bytes) → Never n (emit_text env user_id text)
  unfolding pure fail
  emit_text-Never text = record { ends = λ sch r i. ground (arith, i) }

  handle_user-Never : (p : Bytes) → Never n (handle_user env user_id p)
  unfolding handle_user
  handle_user-Never p = then-Never n (modify-Never n _ (λ r. refl)) (
      then-Never n (drain_user-Never env n)
        (bind-Never n (Keeps-state (AtMost n) NotFuel) (λ r. emit_text-Never r.text_buf)))

  handle_ack-Never : (o : Option ℕ) → Never n (handle_ack env user_id o)
  handle_ack-Never none = pure-Never n nothing
  handle_ack-Never (some id) =
      then-Never n (modify-Never n _ (λ r. ap length (ap (λ p. p.0) (kept-consume_late_ack id r))))
        (pure-Never n nothing)

  Never-if :
      {A : Type 0} (b : Bool) {m k : M A} → Never n m → Never n k → Never n (if b then m else k)
  Never-if true hm hk = hm
  Never-if false hm hk = hk

  pub handle_frame-Never : (f : Frame) → Never n (handle_frame env user_id f)
  unfolding handle_frame
  handle_frame-Never f = Never-if _ (handle_llm-Never f.payload) (
      Never-if _ (handle_result-Never f.payload) (
        Never-if _ (handle_status-Never f.payload) (
          Never-if _ handle_error-Never (
            Never-if _ (handle_user-Never f.payload) (
              Never-if _
                (then-Never n (modify-Never n _ (λ r. ap (λ p. p.0) (kept-system f.payload r)))
                  (pure-Never n nothing))
                (Never-if _ (handle_ack-Never (extract_ack_id f.payload))
                  (pure-Never n nothing)))))))

  pub after_step-Never :
      (user_text : Bool) (again : Bool → Bool → M (Unit {0}))
      → ((b b' : Bool) → Never n (again b b'))
      → (s : Step) → Never n (after_step env user_id user_text again s)
  after_step-Never user_text again h nothing = h user_text false
  after_step-Never user_text again h delivered = h true false
  after_step-Never user_text again h idle = h user_text true
