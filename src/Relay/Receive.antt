-- ===== src/Relay/Receive.antt =====
-- bridge/relay/relay.go: the two receive functions, and the loop that all their callers share.
-- `select` is free to choose between its channels: a schedule fixes the choice, so the two
-- channels of ACKs and of other frames are one sequence here.
use claw.Prelude.{ℕ, Bool, false, some, List, [], ◌∷◌, ◌==◌, if◌then◌else◌}
use claw.Relay.Accept.{Accepted, flush_pending_acks, accept_c64_frame_queued}
use claw.Relay.State.{
  Relay, Env, Queued, Arrival, Schedule, ended, expires, fails, arrives, cancelled, context_error,
  recv_error, Result, ok, err, Run, M, pure, fail, ◌>>=◌, sleep,
}
use claw.Serial.Frame.{Frame, frame_ack}

-- What a round of a receive loop decides.
pub data Verdict (A : Type 0) : Type 0 where
  stop : Result A → Verdict A
  go_on : Verdict A

-- Goes on from a received frame, or ends with the error.
abbrev pub after_got :
    {A : Type 0} → Result Frame × Relay → Schedule → (Frame → Relay → Run A) → Run A
after_got (ok f, r) sch k = k f r
after_got (err e, r) sch k = fail e sch r

-- Ends with a verdict's result, or goes on.
abbrev pub after_verdict : {A : Type 0} → Verdict A × Relay → Schedule → (Relay → Run A) → Run A
after_verdict (stop x, r) sch k = record { result = x; left = sch; relay = r }
after_verdict (go_on, r) sch k = k r

abbrev pub pause_if_acks : List ℕ → Relay → Relay
pause_if_acks [] r = r
pause_if_acks (id ∷ ids) r = sleep 10 r

module _ (env : Env) where
  -- `if !waitingTextAck { … }`, before the `select`.
  unfoldable pub before_select : Bool → Relay → Relay
  before_select waiting_text_ack r =
      if waiting_text_ack then r else flush_pending_acks env (pause_if_acks r.pending_acks r)

  -- `recvFromSocketOnly` on one arrival. `lastC64FrameAt` is set for frames off `recvCh`, which are
  -- all but ACKs.
  unfoldable pub receive : Bool → Arrival → Relay → Result Frame × Relay
  receive waiting_text_ack (ended k) r = (err (context_error k), r)
  receive waiting_text_ack (expires dt k) r =
      (err (context_error k), sleep dt (before_select waiting_text_ack r))
  receive waiting_text_ack (fails dt) r =
      (err recv_error, sleep dt (before_select waiting_text_ack r))
  receive waiting_text_ack (arrives dt f) r =
      let r' = sleep dt (before_select waiting_text_ack r) in
      (ok f, if f.kind == frame_ack then r' else record r' { last_c64_frame_at = some r'.now })

  -- `recvFromSocketOnly`. The end of the schedule is the end of the context.
  unfoldable pub recv_from_socket_only : Bool → M Frame
  recv_from_socket_only waiting_text_ack [] r = fail (context_error cancelled) [] r
  recv_from_socket_only waiting_text_ack (a ∷ sch) r =
      after_got (receive waiting_text_ack a r) sch (λ f. pure f sch)

  unfoldable pub recv_pending : List Queued → Bool → M Queued
  recv_pending [] waiting_text_ack = do
    f ← recv_from_socket_only waiting_text_ack
    pure (record { frame = f; accepted = false })
  recv_pending (q ∷ qs) waiting_text_ack = λ sch r. pure q sch (record r { pending_frames = qs })

  -- `recvFromC64`: a pending frame first.
  unfoldable pub recv_from_c64 : Bool → M Queued
  recv_from_c64 waiting_text_ack sch r = recv_pending r.pending_frames waiting_text_ack sch r

  module _ {A : Type 0} (waiting_text_ack : Bool) (body : Frame → Relay → Verdict A × Relay) where
    -- `for { f, err := r.recvFromSocketOnly(…); if err != nil { return err }; switch f.Type … }`
    unfoldable pub recv_loop : Schedule → Relay → Run A
    recv_loop [] r = fail (context_error cancelled) [] r
    recv_loop (a ∷ sch) r =
        after_got (receive waiting_text_ack a r) sch
          (λ f r'. after_verdict (body f r') sch (recv_loop sch))

  -- The same around `recvFromC64`: the pending frames first. No `body` that goes on touches them.
  module _ {A : Type 0} (body : Queued → Relay → Verdict A × Relay) where
    unfoldable pub pending_loop : List Queued → Schedule → Relay → Run A
    pending_loop [] sch r =
        recv_loop false (λ f. body (record { frame = f; accepted = false })) sch r
    pending_loop (q ∷ qs) sch r =
        after_verdict (body q (record r { pending_frames = qs })) sch (pending_loop qs sch)

  -- `unwrapAcceptedFrame(&f, accepted, true)`: whether the frame is consumed, the frame, the state.
  unfoldable pub unwrap_accepted_frame : Queued → Relay → Accepted
  unwrap_accepted_frame q r =
      if q.accepted
      then record { duplicate = false; frame = q.frame; relay = r }
      else accept_c64_frame_queued env q.frame r
