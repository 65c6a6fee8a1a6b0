-- ===== src/Relay/Waiters.antt =====
-- bridge/relay/relay.go: the ACK waiters, the goroutine of `ensureRecvLoop` that serves them, and the
-- delivery of an overlapping message. A waiter's channel holds one frame at most.
pub mod Served
use claw.Prelude.{
  ℕ, Bool, true, false, Option, none, some, List, [], ◌∷◌, ◌++◌, ◌==◌, if◌then◌else◌,
}
use claw.Relay.Deliver.{send_new_reliable_bridge_frame, verify_loop, reliable_retry_delays}
use claw.Relay.State.{
  Env, Name, ended, expires, fails, arrives, cancelled, context_error, M, pure, fail, ◌>>=◌, sleep,
}
use claw.Relay.Wait.{is_ack_of}
use claw.Serial.Frame.{Frame, frame_ack, extract_ack_id}

-- The map of channels by ID, one binding for each key, with the frame that a channel holds.
abbrev pub Waiters : Type 0
Waiters = List (ℕ × Option Frame)

-- `unregisterAckWaiter`
unfoldable pub unregister_ack_waiter : ℕ → Waiters → Waiters
unregister_ack_waiter id [] = []
unregister_ack_waiter id ((k, held) ∷ ws) =
    let rest = unregister_ack_waiter id ws in if k == id then rest else (k, held) ∷ rest

-- `registerAckWaiter`
unfoldable pub register_ack_waiter : ℕ → Waiters → Waiters
unfolding unregister_ack_waiter
register_ack_waiter id ws = (id, none) ∷ unregister_ack_waiter id ws

-- `select { case ch <- f: default: }`
abbrev pub offer : Frame → Option Frame → Option Frame
offer f none = some f
offer f (some held) = some held

unfoldable pub offer_to : ℕ → Frame → Waiters → Bool × Waiters
offer_to id f [] = (false, [])
offer_to id f ((k, held) ∷ ws) =
    let (taken, rest) = offer_to id f ws in
    if k == id then (true, (k, offer f held) ∷ ws) else (taken, (k, held) ∷ rest)

abbrev pub offer_acked : Option ℕ → Frame → Waiters → Bool × Waiters
offer_acked none f ws = (false, ws)
offer_acked (some id) f ws = offer_to id f ws

-- `dispatchAckWaiter`
unfoldable pub dispatch_ack_waiter : Frame → Waiters → Bool × Waiters
unfolding offer_to
dispatch_ack_waiter f ws = offer_acked (extract_ack_id f.payload) f ws

-- The channels of the goroutine: `ackCh` and `recvCh`, as what was sent into them, in order.
pub record Channels : Type 0 where
  pub waiters : Waiters
  pub acks : List Frame
  pub frames : List Frame

abbrev pub put_ack : Frame → Channels → Bool × Waiters → Channels
put_ack f c (true, ws) = record c { waiters = ws }
put_ack f c (false, ws) = record c { waiters = ws; acks = c.acks ++ (f ∷ []) }

-- A round of the goroutine on a frame that `Recv` returns without an error.
unfoldable pub route_frame : Frame → Channels → Channels
unfolding dispatch_ack_waiter
route_frame f c =
    if f.kind == frame_ack
    then put_ack f c (dispatch_ack_waiter f c.waiters)
    else record c { frames = c.frames ++ (f ∷ []) }

unfoldable pub route_frames : List Frame → Channels → Channels
unfolding route_frame
route_frames [] c = c
route_frames (f ∷ fs) c = route_frames fs (route_frame f c)

-- `waitForAckWaiter`, on a schedule of what the waiter's channel brings; the link's failures go to
-- another channel.
unfoldable pub wait_for_ack_waiter : ℕ → M (Unit {0})
wait_for_ack_waiter id [] r = fail (context_error cancelled) [] r
wait_for_ack_waiter id (ended k ∷ sch) r = fail (context_error k) sch r
wait_for_ack_waiter id (expires dt k ∷ sch) r = fail (context_error k) sch (sleep dt r)
wait_for_ack_waiter id (fails dt ∷ sch) r = wait_for_ack_waiter id sch (sleep dt r)
wait_for_ack_waiter id (arrives dt f ∷ sch) r =
    let again = wait_for_ack_waiter id sch (sleep dt r) in
    if is_ack_of id (extract_ack_id f.payload) then pure tt sch (sleep dt r) else again

-- `sendVerifiedWithAckWaiter`, for any timeout.
unfoldable pub send_verified_with_ack_waiter : Env → Frame → Name → M (Unit {0})
unfolding wait_for_ack_waiter
send_verified_with_ack_waiter env f name = do
  (id, framed) ← send_new_reliable_bridge_frame env f
  verify_loop env reliable_retry_delays true framed name (wait_for_ack_waiter id)
