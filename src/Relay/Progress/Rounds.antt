-- ===== src/Relay/Progress/Rounds.antt =====
-- `eventLoop`: every round takes a pending frame or an arrival, so its fuel is enough.
use Prim.Native.String.{String}
use claw.Prelude.{
  ℕ, zero, suc, ◌+◌, ◌≤◌, ◌<◌, Bool, true, false, ◌&&◌, ◌||◌, List, [], ◌∷◌, ◌≡◌, refl, ap, arith,
  length, if◌then◌else◌,
}
use claw.Relay.Accept.{Accepted}
use claw.Relay.Deliver.{not_empty}
use claw.Relay.Loop.{
  handle_frame, after_step, on_frame, event_loop_from, event_loop,
  should_hand_off_semantic_frame_after_user_text,
}
use claw.Relay.Progress.Frames.{Leaves, Never, bind-Never}
use claw.Relay.Progress.Handlers.{handle_frame-Never, after_step-Never}
use claw.Relay.Progress.Pending.{kept-receive, kept-unwrap}
use claw.Relay.Progress.Waits.{NotFuel, pending, cost}
use claw.Relay.Receive.{
  receive, recv_pending, recv_from_c64, recv_from_socket_only, unwrap_accepted_frame,
}
use claw.Relay.State.{
  Relay, Env, Queued, Arrival, ended, expires, fails, arrives, Schedule, Error, Result, ok, err,
  Run, M, pure, fail, modify, ◌>>=◌, out_of_fuel, context_error, deadline_exceeded, cancelled,
  catch, catch_result,
}
use claw.Relay.Wait.{ok_at_deadline, push_front}
use claw.Serial.Frame.{Frame}

-- What `recvFromC64` leaves: less to come behind a frame.
abbrev Takes : ℕ → Result Queued → Schedule → Relay → Type 0
Takes n (ok q) sch r = cost sch r + 1 ≤ n
Takes n (err e) sch r = (cost sch r ≤ n) × NotFuel e

module _ (env : Env) where
  pending-receive : (w : Bool) (a : Arrival) (r : Relay) → pending (receive env w a r).1 ≡ pending r
  pending-receive w a r = ap length (ap (λ p. p.0) (kept-receive env w a r))

  pending-unwrap :
      (q : Queued) (r : Relay) → pending (unwrap_accepted_frame env q r).relay ≡ pending r
  pending-unwrap q r = ap length (ap (λ p. p.0) (kept-unwrap env q r))

  -- One arrival off the socket, as a queued frame.
  socket-Takes :
      (n : ℕ) (a : Arrival) (sch : Schedule) (r : Relay) (w : Bool)
      → cost (a ∷ sch) r ≤ n
      → let s = recv_pending env [] w (a ∷ sch) r in Takes n s.result s.left s.relay
  unfolding recv_pending recv_from_socket_only receive pure fail ◌>>=◌
  socket-Takes n (ended k) sch r w i = (omega (arith, pending-receive w (ended k) r), tt)
  socket-Takes n (expires dt k) sch r w i = (omega (arith, pending-receive w (expires dt k) r), tt)
  socket-Takes n (fails dt) sch r w i = (omega (arith, pending-receive w (fails dt) r), tt)
  socket-Takes n (arrives dt f) sch r w i = omega (arith, pending-receive w (arrives dt f) r)

  pending-Takes :
      (n : ℕ) (qs : List Queued) (sch : Schedule) (r : Relay) (w : Bool)
      → r.pending_frames ≡ qs
      → cost sch r ≤ n
      → let s = recv_pending env qs w sch r in Takes n s.result s.left s.relay
  unfolding recv_pending recv_from_socket_only pure fail ◌>>=◌
  pending-Takes n [] [] r w e i = (i, tt)
  pending-Takes n [] (a ∷ sch) r w e i = socket-Takes n a sch r w i
  pending-Takes n (q ∷ qs) sch r w e i = omega (arith, ap length e)

  recv_from_c64-Takes :
      (n : ℕ) (sch : Schedule) (r : Relay) (w : Bool)
      → cost sch r ≤ n
      → let s = recv_from_c64 env w sch r in Takes n s.result s.left s.relay
  unfolding recv_from_c64
  recv_from_c64-Takes n sch r w i = pending-Takes n r.pending_frames sch r w refl i

weaken : {A : Type 0} (n m : ℕ) (s : Run A) → n ≤ m → Leaves n s → Leaves m s
weaken n m s l h = (omega arith, h.1)

deadline-Leaves :
    (n : ℕ) (b : Bool) (e : Error) (sch : Schedule) (r : Relay)
    → cost sch r ≤ n
    → NotFuel e
    → Leaves n ((if b then ok_at_deadline e else fail e) sch r)
unfolding pure fail
deadline-Leaves n false e sch r i h = (i, h)
deadline-Leaves n true (context_error deadline_exceeded) sch r i h = (i, tt)
deadline-Leaves n true (context_error cancelled) sch r i h = (i, tt)
deadline-Leaves n true out_of_fuel sch r i h = elim h [ ]
deadline-Leaves n true e sch r i h = (i, h)

module _ (env : Env) (user_id : String) where
  Leaves-if :
      (n : ℕ) (b : Bool) (m k : M (Unit {0})) (sch : Schedule) (r : Relay)
      → Leaves n (m sch r)
      → Leaves n (k sch r)
      → Leaves n ((if b then m else k) sch r)
  Leaves-if n true m k sch r hm hk = hm
  Leaves-if n false m k sch r hm hk = hk

  push_front-Leaves :
      (n m : ℕ) (f : Frame) (sch : Schedule) (r : Relay)
      → cost sch r ≤ n
      → n < m
      → Leaves m (modify (push_front f) sch r)
  unfolding modify
  push_front-Leaves n m f sch r i l = (omega arith, tt)

  -- A round behind a frame, with `n` for what is still to come.
  on_frame-Leaves :
      (n m : ℕ) (user_text : Bool) (again : Bool → Bool → M (Unit {0})) (a : Accepted)
      (sch : Schedule)
      → n < m
      → cost sch a.relay ≤ n
      → ((b b' : Bool) → Never n (again b b'))
      → Leaves m (on_frame env user_id user_text again a sch a.relay)
  unfolding on_frame
  on_frame-Leaves n m user_text again a sch l i h =
      let handled : M (Unit {0}) =
        handle_frame env user_id a.frame >>= after_step env user_id user_text again in
      let hands_off =
        user_text
        && env.queued_waiter a.relay
        && should_hand_off_semantic_frame_after_user_text a.frame.kind in
      let front : M (Unit {0}) = modify (push_front a.frame) in
      let never =
        bind-Never n (handle_frame-Never env user_id n a.frame)
          (after_step-Never env user_id n user_text again h) in
      Leaves-if m a.duplicate (again user_text false) (if hands_off then front else handled) sch
        a.relay
        (weaken n m (again user_text false sch a.relay) (omega arith)
          ((h user_text false).ends sch a.relay i))
        (Leaves-if m hands_off front handled sch a.relay
          (push_front-Leaves n m a.frame sch a.relay i l)
          (weaken n m (handled sch a.relay) (omega arith) (never.ends sch a.relay i)))

  -- The two ways on from `recvFromC64`.
  received-Leaves :
      (n : ℕ) (x : Result Queued) (sch : Schedule) (r : Relay) (user_text : Bool) (b : Bool)
      (again : Bool → Bool → M (Unit {0}))
      → Takes n x sch r
      → ((m : ℕ) → m < n → (b b' : Bool) → Never m (again b b'))
      → Leaves n (
          catch_result x
            (λ q sch' r'.
              let a = unwrap_accepted_frame env q r' in
              on_frame env user_id user_text again a sch' a.relay)
            (λ e. if b then ok_at_deadline e else fail e)
            sch
            r)
  received-Leaves zero (ok q) sch r user_text b again t h =
      let none_left : ⊥ = omega arith in elim none_left [ ]
  received-Leaves (suc n) (ok q) sch r user_text b again t h =
      on_frame-Leaves n (suc n) user_text again (unwrap_accepted_frame env q r) sch (omega arith)
        (omega (arith, pending-unwrap env q r)) (h n (omega arith))
  received-Leaves n (err e) sch r user_text b again t h = deadline-Leaves n b e sch r t.0 t.1

  loop-Never :
      (fuel n : ℕ) → n < fuel → (b b' : Bool) → Never n (event_loop_from env user_id fuel b b')
  unfolding event_loop_from catch fail
  loop-Never zero n l b b' = omega arith
  loop-Never (suc fuel) n l b b' = record {
    ends = λ sch r i.
        received-Leaves n (recv_from_c64 env (not_empty r.text_out_queue) sch r).result _ _ b
          (b || b') (event_loop_from env user_id fuel)
          (recv_from_c64-Takes env n sch r (not_empty r.text_out_queue) i)
          (λ m e. loop-Never fuel m (omega arith));
  }

  -- `eventLoop` ends on every schedule: the fuel is never used up, in it or in the text sender that
  -- it runs, and arrivals (counted twice) and pending frames are no more at its end than before.
  pub event_loop-Leaves :
      (sch : Schedule) (r : Relay) → Leaves (cost sch r) (event_loop env user_id sch r)
  unfolding event_loop
  event_loop-Leaves sch r =
      (loop-Never (suc (cost sch r)) (cost sch r) (omega arith) false false).ends sch r
        (omega arith)
