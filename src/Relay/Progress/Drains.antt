-- ===== src/Relay/Progress/Drains.antt =====
-- The drains behind user text and LLM events: a frame that ends one goes back to the pending ones.
use claw.Prelude.{
  ℕ, ◌+◌, ◌*◌, ◌≤◌, Bool, true, false, List, [], ◌∷◌, ◌≡◌, refl, ap, arith, length, Bytes,
}
use claw.Relay.Chunks.{handle_system_frame}
use claw.Relay.Drain.{
  drain_user_body, drain_trailing_after_user_text, drain_llm_body, drain_llm_socket,
  drain_llm_pending, drain_trailing_llm_messages, after_round, or_payloads,
}
use claw.Relay.Progress.Frames.{Leaves, Never, any_text}
use claw.Relay.Progress.Pending.{kept, kept-receive, kept-unwrap}
use claw.Relay.Progress.Sends.{AtMost}
use claw.Relay.Progress.Waits.{NotFuel, sized, pending, Adds, Keeps-Adds, length-push}
use claw.Relay.Receive.{
  Verdict, stop, go_on, receive, pending_loop, recv_loop, after_verdict, unwrap_accepted_frame,
}
use claw.Relay.Rules.{Outcome}
use claw.Relay.State.{Relay, Env, Queued, Schedule, Result, ok, err, Run, pure}
use claw.Serial.Frame.{Frame}

-- One more pending frame where the loop ends, and as many as before where it goes on.
abbrev Steady : Relay → Verdict (Unit {0}) × Relay → Type 0
Steady r (stop x, r') =
    (pending r' ≤ pending r + 1)
    × (r'.text_out_queue ≡ r.text_out_queue)
    × Outcome (AtMost 0) NotFuel (λ _. Unit) x
Steady r (go_on, r') = (pending r' ≡ pending r) × (r'.text_out_queue ≡ r.text_out_queue)

abbrev SteadyRound : Relay → Bool × List Bytes × Relay → Type 0
SteadyRound r (true, payloads, r') = pending r' ≡ pending r
SteadyRound r (false, payloads, r') = pending r' ≤ pending r + 1

pub kept-system : (p : Bytes) (r : Relay) → sized (kept (handle_system_frame p r)) ≡ sized (kept r)
unfolding handle_system_frame
kept-system p r = ground arith

module _ (env : Env) (q : Queued) (r : Relay) where
  user_body-Steady : Steady r (drain_user_body env q r)
  unfolding drain_user_body
  user_body-Steady =
      let a = unwrap_accepted_frame env q r in
      ground (
        arith,
        ap sized (kept-unwrap env q r),
        kept-system a.frame.payload a.relay,
        length-push a.relay.pending_frames (record { frame = a.frame; accepted = true }),
      )

  llm_body-Steady : (payloads : List Bytes) → SteadyRound r (drain_llm_body env q payloads r)
  unfolding drain_llm_body
  llm_body-Steady payloads =
      let a = unwrap_accepted_frame env q r in
      ground (
        arith,
        ap sized (kept-unwrap env q r),
        kept-system a.frame.payload a.relay,
        length-push a.relay.pending_frames (record { frame = a.frame; accepted = true }),
      )

Steady-Adds : (r : Relay) (v : Verdict (Unit {0}) × Relay) → Steady r v → Adds r v
Steady-Adds r (stop (ok x), r') h = (h.0, h.1, tt)
Steady-Adds r (stop (err e), r') h = (h.0, h.1, h.2)
Steady-Adds r (go_on, r') h = (omega arith, h.1)

module _ (env : Env) (n : ℕ) where
  after_verdict-Leaves :
      (r : Relay) (v : Verdict (Unit {0}) × Relay) (sch : Schedule) (k : Relay → Run (Unit {0}))
      → Steady r v
      → 2 * length sch + (pending r + 1) ≤ n
      → ((r' : Relay) → pending r' ≡ pending r → Leaves n (k r'))
      → Leaves n (after_verdict v sch k)
  after_verdict-Leaves r (stop (ok x), r') sch k s l h = (omega arith, tt)
  after_verdict-Leaves r (stop (err e), r') sch k s l h = (omega arith, s.2)
  after_verdict-Leaves r (go_on, r') sch k s l h = h r' s.0

  user_socket-Never :
      Never n
        (recv_loop env false (λ f. drain_user_body env (record { frame = f; accepted = false })))
  user_socket-Never = any_text n env (λ text.
      Keeps-Adds env n text false _
        (λ f r. Steady-Adds r _ (user_body-Steady env (record { frame = f; accepted = false }) r)))

  pending_loop-Leaves :
      (qs : List Queued) (sch : Schedule) (r : Relay)
      → pending r ≡ length qs
      → 2 * length sch + length qs ≤ n
      → Leaves n (pending_loop env (drain_user_body env) qs sch r)
  unfolding pending_loop
  pending_loop-Leaves [] sch r e l = user_socket-Never.ends sch r (omega arith)
  pending_loop-Leaves (q ∷ qs) sch r e l =
      after_verdict-Leaves (record r { pending_frames = qs })
        (drain_user_body env q (record r { pending_frames = qs })) sch
        (pending_loop env (drain_user_body env) qs sch)
        (user_body-Steady env q (record r { pending_frames = qs })) (omega arith)
        (λ r' e'. pending_loop-Leaves qs sch r' e' (omega arith))

  pub drain_user-Never : Never n (drain_trailing_after_user_text env)
  unfolding drain_trailing_after_user_text pure
  drain_user-Never = record {
    ends = λ sch r i. ((pending_loop-Leaves r.pending_frames sch r refl i).0, tt);
  }

  after_round-Leaves :
      (r : Relay) (v : Bool × List Bytes × Relay) (sch : Schedule)
      (k : List Bytes → Relay → Run (List Bytes))
      → SteadyRound r v
      → 2 * length sch + (pending r + 1) ≤ n
      → ((payloads : List Bytes) (r' : Relay) → pending r' ≡ pending r → Leaves n (k payloads r'))
      → Leaves n (after_round v sch k)
  unfolding pure
  after_round-Leaves r (true, payloads, r') sch k s l h = h payloads r' s
  after_round-Leaves r (false, payloads, r') sch k s l h = (omega arith, tt)

  or_payloads-Leaves :
      (x : Result Frame × Relay) (payloads : List Bytes) (sch : Schedule)
      (k : Frame → Relay → Run (List Bytes))
      → AtMost n sch x.1
      → ((f : Frame) → Leaves n (k f x.1))
      → Leaves n (or_payloads x payloads sch k)
  unfolding pure
  or_payloads-Leaves (ok f, r) payloads sch k i h = h f
  or_payloads-Leaves (err e, r) payloads sch k i h = (i, tt)

  llm_socket-Leaves :
      (sch : Schedule) (payloads : List Bytes) (r : Relay)
      → AtMost n sch r
      → Leaves n (drain_llm_socket env sch payloads r)
  unfolding drain_llm_socket pure
  llm_socket-Leaves [] payloads r i = (i, tt)
  llm_socket-Leaves (a ∷ sch) payloads r i =
      let e = ap length (ap (λ p. p.0) (kept-receive env false a r)) in
      let got = (receive env false a r).1 in
      or_payloads-Leaves (receive env false a r) payloads sch _ (omega arith) (λ f.
        after_round-Leaves got
          (drain_llm_body env (record { frame = f; accepted = false }) payloads got) sch
          (drain_llm_socket env sch)
          (llm_body-Steady env (record { frame = f; accepted = false }) got payloads) (omega arith)
          (λ payloads' r' e'. llm_socket-Leaves sch payloads' r' (omega arith)))

  llm_pending-Leaves :
      (qs : List Queued) (sch : Schedule) (payloads : List Bytes) (r : Relay)
      → pending r ≡ length qs
      → 2 * length sch + length qs ≤ n
      → Leaves n (drain_llm_pending env qs sch payloads r)
  unfolding drain_llm_pending
  llm_pending-Leaves [] sch payloads r e l = llm_socket-Leaves sch payloads r (omega arith)
  llm_pending-Leaves (q ∷ qs) sch payloads r e l =
      after_round-Leaves (record r { pending_frames = qs })
        (drain_llm_body env q payloads (record r { pending_frames = qs })) sch
        (drain_llm_pending env qs sch)
        (llm_body-Steady env q (record r { pending_frames = qs }) payloads) (omega arith)
        (λ payloads' r' e'. llm_pending-Leaves qs sch payloads' r' e' (omega arith))

  pub drain_llm-Never : Never n (drain_trailing_llm_messages env)
  unfolding drain_trailing_llm_messages
  drain_llm-Never = record { ends = λ sch r i. llm_pending-Leaves r.pending_frames sch [] r refl i }
