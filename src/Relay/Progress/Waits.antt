-- ===== src/Relay/Progress/Waits.antt =====
-- The wait loops: an arrival makes at most one frame pending.
use claw.Prelude.{
  ℕ, ◌+◌, ◌*◌, ◌≤◌, Bool, true, false, Option, none, some, List, [], ◌∷◌, ◌++◌, ◌≡◌, refl, ap,
  arith, length, length-append, Bytes,
}
use claw.Relay.Accept.{accept_c64_frame, accept_c64_frame_queued, remember_late_ack}
use claw.Relay.Progress.Pending.{kept, kept-consume_late_ack, kept-flush, kept-receive, kept-accept}
use claw.Relay.Receive.{Verdict, stop, go_on, receive, recv_loop}
use claw.Relay.Rules.{
  Outcome, Keeps, Round, Receives, Keeps-recv_loop, Keeps-catch, Keeps-pure, Keeps-fail,
}
use claw.Relay.State.{
  Relay, Env, Queued, Name, Schedule, Arrival, ended, expires, fails, arrives, deadline_exceeded,
  cancelled, Error, context_error, out_of_fuel, M,
}
use claw.Relay.Wait.{
  forget_late, push_pending, ack_id_body, wait_for_ack_id, ack_or_semantic_body,
  wait_for_ack_or_semantic, status_body, wait_for_status_semantic, drain_body, ok_at_deadline,
  drain_c64_outbound_before_text,
}
use claw.Serial.Frame.{Frame, extract_ack_id}

-- Every error but the end of the fuel.
abbrev pub NotFuel : Error → Type 0
NotFuel out_of_fuel = ⊥
NotFuel _ = Unit

-- What the rounds to come may cost: two for an arrival, one for a pending frame.
abbrev pub cost : Schedule → Relay → ℕ
cost sch r = 2 * length sch + length r.pending_frames

-- The cost is within `n`, and the outgoing text is `text`.
abbrev pub Within : ℕ → Bytes → Schedule → Relay → Type 0
Within n text sch r = (cost sch r ≤ n) × (r.text_out_queue ≡ text)

pub length-push : (qs : List Queued) (q : Queued) → length (qs ++ (q ∷ [])) ≡ length qs + 1
length-push qs q = length-append qs (q ∷ [])

abbrev pub pending : Relay → ℕ
pending r = length r.pending_frames

-- The parts of a relay that its cost and text stand for.
abbrev pub sized : List Queued × Bytes → ℕ × Bytes
sized (qs, text) = (length qs, text)

-- A verdict that adds at most one pending frame and leaves the text, and whose error is not the end
-- of the fuel.
abbrev pub Adds : {A : Type 0} → Relay → Verdict A × Relay → Type 0
Adds r (stop x, r') =
    (pending r' ≤ pending r + 1)
    × (r'.text_out_queue ≡ r.text_out_queue)
    × Outcome (Within 0 []) NotFuel (λ _. Unit) x
Adds r (go_on, r') = (pending r' ≤ pending r + 1) × (r'.text_out_queue ≡ r.text_out_queue)

kept-forget_late : (o : Option ℕ) (r : Relay) → kept (forget_late o r) ≡ kept r
kept-forget_late none r = refl
kept-forget_late (some id) r = kept-consume_late_ack id r

module _ (env : Env) (f : Frame) (r : Relay) where
  kept-queued : sized (kept (accept_c64_frame_queued env f r).relay) ≡ sized (kept r)
  kept-queued = ap sized (kept-accept env false f r)

  ack_id_body-Adds : (id : ℕ) (wait : Bool) → Adds r (ack_id_body env id wait f r)
  unfolding ack_id_body remember_late_ack
  ack_id_body-Adds id wait = ground (
    arith,
    ap sized (kept-forget_late (extract_ack_id f.payload) r),
    kept-queued,
    ap sized (kept-accept env true f r),
    length-push (accept_c64_frame_queued env f r).relay.pending_frames
        (record { frame = (accept_c64_frame_queued env f r).frame; accepted = true }),
    length-push (accept_c64_frame env f r).relay.pending_frames
        (record { frame = (accept_c64_frame env f r).frame; accepted = true }),
  )

  ack_or_semantic_body-Adds : (id : ℕ) (name : Name) → Adds r (ack_or_semantic_body env id name f r)
  unfolding ack_or_semantic_body remember_late_ack
  ack_or_semantic_body-Adds id name =
      let a = accept_c64_frame_queued env f r in
      let later = push_pending a.frame a.relay in
      ground (
        arith,
        ap sized (kept-forget_late (extract_ack_id f.payload) r),
        kept-queued,
        ap sized (kept-flush env (remember_late_ack id a.relay)),
        ap sized (kept-flush env (remember_late_ack id later)),
        length-push a.relay.pending_frames (record { frame = a.frame; accepted = true }),
      )

  status_body-Adds : Adds r (status_body env f r)
  unfolding status_body
  status_body-Adds =
      let a = accept_c64_frame_queued env f r in
      ground (
        arith,
        kept-queued,
        length-push a.relay.pending_frames (record { frame = a.frame; accepted = true }),
      )

  drain_body-Adds : Adds r (drain_body env f r)
  unfolding drain_body
  drain_body-Adds =
      let a = accept_c64_frame_queued env f r in
      ground (arith, kept-queued, ap sized (kept-flush env a.relay))

module _ (env : Env) (n : ℕ) (text : Bytes) where
  abbrev pub KeepsCost : {A : Type 0} → M A → Type 0
  KeepsCost m = Keeps (Within n text) NotFuel (λ _. Unit) m

  pub receive-Within : (wait : Bool) → Receives (Within n text) NotFuel env wait
  unfolding receive
  receive-Within wait a sch r i = (still (ap sized (kept-receive env wait a r)) i, no_fuel a)
    where
      still :
          sized (kept (receive env wait a r).1) ≡ sized (kept r)
          → Within n text (a ∷ sch) r
          → Within n text sch (receive env wait a r).1
      still e w = ground arith

      no_fuel :
          (a : Arrival)
          → Outcome (Within n text) NotFuel {A = Frame} (λ _. Unit) (receive env wait a r).0
      no_fuel (ended k) = tt
      no_fuel (expires dt k) = tt
      no_fuel (fails dt) = tt
      no_fuel (arrives dt f) = tt

  Adds-Round :
      {A : Type 0} (a : Arrival) (sch : Schedule) (r r' : Relay) (v : Verdict A × Relay)
      → Within n text (a ∷ sch) r
      → sized (kept r') ≡ sized (kept r)
      → Adds r' v
      → Round (Within n text) NotFuel (λ _. Unit) sch v
  Adds-Round a sch r r' (stop x, s) i same p = (ground arith, p.2)
  Adds-Round a sch r r' (go_on, s) i same p = ground arith

  pub Keeps-Adds :
      {A : Type 0} (wait : Bool) (body : Frame → Relay → Verdict A × Relay)
      → ((f : Frame) (r : Relay) → Adds r (body f r))
      → KeepsCost (recv_loop env wait body)
  Keeps-Adds wait body h =
      Keeps-recv_loop (Within n text) NotFuel env wait body tt (receive-Within wait)
        (λ a sch r f i e.
          Adds-Round a sch r (receive env wait a r).1 (body f (receive env wait a r).1) i
            (ap sized (kept-receive env wait a r)) (h f (receive env wait a r).1))

  pub wait_for_ack_id-Keeps : (id : ℕ) (wait : Bool) → KeepsCost (wait_for_ack_id env id wait)
  unfolding wait_for_ack_id
  wait_for_ack_id-Keeps id wait = Keeps-Adds wait _ (λ f r. ack_id_body-Adds env f r id wait)

  pub wait_for_ack_or_semantic-Keeps :
      (id : ℕ) (name : Name) → KeepsCost (wait_for_ack_or_semantic env id name)
  unfolding wait_for_ack_or_semantic
  wait_for_ack_or_semantic-Keeps id name =
      Keeps-Adds false _ (λ f r. ack_or_semantic_body-Adds env f r id name)

  pub wait_for_status_semantic-Keeps : KeepsCost (wait_for_status_semantic env)
  unfolding wait_for_status_semantic
  wait_for_status_semantic-Keeps = Keeps-Adds false _ (status_body-Adds env)

  pub ok_at_deadline-Keeps : (e : Error) → NotFuel e → KeepsCost (ok_at_deadline e)
  ok_at_deadline-Keeps (context_error deadline_exceeded) h =
      Keeps-pure (Within n text) NotFuel tt tt
  ok_at_deadline-Keeps (context_error cancelled) h =
      Keeps-fail (Within n text) NotFuel (context_error cancelled) tt
  ok_at_deadline-Keeps out_of_fuel h = elim h [ ]
  ok_at_deadline-Keeps e h = Keeps-fail (Within n text) NotFuel e h

  pub drain_before_text-Keeps : KeepsCost (drain_c64_outbound_before_text env)
  unfolding drain_c64_outbound_before_text
  drain_before_text-Keeps =
      Keeps-catch (Within n text) NotFuel (λ _. Unit) (Keeps-Adds false _ (drain_body-Adds env))
        (λ a v. Keeps-pure (Within n text) NotFuel a tt) ok_at_deadline-Keeps
