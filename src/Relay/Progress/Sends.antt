-- ===== src/Relay/Progress/Sends.antt =====
-- The senders: none makes the rounds to come cost more, and the text sender ends.
use claw.Prelude.{ℕ, ◌≤◌, Bool, true, false, List, [], ◌∷◌, ◌≡◌, refl, ap, arith, drop, Bytes}
use claw.Relay.Accept.{link_send, settle_pending_acks}
use claw.Relay.Deliver.{
  send_bridge_frame, sent_or_error, take_id, send_new_reliable_bridge_frame, resend_unless_first,
  sleep_between, verify_loop, send_verified, send_text_chunk, send_verified_or_semantic_with,
  must_confirm, probe_loop, send_status_probe, start_tool_wait, send_exec, send_front_chunk,
  text_chunk_max,
}
use claw.Relay.Progress.Pending.{kept, kept-settle}
use claw.Relay.Progress.Waits.{
  NotFuel, cost, Within, sized, wait_for_ack_id-Keeps, wait_for_ack_or_semantic-Keeps,
  wait_for_status_semantic-Keeps, drain_before_text-Keeps,
}
use claw.Relay.Rules.{
  Ends, Outcome, Keeps-bind, Keeps-then, Keeps-catch, Keeps-pure, Keeps-fail, Keeps-modify, Keeps,
}
use claw.Relay.State.{
  Relay, Env, Name, Schedule, Error, Result, Run, ok, err, M, pure, fail, modify, catch,
  not_verified, ◌>>=◌, ◌>>◌,
}
use claw.Serial.Frame.{Frame}

module _ (env : Env) (n : ℕ) (text : Bytes) where
  abbrev pub Costs : {A : Type 0} → M A → Type 0
  Costs = Keeps (Within n text) NotFuel (λ _. Unit)

  pub bind-Costs :
      {A B : Type 0} {m : M A} {f : A → M B} → Costs m → ((a : A) → Costs (f a)) → Costs (m >>= f)
  bind-Costs k h = Keeps-bind (Within n text) NotFuel (λ _. Unit) k (λ a _. h a)

  pub then-Costs : {B : Type 0} {m : M (Unit {0})} {k : M B} → Costs m → Costs k → Costs (m >> k)
  then-Costs hm hk = Keeps-then (Within n text) NotFuel hm hk

  pub catch-Costs :
      {A B : Type 0} {m : M A} {f : A → M B} {g : Error → M B}
      → Costs m
      → ((a : A) → Costs (f a))
      → ((e : Error) → NotFuel e → Costs (g e))
      → Costs (catch m f g)
  catch-Costs k hf hg = Keeps-catch (Within n text) NotFuel (λ _. Unit) k (λ a _. hf a) hg

  pub pure-Costs : {A : Type 0} (a : A) → Costs (pure a)
  pure-Costs a = Keeps-pure (Within n text) NotFuel a tt

  pub modify-Costs : (f : Relay → Relay) → ((r : Relay) → kept (f r) ≡ kept r) → Costs (modify f)
  modify-Costs f h =
      Keeps-modify (Within n text) NotFuel f (λ sch r i. still sch r (ap sized (h r)) i)
    where
      still :
          (sch : Schedule) (r : Relay)
          → sized (kept (f r)) ≡ sized (kept r)
          → Within n text sch r
          → Within n text sch (f r)
      still sch r e w = ground arith

  sent-Within :
      (f : Frame) (sch : Schedule) (r : Relay)
      → sized (kept (settle_pending_acks env r)) ≡ sized (kept r)
      → Within n text sch r
      → Within n text sch (link_send env f (settle_pending_acks env r)).0
  unfolding link_send
  sent-Within f sch r e w = ground arith

  sent_or_error-Ends :
      (b : Bool) (sch : Schedule) (r : Relay)
      → Within n text sch r
      → Ends (Within n text) NotFuel (λ _. Unit) (sent_or_error env b sch r)
  unfolding pure fail
  sent_or_error-Ends true sch r i = (i, tt)
  sent_or_error-Ends false sch r i = (i, tt)

  send_bridge_frame-Costs : (f : Frame) → Costs (send_bridge_frame env f)
  unfolding send_bridge_frame
  send_bridge_frame-Costs f = record {
    ends = λ sch r i.
        sent_or_error-Ends (link_send env f (settle_pending_acks env r)).1 sch
          (link_send env f (settle_pending_acks env r)).0
          (sent-Within f sch r (ap sized (kept-settle env r)) i);
  }

  take_id-Costs : Costs (take_id env)
  unfolding take_id pure
  take_id-Costs = record { ends = λ sch r i. (i, tt) }

  send_new-Costs : (f : Frame) → Costs (send_new_reliable_bridge_frame env f)
  unfolding send_new_reliable_bridge_frame
  send_new-Costs f =
      bind-Costs take_id-Costs (λ id. then-Costs (send_bridge_frame-Costs _) (pure-Costs _))

  sleep_between-Costs : (d : ℕ) (more : List ℕ) → Costs (modify (sleep_between d more))
  sleep_between-Costs d [] = modify-Costs (sleep_between d []) (λ r. refl)
  sleep_between-Costs d (e ∷ more) = modify-Costs (sleep_between d (e ∷ more)) (λ r. refl)

  resend-Costs : (first : Bool) (f : Frame) → Costs (resend_unless_first env first f)
  resend-Costs true f = pure-Costs tt
  resend-Costs false f = send_bridge_frame-Costs f

  verify_loop-Costs :
      {A : Type 0} (delays : List ℕ) (first : Bool) (f : Frame) (name : Name) (wait : M A)
      → Costs wait
      → Costs (verify_loop env delays first f name wait)
  unfolding verify_loop
  verify_loop-Costs [] first f name wait h =
      Keeps-fail (Within n text) NotFuel (not_verified name) tt
  verify_loop-Costs (d ∷ more) first f name wait h = then-Costs (resend-Costs first f) (
      catch-Costs h (λ _. pure-Costs tt)
        (λ e _.
          then-Costs (sleep_between-Costs d more) (verify_loop-Costs more false f name wait h)))

  pub send_verified-Costs : (f : Frame) (name : Name) → Costs (send_verified env f name)
  unfolding send_verified
  send_verified-Costs f name =
      bind-Costs (send_new-Costs f)
        (λ p. verify_loop-Costs _ true p.1 name _ (wait_for_ack_id-Keeps env n text p.0 false))

  send_text_chunk-Costs : (chunk : Bytes) → Costs (send_text_chunk env chunk)
  unfolding send_text_chunk
  send_text_chunk-Costs chunk =
      bind-Costs (send_new-Costs _)
        (λ p. verify_loop-Costs _ true p.1 Name.text _ (wait_for_ack_id-Keeps env n text p.0 true))

  must_confirm-Costs : (name : Name) (b : Bool) → Costs (must_confirm env name b)
  must_confirm-Costs name true = pure-Costs tt
  must_confirm-Costs name false = Keeps-fail (Within n text) NotFuel (not_verified name) tt

  pub send_verified_or_semantic-Costs :
      (f : Frame) (name : Name) (delays : List ℕ)
      → Costs (send_verified_or_semantic_with env f name delays)
  unfolding send_verified_or_semantic_with
  send_verified_or_semantic-Costs f name delays = bind-Costs (send_new-Costs f) (λ p.
      verify_loop-Costs delays true p.1 name _
        (bind-Costs (wait_for_ack_or_semantic-Keeps env n text p.0 name) (must_confirm-Costs name)))

  probe_loop-Costs :
      (delays : List ℕ) (f : Frame) (wait : M (Unit {0})) (final : Error → Error) (last : Error)
      → Costs wait
      → ((e : Error) → NotFuel (final e))
      → Costs (probe_loop env delays f wait final last)
  unfolding probe_loop
  probe_loop-Costs [] f wait final last h k =
      Keeps-fail (Within n text) NotFuel (final last) (k last)
  probe_loop-Costs (d ∷ more) f wait final last h k = then-Costs (send_bridge_frame-Costs f) (
      catch-Costs h (λ a. pure-Costs a)
        (λ e _. then-Costs (sleep_between-Costs d more) (probe_loop-Costs more f wait final e h k)))

  pub send_status_probe-Costs : Costs (send_status_probe env)
  unfolding send_status_probe
  send_status_probe-Costs =
      probe_loop-Costs _ _ _ _ _ (wait_for_status_semantic-Keeps env n text) (λ e. tt)

  pub start_tool_wait-Costs : (cmd : Bytes) → Costs (modify (start_tool_wait cmd))
  start_tool_wait-Costs cmd = modify-Costs (start_tool_wait cmd) (λ r. refl)

  pub send_exec-Costs : (cmd : Bytes) → Costs (send_exec env cmd)
  unfolding send_exec
  send_exec-Costs cmd =
      then-Costs (drain_before_text-Keeps env n text)
        (then-Costs (send_verified_or_semantic-Costs _ Name.exec _) (start_tool_wait-Costs cmd))

abbrev pub cost_of : Run (Unit {0}) → ℕ
cost_of s = cost s.left s.relay

-- The cost alone, with no word on the outgoing text.
abbrev pub AtMost : ℕ → Schedule → Relay → Type 0
AtMost n sch r = cost sch r ≤ n

module _ (env : Env) (n : ℕ) where
  -- A chunk is gone from the outgoing text, unless there was an error.
  abbrev pub Shorter : Bytes → Result (Unit {0}) → Schedule → Relay → Type 0
  Shorter text (ok a) sch r = Within n (drop text_chunk_max text) sch r
  Shorter text (err e) sch r = AtMost n sch r × NotFuel e

  Shorter-Ends :
      (text : Bytes) (x : Result (Unit {0})) (sch : Schedule) (r : Relay)
      → Within n (drop text_chunk_max text) sch r
      → Outcome (Within n (drop text_chunk_max text)) NotFuel (λ _. Unit) x
      → Shorter text x sch r
  Shorter-Ends text (ok a) sch r i o = i
  Shorter-Ends text (err e) sch r i o = (i.0, o)

  pub front_chunk-Shorter :
      (sch : Schedule) (r : Relay)
      → cost sch r ≤ n
      → let s = send_front_chunk env sch r in Shorter r.text_out_queue s.result s.left s.relay
  unfolding send_front_chunk
  front_chunk-Shorter sch r i =
      let text = drop text_chunk_max r.text_out_queue in
      let e =
        (then-Costs env n text (send_text_chunk-Costs env n text _)
            (modify-Costs env n text (λ s. record s { text_in_flight = [] }) (λ s. refl))).ends
          sch _ (i, refl) in
      Shorter-Ends r.text_out_queue _ _ _ e.0 e.1
