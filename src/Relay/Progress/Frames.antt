-- ===== src/Relay/Progress/Frames.antt =====
-- The text sender and the dispatch of the LLM's answers: each ends, and leaves no more to come.
use claw.Prelude.{
  ℕ, zero, suc, ◌<◌, Bool, true, false, not, ◌&&◌, [], ◌∷◌, ◌≡◌, refl, arith, length, drop,
  length-drop, subst, Bytes, if◌then◌else◌,
}
use claw.Relay.Deliver.{
  not_empty, text_chunk_max, send_front_chunk, send_text_from, send_next_text_chunk,
}
use claw.Relay.Progress.Sends.{Costs, AtMost, Shorter, front_chunk-Shorter}
use claw.Relay.Progress.Waits.{NotFuel, Within, drain_before_text-Keeps}
use claw.Relay.Rules.{Ends, Outcome, Keeps, Keeps-bind, Keeps-then, Keeps-pure, Keeps-modify}
use claw.Relay.State.{
  Relay, Env, Schedule, Result, ok, err, Run, M, pure, fail, bind_result, ◌>>=◌, ◌>>◌, modify,
}
use claw.Relay.Wait.{drain_c64_outbound_before_text}

-- The run leaves no more to come than `n`, and its fuel has been enough.
abbrev pub Leaves : {A : Type 0} → ℕ → Run A → Type 0
Leaves n s = Ends (AtMost n) NotFuel (λ _. Unit) s

abbrev pub Never : {A : Type 0} → ℕ → M A → Type 0
Never n m = Keeps (AtMost n) NotFuel (λ _. Unit) m

module _ (n : ℕ) where
  pub bind-Never :
      {A B : Type 0} {m : M A} {f : A → M B}
      → Never n m
      → ((a : A) → Never n (f a))
      → Never n (m >>= f)
  bind-Never k h = Keeps-bind (AtMost n) NotFuel (λ _. Unit) k (λ a _. h a)

  pub then-Never :
      {B : Type 0} {m : M (Unit {0})} {k : M B} → Never n m → Never n k → Never n (m >> k)
  then-Never hm hk = Keeps-then (AtMost n) NotFuel hm hk

  pub pure-Never : {A : Type 0} (a : A) → Never n (pure a)
  pure-Never a = Keeps-pure (AtMost n) NotFuel a tt

  pub modify-Never :
      (f : Relay → Relay)
      → ((r : Relay) → length (f r).pending_frames ≡ length r.pending_frames)
      → Never n (modify f)
  modify-Never f h = Keeps-modify (AtMost n) NotFuel f (λ sch r i. still sch r (h r) i)
    where
      still :
          (sch : Schedule) (r : Relay)
          → length (f r).pending_frames ≡ length r.pending_frames
          → AtMost n sch r
          → AtMost n sch (f r)
      still sch r e i = omega arith

  -- What keeps the cost with any outgoing text keeps the cost.
  pub any_text :
      {A : Type 0} (env : Env) {m : M A} → ((text : Bytes) → Costs env n text m) → Never n m
  any_text env h = record {
    ends = λ sch r i. let e = (h r.text_out_queue).ends sch r (i, refl) in (e.0.0, e.1);
  }

  after_drain :
      (text : Bytes) (x : Result (Unit {0})) (sch : Schedule) (r : Relay) (k : M (Unit {0}))
      → Within n text sch r
      → Outcome (Within n text) NotFuel (λ _. Unit) x
      → ((sch' : Schedule) (r' : Relay) → Within n text sch' r' → Leaves n (k sch' r'))
      → Leaves n (bind_result x (λ _. k) sch r)
  after_drain text (ok a) sch r k i o h = h sch r i
  after_drain text (err e) sch r k i o h = (i.0, o)

module _ (env : Env) (n : ℕ) where
  after_front :
      (text : Bytes) (x : Result (Unit {0})) (sch : Schedule) (r : Relay) (k : M (Unit {0}))
      → Shorter env n text x sch r
      → ((sch' : Schedule) (r' : Relay)
          → Within n (drop text_chunk_max text) sch' r'
          → Leaves n (k sch' r'))
      → Leaves n (bind_result x (λ _. k) sch r)
  after_front text (ok a) sch r k s h = h sch r s
  after_front text (err e) sch r k s h = s

  front_then :
      (k : M (Unit {0})) (text : Bytes) (sch : Schedule) (r : Relay)
      → Within n text sch r
      → ((sch' : Schedule) (r' : Relay)
          → Within n (drop text_chunk_max text) sch' r'
          → Leaves n (k sch' r'))
      → Leaves n ((send_front_chunk env >> k) sch r)
  unfolding ◌>>◌
  front_then k text sch r i h =
      after_front text (send_front_chunk env sch r).result _ _ k
        (subst (λ t. let s = send_front_chunk env sch r in Shorter env n t s.result s.left s.relay)
          i.1 (front_chunk-Shorter env n sch r i.0))
        h

  drain_then :
      (k : M (Unit {0})) (text : Bytes) (sch : Schedule) (r : Relay)
      → Within n text sch r
      → ((sch' : Schedule) (r' : Relay) → Within n text sch' r' → Leaves n (k sch' r'))
      → Leaves n ((drain_c64_outbound_before_text env >> k) sch r)
  unfolding ◌>>◌
  drain_then k text sch r i h =
      let d = (drain_before_text-Keeps env n text).ends sch r i in
      after_drain n text (drain_c64_outbound_before_text env sch r).result _ _ k d.0 d.1 h

  Leaves-if :
      (b : Bool) (s t : Run (Unit {0}))
      → (b ≡ true → Leaves n s)
      → Leaves n t
      → Leaves n (if b then s else t)
  Leaves-if true s t hs ht = hs refl
  Leaves-if false s t hs ht = ht

  shrinks :
      (text queue : Bytes) (b : Bool) (fuel : ℕ)
      → (not_empty queue && b) ≡ true
      → queue ≡ text
      → length text < suc fuel
      → length (drop text_chunk_max text) < fuel
  shrinks [] queue b fuel e q h = ground (arith, e, q)
  shrinks (c ∷ cs) queue b fuel e q h = omega (arith, length-drop text_chunk_max (c ∷ cs))

  pub text_from-Leaves :
      (fuel : ℕ) (text : Bytes) (sch : Schedule) (r : Relay)
      → Within n text sch r
      → length text < fuel
      → Leaves n (send_text_from env fuel sch r)
  unfolding send_text_from pure fail
  text_from-Leaves zero text sch r i h = omega arith
  text_from-Leaves (suc fuel) text sch r i h =
      Leaves-if (not_empty r.text_out_queue && not r.completion_drain)
        ((drain_c64_outbound_before_text env >> (send_front_chunk env >> send_text_from env fuel))
          sch r)
        (pure tt sch r)
        (λ e.
          drain_then (send_front_chunk env >> send_text_from env fuel) text sch r i (λ sch' r' w.
            front_then (send_text_from env fuel) text sch' r' w (λ sch'' r'' v.
              text_from-Leaves fuel (drop text_chunk_max text) sch'' r'' v
                (shrinks text r.text_out_queue (not r.completion_drain) fuel e i.1 h))))
        (i.0, tt)

  pub send_next_text_chunk-Never : Never n (send_next_text_chunk env)
  unfolding send_next_text_chunk
  send_next_text_chunk-Never = record {
    ends = λ sch r i.
        text_from-Leaves (suc (length r.text_out_queue)) r.text_out_queue sch r (i, refl)
          (omega arith);
  }
