-- ===== src/Relay/Rules.antt =====
-- An invariant over the schedule that is left and the relay, and the rules by which runs keep it.
use claw.Prelude.{Bool, refl, [], ◌∷◌, ◌≡◌}
use claw.Relay.Receive.{
  Verdict, stop, go_on, receive, recv_from_socket_only, recv_loop, after_got, after_verdict,
}
use claw.Relay.State.{
  Relay, Env, Schedule, Arrival, Error, context_error, cancelled, Result, ok, err, Run, M, pure,
  fail, bind_result, ◌>>=◌, ◌>>◌, catch, catch_result, modify, state,
}
use claw.Serial.Frame.{Frame}

-- The invariant `I`, and the errors that may be returned.
module _ (I : Schedule → Relay → Type 0) (E : Error → Type 0) where
  -- A value that `V` holds of, or an error that is allowed.
  abbrev pub Outcome : {A : Type 0} → (A → Type 0) → Result A → Type 0
  Outcome V (ok a) = V a
  Outcome V (err e) = E e

  abbrev pub Ends : {A : Type 0} → (A → Type 0) → Run A → Type 0
  Ends V s = I s.left s.relay × Outcome V s.result

  abbrev pub Any : {A : Type 0} → A → Type 0
  Any a = Unit

  -- From any state that satisfies the invariant.
  pub record Keeps {A : Type 0} (V : A → Type 0) (m : M A) : Type 0 where
    pub ends : (sch : Schedule) (r : Relay) → I sch r → Ends V (m sch r)

  pub Keeps-pure : {A : Type 0} {V : A → Type 0} (a : A) → V a → Keeps V (pure a)
  unfolding pure
  Keeps-pure a v = record { ends = λ sch r i. (i, v) }

  pub Keeps-fail : {A : Type 0} {V : A → Type 0} (e : Error) → E e → Keeps V (fail e)
  unfolding fail
  Keeps-fail e h = record { ends = λ sch r i. (i, h) }

  pub Keeps-modify :
      (f : Relay → Relay)
      → ((sch : Schedule) (r : Relay) → I sch r → I sch (f r))
      → Keeps Any (modify f)
  unfolding modify
  Keeps-modify f h = record { ends = λ sch r i. (h sch r i, tt) }

  pub Keeps-state : Keeps Any state
  unfolding state
  Keeps-state = record { ends = λ sch r i. (i, tt) }

  Ends-bind :
      {A B : Type 0} (V : A → Type 0) (W : B → Type 0) (x : Result A) (f : A → M B) (sch : Schedule)
      (r : Relay)
      → I sch r
      → Outcome V x
      → ((a : A) → V a → Keeps W (f a))
      → Ends W (bind_result x f sch r)
  Ends-bind V W (ok a) f sch r i v h = (h a v).ends sch r i
  Ends-bind V W (err e) f sch r i v h = (i, v)

  pub Keeps-bind :
      {A B : Type 0} (V : A → Type 0) {W : B → Type 0} {m : M A} {f : A → M B}
      → Keeps V m
      → ((a : A) → V a → Keeps W (f a))
      → Keeps W (m >>= f)
  unfolding ◌>>=◌
  Keeps-bind V {W} {m} {f} k h = record {
    ends = λ sch r i. Ends-bind V W (m sch r).result f _ _ (k.ends sch r i).0 (k.ends sch r i).1 h;
  }

  pub Keeps-then :
      {B : Type 0} {W : B → Type 0} {m : M (Unit {0})} {k : M B}
      → Keeps Any m
      → Keeps W k
      → Keeps W (m >> k)
  unfolding ◌>>◌
  Keeps-then {W} {m} {k} hm hk = record {
    ends = λ sch r i.
        Ends-bind Any W (m sch r).result (λ _. k) _ _ (hm.ends sch r i).0 (hm.ends sch r i).1
          (λ _ _. hk);
  }

  Ends-catch :
      {A B : Type 0} (V : A → Type 0) (W : B → Type 0) (x : Result A) (f : A → M B)
      (g : Error → M B) (sch : Schedule) (r : Relay)
      → I sch r
      → Outcome V x
      → ((a : A) → V a → Keeps W (f a))
      → ((e : Error) → E e → Keeps W (g e))
      → Ends W (catch_result x f g sch r)
  Ends-catch V W (ok a) f g sch r i v hf hg = (hf a v).ends sch r i
  Ends-catch V W (err e) f g sch r i v hf hg = (hg e v).ends sch r i

  pub Keeps-catch :
      {A B : Type 0} (V : A → Type 0) {W : B → Type 0} {m : M A} {f : A → M B} {g : Error → M B}
      → Keeps V m
      → ((a : A) → V a → Keeps W (f a))
      → ((e : Error) → E e → Keeps W (g e))
      → Keeps W (catch m f g)
  unfolding catch
  Keeps-catch V {W} {m} {f} {g} k hf hg = record {
    ends = λ sch r i.
        Ends-catch V W (m sch r).result f g _ _ (k.ends sch r i).0 (k.ends sch r i).1 hf hg;
  }

  -- What a round of a loop leaves.
  abbrev pub Round : {A : Type 0} → (A → Type 0) → Schedule → Verdict A × Relay → Type 0
  Round V sch (stop x, r) = I sch r × Outcome V x
  Round V sch (go_on, r) = I sch r

  -- What `receive` leaves.
  abbrev pub Receives : Env → Bool → Type 0
  Receives env wait =
      (a : Arrival) (sch : Schedule) (r : Relay)
      → I (a ∷ sch) r
      → I sch (receive env wait a r).1 × Outcome {A = Frame} Any (receive env wait a r).0

  -- What a loop's body leaves behind an arrival, where it gets a frame.
  abbrev pub Bodies :
      {A : Type 0} → (A → Type 0) → Env → Bool → (Frame → Relay → Verdict A × Relay) → Type 0
  Bodies V env wait body =
      (a : Arrival) (sch : Schedule) (r : Relay) (f : Frame)
      → I (a ∷ sch) r
      → (receive env wait a r).0 ≡ ok f
      → Round V sch (body f (receive env wait a r).1)

  Ends-verdict :
      {A : Type 0} (V : A → Type 0) (v : Verdict A × Relay) (sch : Schedule) (k : Relay → Run A)
      → Round V sch v
      → ((r : Relay) → I sch r → Ends V (k r))
      → Ends V (after_verdict v sch k)
  Ends-verdict V (stop x, r) sch k h g = h
  Ends-verdict V (go_on, r) sch k h g = g r h

  Ends-got :
      {A : Type 0} (V : A → Type 0) (x : Result Frame × Relay) (sch : Schedule)
      (k : Frame → Relay → Run A)
      → I sch x.1 × Outcome {A = Frame} Any x.0
      → ((f : Frame) → x.0 ≡ ok f → Ends V (k f x.1))
      → Ends V (after_got x sch k)
  unfolding fail
  Ends-got V (ok f, r) sch k h g = g f refl
  Ends-got V (err e, r) sch k h g = h

  Ends-recv_loop :
      {A : Type 0} (V : A → Type 0) (env : Env) (wait : Bool)
      (body : Frame → Relay → Verdict A × Relay)
      → E (context_error cancelled)
      → Receives env wait
      → Bodies V env wait body
      → (sch : Schedule) (r : Relay) → I sch r
      → Ends V (recv_loop env wait body sch r)
  unfolding recv_loop fail
  Ends-recv_loop V env wait body c got h [] r i = (i, c)
  Ends-recv_loop V env wait body c got h (a ∷ sch) r i =
      Ends-got V (receive env wait a r) sch _ (got a sch r i) (λ f e.
        Ends-verdict V (body f (receive env wait a r).1) sch (recv_loop env wait body sch)
          (h a sch r f i e) (Ends-recv_loop V env wait body c got h sch))

  pub Keeps-recv_loop :
      {A : Type 0} {V : A → Type 0} (env : Env) (wait : Bool)
      (body : Frame → Relay → Verdict A × Relay)
      → E (context_error cancelled)
      → Receives env wait
      → Bodies V env wait body
      → Keeps V (recv_loop env wait body)
  Keeps-recv_loop {V} env wait body c got h = record {
    ends = Ends-recv_loop V env wait body c got h;
  }

  Ends-recv_from_socket_only :
      (env : Env) (wait : Bool)
      → E (context_error cancelled)
      → Receives env wait
      → (sch : Schedule) (r : Relay) → I sch r
      → Ends Any (recv_from_socket_only env wait sch r)
  unfolding recv_from_socket_only fail pure
  Ends-recv_from_socket_only env wait c got [] r i = (i, c)
  Ends-recv_from_socket_only env wait c got (a ∷ sch) r i =
      Ends-got Any (receive env wait a r) sch _ (got a sch r i) (λ f e. ((got a sch r i).0, tt))

  pub Keeps-recv_from_socket_only :
      (env : Env) (wait : Bool)
      → E (context_error cancelled)
      → Receives env wait
      → Keeps Any (recv_from_socket_only env wait)
  Keeps-recv_from_socket_only env wait c got = record {
    ends = Ends-recv_from_socket_only env wait c got;
  }
