-- ===== src/Relay/Wait/Acks.antt =====
-- What ends `waitForAckID` and, for a command that wants a semantic reply, `waitForAckOrSemantic`.
use claw.Prelude.{
  ℕ, Bool, true, false, Option, none, some, ◌≡◌, ◌⊎◌, refl, arith, Bytes, Bool-cases, inl, inr,
  subst,
}
use claw.Relay.Accept.{accept_c64_frame_with, accept_stripped}
use claw.Relay.Receive.{receive}
use claw.Relay.Rules.{Outcome, Round, Keeps-recv_loop}
use claw.Relay.State.{Relay, Env, Schedule, Arrival, ended, expires, fails, arrives, Error, ok}
use claw.Relay.Wait.{ack_id_body, wait_for_ack_id, is_ack_of}
use claw.Serial.Frame.{Frame, is_reliable_c64, strip_id, frame_ack, frame_user, extract_ack_id}

abbrev Always : Schedule → Relay → Type 0
Always sch r = Unit

abbrev AnyError : Error → Type 0
AnyError e = Unit

-- An ACK with this ID or, for a text chunk, the USER frame that the Commodore forwards instead.
abbrev pub Confirms : ℕ → Bool → Frame → Type 0
Confirms id waiting_text_ack f =
    ((f.kind ≡ frame_ack) × (extract_ack_id f.payload ≡ some id))
    ⊎ ((waiting_text_ack ≡ true) × (f.kind ≡ frame_user))

is_ack_of-some : (id : ℕ) (o : Option ℕ) → is_ack_of id o ≡ true → o ≡ some id
is_ack_of-some id none h = ground arith
is_ack_of-some id (some x) h = ground arith

kind-stripped :
    (env : Env) (flush : Bool) (f : Frame) (r : Relay) (o : Option (ℕ × Bytes))
    → (accept_stripped env flush f r o).frame.kind ≡ f.kind
kind-stripped env flush f r none = refl
kind-stripped env flush f r (some (id, body)) = refl

kind-accept :
    (env : Env) (flush : Bool) (f : Frame) (r : Relay)
    → (accept_c64_frame_with env flush f r).frame.kind ≡ f.kind
unfolding accept_c64_frame_with
kind-accept env flush f r = elim (Bool-cases (is_reliable_c64 f.kind)) [
  | inl e ↦ rw e (kind-stripped env flush f r (strip_id f.payload))
  | inr e ↦ rw e
]

got-Any :
    (env : Env) (wait : Bool) (a : Arrival) (r : Relay)
    → Outcome Always AnyError {A = Frame} (λ _. Unit) (receive env wait a r).0
unfolding receive
got-Any env wait (ended k) r = tt
got-Any env wait (expires dt k) r = tt
got-Any env wait (fails dt) r = tt
got-Any env wait (arrives dt f) r = tt

module _ (env : Env) (id : ℕ) (waiting_text_ack : Bool) where
  body-Confirms :
      (f : Frame) (r : Relay) (sch : Schedule)
      → Round Always AnyError
          (Confirms id waiting_text_ack)
          sch
          (ack_id_body env id waiting_text_ack f r)
  unfolding ack_id_body
  body-Confirms f r sch = ground (
    arith,
    is_ack_of-some id (extract_ack_id f.payload),
    kind-accept env true f r,
    kind-accept env false f r,
  )

  -- A wait for an ACK succeeds only with an ACK that carries the ID that was sent or, for a text
  -- chunk, with a USER frame; no other ACK, status or result ends it without an error.
  pub wait_for_ack_id-Confirms :
      (sch : Schedule) (r : Relay) (f : Frame)
      → (wait_for_ack_id env id waiting_text_ack sch r).result ≡ ok f
      → Confirms id waiting_text_ack f
  unfolding wait_for_ack_id
  wait_for_ack_id-Confirms sch r f e =
      subst (Outcome Always AnyError (Confirms id waiting_text_ack)) e
        ((Keeps-recv_loop Always AnyError env waiting_text_ack (ack_id_body env id waiting_text_ack)
            tt (λ a sch r i. (tt, got-Any env waiting_text_ack a r))
            (λ a sch r f i e. body-Confirms f (receive env waiting_text_ack a r).1 sch)).ends
          sch r tt).1
