-- ===== src/Relay/Drain/Order.antt =====
-- The order of the pending frames behind a drain.
use claw.Prelude.{
  ℕ, Bytes, All, append-nil, append_assoc, sym, true, false, List, [], ◌∷◌, ◌++◌, ◌≡◌, ◌∙◌, ap,
  ◌==◌,
}
use claw.Relay.Drain.{
  drain_user_body, drain_trailing_after_user_text, drain_llm_body, drain_trailing_llm_messages,
  drain_llm_pending, after_round,
}
use claw.Relay.Receive.{stop, pending_loop, after_verdict, unwrap_accepted_frame}
use claw.Relay.State.{Relay, Env, Queued, Schedule, ok, pure}
use claw.Serial.Frame.{frame_user, frame_system, frame_llm}

-- A frame that has been accepted and that neither drain takes.
pub record IsForeign (q : Queued) : Type 0 where
  pub was_accepted : q.accepted ≡ true
  pub no_user : (q.frame.kind == frame_user) ≡ false
  pub no_system : (q.frame.kind == frame_system) ≡ false
  pub no_llm : (q.frame.kind == frame_llm) ≡ false

-- The frame at the head goes to the end.
abbrev pub rotated : Queued → List Queued → Relay → Relay
rotated q qs r = record r { pending_frames = qs ++ (q ∷ []) }

module _ (env : Env) (q : Queued) (qs : List Queued) (events : List Bytes) (r : Relay)
    (h : IsForeign q) where
  user_body-rotated :
      drain_user_body env q (record r { pending_frames = qs }) ≡ (stop (ok tt), rotated q qs r)
  unfolding drain_user_body unwrap_accepted_frame
  user_body-rotated = rw h.was_accepted (rw h.no_user (rw h.no_system))

  llm_body-rotated :
      drain_llm_body env q events (record r { pending_frames = qs })
      ≡ (false, events, rotated q qs r)
  unfolding drain_llm_body unwrap_accepted_frame
  llm_body-rotated = rw h.was_accepted (rw h.no_llm (rw h.no_system))

-- An accepted frame of a kind.
pub record IsOf (kind : ℕ) (q : Queued) : Type 0 where
  pub was_accepted : q.accepted ≡ true
  pub of_kind : (q.frame.kind == kind) ≡ true

abbrev pub payloads_of : List Queued → List Bytes
payloads_of [] = []
payloads_of (q ∷ qs) = q.frame.payload ∷ payloads_of qs

abbrev pub joined : List Bytes → Bytes
joined [] = []
joined (p ∷ ps) = p ++ joined ps

-- Text behind the text buffer.
abbrev pub with_text : Bytes → Relay → Relay
with_text text r = record r { text_buf = r.text_buf ++ text }

module _ (env : Env) (q : Queued) (qs : List Queued) (h : IsForeign q) where
  user_loop-rotated :
      (ws : List Queued) (sch : Schedule) (r : Relay)
      → All (IsOf frame_user) ws
      → pending_loop env (drain_user_body env) (ws ++ (q ∷ qs)) sch r ≡ record {
        result = ok tt;
        left = sch;
        relay = with_text (joined (payloads_of ws)) (rotated q qs r);
      }
  unfolding pending_loop drain_user_body unwrap_accepted_frame pure
  user_loop-rotated [] sch r k =
      ap (λ v. after_verdict v sch (pending_loop env (drain_user_body env) qs sch))
        (user_body-rotated env q qs [] r h)
      ∙ ap
          (λ t. record {
            result = ok tt;
            left = sch;
            relay = record (rotated q qs r) { text_buf = t };
          })
          (sym (append-nil r.text_buf))
  user_loop-rotated (w ∷ ws) sch r k = rw k.0.was_accepted (
      rw k.0.of_kind (
        user_loop-rotated ws sch
          (record (with_text w.frame.payload r) { pending_frames = ws ++ (q ∷ qs) }) k.1
        ∙ ap
            (λ t. record {
              result = ok tt;
              left = sch;
              relay = record (rotated q qs r) { text_buf = t };
            })
            (append_assoc r.text_buf w.frame.payload (joined (payloads_of ws)))))

  llm_loop-rotated :
      (ws : List Queued) (sch : Schedule) (events : List Bytes) (r : Relay)
      → All (IsOf frame_llm) ws
      → drain_llm_pending env (ws ++ (q ∷ qs)) sch events r
        ≡ record { result = ok (events ++ payloads_of ws); left = sch; relay = rotated q qs r }
  unfolding drain_llm_pending drain_llm_body unwrap_accepted_frame pure
  llm_loop-rotated [] sch events r k =
      ap (λ v. after_round v sch (drain_llm_pending env qs sch))
        (llm_body-rotated env q qs events r h)
      ∙ ap (λ es. record { result = ok es; left = sch; relay = rotated q qs r })
          (sym (append-nil events))
  llm_loop-rotated (w ∷ ws) sch events r k = rw k.0.was_accepted (
      rw k.0.of_kind (
        llm_loop-rotated ws sch (events ++ (w.frame.payload ∷ []))
          (record r { pending_frames = ws ++ (q ∷ qs) }) k.1
        ∙ ap (λ es. record { result = ok es; left = sch; relay = rotated q qs r })
            (append_assoc events (w.frame.payload ∷ []) (payloads_of ws))))

  -- Where the pending frames begin with accepted frames that a drain takes, USER frames for the
  -- drain behind a text and LLM frames for the other, then comes an accepted frame for neither
  -- drain: the drain takes off all those before it, in order, moves that frame behind all the
  -- others that are pending, and takes nothing off the link. The USER payloads are joined behind
  -- the text buffer, and the LLM payloads are what the other drain returns.
  pub drains-rotated :
      (users llms : List Queued) (sch : Schedule) (r s : Relay)
      → All (IsOf frame_user) users
      → All (IsOf frame_llm) llms
      → r.pending_frames ≡ users ++ (q ∷ qs)
      → s.pending_frames ≡ llms ++ (q ∷ qs)
      → (drain_trailing_after_user_text env sch r ≡ record {
        result = ok tt;
        left = sch;
        relay = with_text (joined (payloads_of users)) (rotated q qs r);
      })
        × (drain_trailing_llm_messages env sch s
            ≡ record { result = ok (payloads_of llms); left = sch; relay = rotated q qs s })
  unfolding drain_trailing_after_user_text drain_trailing_llm_messages pure
  drains-rotated users llms sch r s k l e f = (
    ap (λ m. let t = pending_loop env (drain_user_body env) m sch r in pure tt t.left t.relay) e
        ∙ ap (λ t. pure tt t.left t.relay) (user_loop-rotated users sch r k),
    ap (λ m. drain_llm_pending env m sch [] s) f ∙ llm_loop-rotated llms sch [] s l,
  )
