-- ===== src/Relay/Progress/Pending.antt =====
-- The operations on ACKs and IDs leave the pending frames and the outgoing text alone.
use claw.Prelude.{
  ℕ, Bool, true, false, Option, none, some, List, [], ◌∷◌, ◌≡◌, refl, ◌∙◌, arith, ◌++◌, Bytes,
  Bool-cases, inl, inr,
}
use claw.Relay.Accept.{
  wait_since, wait_if_acks, finish_flush, link_send, send_ack, send_acks, flush_pending_acks,
  settle_quiet, settle_pending_acks, resend_ack_to_c64, queue_ack, note_id, accept_stripped,
  accept_c64_frame_with, consume_late_ack,
}
use claw.Relay.Receive.{pause_if_acks, before_select, receive, unwrap_accepted_frame}
use claw.Relay.State.{Relay, Env, Queued, Arrival, ended, expires, fails, arrives}
use claw.Serial.Frame.{Frame, strip_id, is_reliable_c64}

-- The two lists that only the loops and the text sender change.
abbrev pub kept : Relay → List Queued × Bytes
kept r = (r.pending_frames, r.text_out_queue)

kept-wait_since : (w : ℕ) (t : Option ℕ) (r : Relay) → kept (wait_since w t r) ≡ kept r
unfolding wait_since
kept-wait_since w none r = refl
kept-wait_since w (some t) r = ground arith

kept-settle_quiet : (t : Option ℕ) (r : Relay) → kept (settle_quiet t r) ≡ kept r
unfolding settle_quiet wait_since
kept-settle_quiet t r = ground arith

kept-note_id : (kind id : ℕ) (r : Relay) → kept ((note_id kind id r).1) ≡ kept r
unfolding note_id
kept-note_id kind id r = ground arith

pub kept-consume_late_ack : (id : ℕ) (r : Relay) → kept ((consume_late_ack id r).1) ≡ kept r
unfolding consume_late_ack
kept-consume_late_ack id r = ground arith

module _ (env : Env) where
  kept-send_ack : (id : ℕ) (r : Relay) → kept (send_ack env id r) ≡ kept r
  unfolding send_ack link_send
  kept-send_ack id r = ground arith

  kept-send_acks : (ids : List ℕ) (r : Relay) → kept (send_acks env ids r) ≡ kept r
  unfolding send_acks
  kept-send_acks [] r = refl
  kept-send_acks (id ∷ ids) r = kept-send_acks ids (send_ack env id r) ∙ kept-send_ack id r

  pub kept-flush : (r : Relay) → kept (flush_pending_acks env r) ≡ kept r
  unfolding flush_pending_acks
  kept-flush r = go r.pending_acks
    where
      go :
          (acks : List ℕ)
          → kept (finish_flush acks (send_acks env acks (wait_if_acks acks r))) ≡ kept r
      go [] = kept-send_acks [] r
      go (id ∷ ids) =
          kept-send_acks (id ∷ ids) (wait_if_acks (id ∷ ids) r)
          ∙ kept-wait_since _ r.last_c64_frame_at r

  pub kept-settle : (r : Relay) → kept (settle_pending_acks env r) ≡ kept r
  unfolding settle_pending_acks
  kept-settle r =
      kept-settle_quiet (flush_pending_acks env r).last_ack_sent_at (flush_pending_acks env r)
      ∙ kept-flush r

  kept-before_select : (w : Bool) (r : Relay) → kept (before_select env w r) ≡ kept r
  unfolding before_select
  kept-before_select true r = refl
  kept-before_select false r = kept-flush _ ∙ go r.pending_acks
    where
      go : (acks : List ℕ) → kept (pause_if_acks acks r) ≡ kept r
      go [] = refl
      go (id ∷ ids) = refl

  pub kept-receive : (w : Bool) (a : Arrival) (r : Relay) → kept ((receive env w a r).1) ≡ kept r
  unfolding receive
  kept-receive w (ended k) r = refl
  kept-receive w (expires dt k) r = kept-before_select w r
  kept-receive w (fails dt) r = kept-before_select w r
  kept-receive w (arrives dt f) r = ground (arith, kept-before_select w r)

  kept-queue_ack :
      (flush : Bool) (kind id : ℕ) (r : Relay) → kept (queue_ack env flush kind id r) ≡ kept r
  unfolding queue_ack resend_ack_to_c64 link_send
  kept-queue_ack flush kind id r =
      ground (arith, kept-flush (record r { pending_acks = r.pending_acks ++ (id ∷ []) }))

  kept-stripped :
      (flush : Bool) (f : Frame) (r : Relay) (o : Option (ℕ × Bytes))
      → kept ((accept_stripped env flush f r o).relay) ≡ kept r
  kept-stripped flush f r none = refl
  kept-stripped flush f r (some (id, body)) =
      kept-note_id f.kind id (queue_ack env flush f.kind id r) ∙ kept-queue_ack flush f.kind id r

  pub kept-accept :
      (flush : Bool) (f : Frame) (r : Relay)
      → kept ((accept_c64_frame_with env flush f r).relay) ≡ kept r
  unfolding accept_c64_frame_with
  kept-accept flush f r = elim (Bool-cases (is_reliable_c64 f.kind)) [
    | inl e ↦ rw e (kept-stripped flush f r (strip_id f.payload))
    | inr e ↦ rw e
  ]

  pub kept-unwrap : (q : Queued) (r : Relay) → kept ((unwrap_accepted_frame env q r).relay) ≡ kept r
  unfolding unwrap_accepted_frame
  kept-unwrap q r = ground (arith, kept-accept false q.frame r)
