-- ===== src/Relay/Wait.antt =====
-- bridge/relay/relay.go: the loops that wait for an ACK, for a semantic reply, for a status, or for
-- the link to fall quiet. The diagnostics of the TEXT ACK and the log lines are not modelled.
pub mod Acks
use claw.Prelude.{
  ℕ, ◌+◌, leb, Bool, true, false, ◌&&◌, ◌||◌, Option, none, some, [], ◌∷◌, ◌++◌, ◌==◌,
  if◌then◌else◌,
}
use claw.Relay.Accept.{
  flush_pending_acks, accept_c64_frame, accept_c64_frame_queued, remember_late_ack,
  consume_late_ack,
}
use claw.Relay.Receive.{Verdict, stop, go_on, recv_loop}
use claw.Relay.State.{
  Relay, Env, Name, deadline_exceeded, Error, context_error, unexpected_frame, ok, err, M, pure,
  fail, ◌>>=◌, ◌>>◌, catch, modify, state, unsettled,
}
use claw.Serial.Frame.{
  Frame, extract_ack_id, frame_ack, frame_user, frame_system, frame_status, frame_result,
  frame_error, frame_llm,
}

-- `case serial.FrameUser, serial.FrameSystem, …`: the frames of the Commodore but its ACK.
abbrev pub is_semantic : ℕ → Bool
is_semantic t =
    t == frame_user
    || t == frame_system
    || t == frame_status
    || t == frame_result
    || t == frame_error
    || t == frame_llm

-- `append(r.pendingFrames, queuedFrame{frame: f, accepted: true})`
abbrev pub push_pending : Frame → Relay → Relay
push_pending f r = record r {
  pending_frames = r.pending_frames ++ ((record { frame = f; accepted = true }) ∷ []);
}

-- `append([]queuedFrame{{frame: f, accepted: true}}, r.pendingFrames...)`
abbrev pub push_front : Frame → Relay → Relay
push_front f r = record r {
  pending_frames = (record { frame = f; accepted = true }) ∷ r.pending_frames;
}

-- `ok && ackID == id`
abbrev pub is_ack_of : ℕ → Option ℕ → Bool
is_ack_of id none = false
is_ack_of id (some ack_id) = ack_id == id

-- `ok && r.consumeLateAck(ackID)`, of which only the state is of use: the loop goes on either way.
abbrev pub forget_late : Option ℕ → Relay → Relay
forget_late none r = r
forget_late (some ack_id) r = (consume_late_ack ack_id r).1

unfoldable pub semantic_confirms_delivery : Name → ℕ → Bool
semantic_confirms_delivery Name.exec t = t == frame_status || t == frame_result || t == frame_error
semantic_confirms_delivery Name.screenshot t = t == frame_result || t == frame_error
semantic_confirms_delivery Name.status t = t == frame_status || t == frame_error
semantic_confirms_delivery Name.stop t = t == frame_status || t == frame_error
semantic_confirms_delivery _ t = false

unfoldable pub requires_semantic_confirmation : Name → Bool
requires_semantic_confirmation Name.exec = true
requires_semantic_confirmation Name.screenshot = true
requires_semantic_confirmation Name.status = true
requires_semantic_confirmation Name.stop = true
requires_semantic_confirmation _ = false

abbrev pub is_status_name : Name → Bool
is_status_name Name.status = true
is_status_name _ = false

-- `if errors.Is(err, context.DeadlineExceeded) { return nil }; return err`
abbrev pub ok_at_deadline : Error → M (Unit {0})
ok_at_deadline (context_error deadline_exceeded) = pure tt
ok_at_deadline e = fail e

module _ (env : Env) where
  -- A frame that the queued accept takes for a duplicate is dropped, any other is kept.
  abbrev pub keep : Frame → Relay → Relay
  keep f r =
      let a = accept_c64_frame_queued env f r in
      if a.duplicate then a.relay else push_pending a.frame a.relay

  -- The body of `waitForAckID`; it returns the frame that ends the wait.
  unfoldable pub ack_id_body : ℕ → Bool → Frame → Relay → Verdict Frame × Relay
  ack_id_body id waiting_text_ack f r =
      if f.kind == frame_ack
      then (let ack_id = extract_ack_id f.payload in
          if is_ack_of id ack_id then (stop (ok f), r) else (go_on, forget_late ack_id r))
      else if is_semantic f.kind
      then (let a =
            if waiting_text_ack
            then accept_c64_frame env f r
            else accept_c64_frame_queued env f r in
          if a.duplicate
          then (go_on, a.relay)
          else (let r' = push_pending a.frame a.relay in
              if waiting_text_ack && f.kind == frame_user
              then (stop (ok a.frame), remember_late_ack id r')
              else (go_on, r')))
      else (stop (err (unexpected_frame f.kind)), r)

  unfoldable pub wait_for_ack_id : ℕ → Bool → M Frame
  wait_for_ack_id id waiting_text_ack =
      recv_loop env waiting_text_ack (ack_id_body id waiting_text_ack)

  -- The body of `waitForAckOrSemantic`. Its deadline moves with each frame that is kept, which a
  -- schedule covers.
  unfoldable pub ack_or_semantic_body : ℕ → Name → Frame → Relay → Verdict Bool × Relay
  ack_or_semantic_body id name f r =
      if f.kind == frame_ack
      then (let ack_id = extract_ack_id f.payload in
          if is_ack_of id ack_id
          then (if requires_semantic_confirmation name then (go_on, r) else (stop (ok true), r))
          else (go_on, forget_late ack_id r))
      else if f.kind == frame_user || f.kind == frame_system
      then (go_on, keep f r)
      else if is_semantic f.kind
      then (let a = accept_c64_frame_queued env f r in
          if a.duplicate
          then (if is_status_name name && f.kind == frame_status
              then (stop (ok true), flush_pending_acks env (remember_late_ack id a.relay))
              else (go_on, a.relay))
          else (let r' = push_pending a.frame a.relay in
              if semantic_confirms_delivery name f.kind
              then (stop (ok true), flush_pending_acks env (remember_late_ack id r'))
              else (go_on, r')))
      else (stop (err (unexpected_frame f.kind)), r)

  unfoldable pub wait_for_ack_or_semantic : ℕ → Name → M Bool
  wait_for_ack_or_semantic id name = recv_loop env false (ack_or_semantic_body id name)

  -- The body of `waitForStatusSemantic`.
  unfoldable pub status_body : Frame → Relay → Verdict (Unit {0}) × Relay
  status_body f r =
      if f.kind == frame_ack
      then (go_on, r)
      else if f.kind == frame_status || f.kind == frame_error
      then (let a = accept_c64_frame_queued env f r in
          if a.duplicate then (go_on, a.relay) else (stop (ok tt), push_pending a.frame a.relay))
      else if is_semantic f.kind
      then (go_on, keep f r)
      else (stop (err (unexpected_frame f.kind)), r)

  unfoldable pub wait_for_status_semantic : M (Unit {0})
  wait_for_status_semantic = recv_loop env false status_body

  -- The body of `waitForPrimeStatus`.
  unfoldable pub prime_body : Frame → Relay → Verdict (Unit {0}) × Relay
  prime_body f r =
      if f.kind == frame_ack
      then (go_on, r)
      else if f.kind == frame_status || f.kind == frame_error
      then (let a = accept_c64_frame_queued env f r in
          if a.duplicate then (go_on, a.relay) else (stop (ok tt), flush_pending_acks env a.relay))
      else if is_semantic f.kind
      then (go_on, keep f r)
      else (stop (err (unexpected_frame f.kind)), r)

  unfoldable pub wait_for_prime_status : M (Unit {0})
  wait_for_prime_status = recv_loop env false prime_body

  -- The body of `drainC64OutboundBeforeText`.
  unfoldable pub drain_body : Frame → Relay → Verdict (Unit {0}) × Relay
  drain_body f r =
      if f.kind == frame_ack
      then (go_on, r)
      else if f.kind == frame_status
      then (go_on, flush_pending_acks env (accept_c64_frame_queued env f r).relay)
      else if is_semantic f.kind
      then (let a = accept_c64_frame_queued env f r in
          let r' = flush_pending_acks env a.relay in
          if a.duplicate
          then (go_on, r')
          else (stop (err (unexpected_frame f.kind)), push_front a.frame r'))
      else (stop (err (unexpected_frame f.kind)), r)

  unfoldable pub drain_c64_outbound_before_text : M (Unit {0})
  drain_c64_outbound_before_text = catch (recv_loop env false drain_body) pure ok_at_deadline

  -- A round of `DrainTransport` behind its receive, and the limit that the next round begins with.
  unfoldable pub drain_transport_body : ℕ → Frame → Relay → Verdict (Unit {0}) × Relay
  drain_transport_body deadline f r =
      let r' =
        if f.kind == frame_ack
        then r
        else if is_semantic f.kind
        then (accept_c64_frame_queued env f r).relay
        else r in
      if leb deadline r'.now then (stop (err unsettled), r') else (go_on, r')

  -- The loop of `DrainTransport`, with its deadline.
  unfoldable pub drain_transport_until : ℕ → M (Unit {0})
  drain_transport_until deadline =
      catch (recv_loop env false (drain_transport_body deadline)) pure
        (λ e. do ok_at_deadline e; modify (flush_pending_acks env))

  -- `DrainTransport`, with `max` in milliseconds. The quiet time is an `expires` of the schedule.
  unfoldable pub drain_transport : ℕ → M (Unit {0})
  drain_transport max = do
    modify (flush_pending_acks env)
    r ← state
    if leb max 0 then fail unsettled else drain_transport_until (r.now + max)
