-- ===== src/Relay/Deliver.antt =====
-- bridge/relay/relay.go: reliable delivery to the Commodore with retries, and the text chunks.
-- The `DeliveryRetry` callback, the debug dump of a failed delivery and the log lines are not
-- modelled. A timeout is an `expires` of the schedule.
use claw.Prelude.{
  ℕ, zero, suc, ◌-◌, Bool, true, false, not, ◌&&◌, List, [], ◌∷◌, if◌then◌else◌, length, take, drop,
  Bytes,
}
use claw.Relay.Accept.{settle_pending_acks, link_send}
use claw.Relay.Ids.{alloc_id}
use claw.Relay.State.{
  Relay, Env, Name, Error, send_error, not_verified, out_of_fuel, M, pure, fail, ◌>>=◌, ◌>>◌,
  modify, catch, sleep,
}
use claw.Relay.Wait.{
  wait_for_ack_id, wait_for_ack_or_semantic, wait_for_status_semantic, wait_for_prime_status,
  drain_c64_outbound_before_text,
}
use claw.Serial.Frame.{Frame, frame_text, frame_exec, frame_status_req, prepend_id}

abbrev pub text_chunk_max : ℕ
text_chunk_max = 62

-- `bridgeFramePayloadMax - 1`
abbrev pub bridge_frame_body_max : ℕ
bridge_frame_body_max = 0x7B - 1

abbrev pub reliable_retry_delays : List ℕ
reliable_retry_delays = 500 ∷ 1000 ∷ 2000 ∷ 3000 ∷ 5000 ∷ []

abbrev pub exec_retry_delays : List ℕ
exec_retry_delays = 1000 ∷ 2000 ∷ 3000 ∷ 5000 ∷ 8000 ∷ []

-- `if attempt+1 < len(retryDelays) { time.Sleep(retryDelays[attempt]) }`
abbrev pub sleep_between : ℕ → List ℕ → Relay → Relay
sleep_between d [] r = r
sleep_between d (e ∷ more) r = sleep d r

abbrev pub not_empty : Bytes → Bool
not_empty [] = false
not_empty (b ∷ bs) = true

-- `startToolWait`, behind the new `toolInFlight`. `toolStartedAt` is only read for dumps.
abbrev pub start_tool_wait : Bytes → Relay → Relay
start_tool_wait payload r = record r { tool_in_flight = payload; waiting_tool = true }

module _ (env : Env) where
  abbrev pub sent_or_error : Bool → M (Unit {0})
  sent_or_error true = pure tt
  sent_or_error false = fail send_error

  -- `sendUnreliableBridgeFrame` and `resendReliableBridgeFrame`, which have the same body.
  unfoldable pub send_bridge_frame : Frame → M (Unit {0})
  send_bridge_frame f sch r =
      let (r', sent) = link_send env f (settle_pending_acks env r) in sent_or_error sent sch r'

  -- `r.allocID()`
  unfoldable pub take_id : M ℕ
  take_id sch r =
      let (id, next) = alloc_id r.next_tx_id in pure id sch (record r { next_tx_id = next })

  -- `sendNewReliableBridgeFrame`
  unfoldable pub send_new_reliable_bridge_frame : Frame → M (ℕ × Frame)
  send_new_reliable_bridge_frame f = do
    id ← take_id
    let framed = record f { payload = prepend_id id f.payload }
    send_bridge_frame framed
    pure (id, framed)

  -- `if attempt > 0 { if err := resend(frame); err != nil { return err } }`
  abbrev pub resend_unless_first : Bool → Frame → M (Unit {0})
  resend_unless_first true f = pure tt
  resend_unless_first false f = send_bridge_frame f

  -- `for attempt := 0; attempt < len(retryDelays); attempt++`, with the delays that are left; what
  -- `wait` returns without an error ends it.
  unfoldable pub verify_loop : {A : Type 0} → List ℕ → Bool → Frame → Name → M A → M (Unit {0})
  verify_loop [] first f name wait = fail (not_verified name)
  verify_loop (d ∷ more) first f name wait = do
    resend_unless_first first f
    catch wait (λ _. pure tt)
        (λ e. do modify (sleep_between d more); verify_loop more false f name wait)

  -- `sendVerifiedWithTimeout`, and `sendVerified`, for any timeout.
  unfoldable pub send_verified : Frame → Name → M (Unit {0})
  send_verified f name = do
    (id, framed) ← send_new_reliable_bridge_frame f
    verify_loop reliable_retry_delays true framed name (wait_for_ack_id env id false)

  -- `sendTextChunk`
  unfoldable pub send_text_chunk : Bytes → M (Unit {0})
  send_text_chunk chunk = do
    (id, framed) ← send_new_reliable_bridge_frame (record { kind = frame_text; payload = chunk })
    verify_loop reliable_retry_delays true framed Name.text (wait_for_ack_id env id true)

  -- `ok` false is one more failed attempt.
  abbrev pub must_confirm : Name → Bool → M (Unit {0})
  must_confirm name true = pure tt
  must_confirm name false = fail (not_verified name)

  -- `sendVerifiedOrSemanticWith`, and `sendVerifiedOrSemantic`, for any timeout.
  unfoldable pub send_verified_or_semantic_with : Frame → Name → List ℕ → M (Unit {0})
  send_verified_or_semantic_with f name retry_delays = do
    (id, framed) ← send_new_reliable_bridge_frame f
    verify_loop retry_delays true framed name
        (wait_for_ack_or_semantic env id name >>= must_confirm name)

  abbrev pub send_verified_or_semantic : Frame → Name → M (Unit {0})
  send_verified_or_semantic f name = send_verified_or_semantic_with f name reliable_retry_delays

  -- The loops of `sendStatusProbe` and `PrimeTransport`: the frame is sent in every attempt.
  -- `final` makes the returned error of the last attempt's.
  unfoldable pub probe_loop : List ℕ → Frame → M (Unit {0}) → (Error → Error) → Error → M (Unit {0})
  probe_loop [] f wait final last = fail (final last)
  probe_loop (d ∷ more) f wait final last = do
    send_bridge_frame f
    catch wait pure (λ e. do modify (sleep_between d more); probe_loop more f wait final e)

  abbrev status_req : Frame
  status_req = record { kind = frame_status_req; payload = [] }

  unfoldable pub send_status_probe : M (Unit {0})
  send_status_probe =
      probe_loop reliable_retry_delays status_req (wait_for_status_semantic env)
        (λ _. not_verified Name.status) (not_verified Name.status)

  unfoldable pub prime_transport : M (Unit {0})
  prime_transport =
      probe_loop reliable_retry_delays status_req (wait_for_prime_status env) (λ e. e)
        (not_verified Name.status)

  unfoldable pub send_exec : Bytes → M (Unit {0})
  send_exec cmd = do
    drain_c64_outbound_before_text env
    send_verified_or_semantic_with (record { kind = frame_exec; payload = cmd }) Name.exec
        exec_retry_delays
    modify (start_tool_wait cmd)

  -- A round of `sendNextTextChunk` behind the drain.
  unfoldable pub send_front_chunk : M (Unit {0})
  send_front_chunk sch r =
      let chunk = take text_chunk_max r.text_out_queue in
      (send_text_chunk chunk >> modify (λ s. record s { text_in_flight = [] })) sch (record r {
        text_drain_pending = false;
        text_out_queue = drop text_chunk_max r.text_out_queue;
        text_in_flight = chunk;
      })

  -- `sendNextTextChunk`, on fuel: each round shortens the queue.
  unfoldable pub send_text_from : ℕ → M (Unit {0})
  send_text_from zero sch r = fail out_of_fuel sch r
  send_text_from (suc fuel) sch r =
      let more : M (Unit {0}) =
        drain_c64_outbound_before_text env >> (send_front_chunk >> send_text_from fuel) in
      if not_empty r.text_out_queue && not r.completion_drain then more sch r else pure tt sch r

  unfoldable pub send_next_text_chunk : M (Unit {0})
  send_next_text_chunk sch r = send_text_from (suc (length r.text_out_queue)) sch r
