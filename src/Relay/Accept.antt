-- ===== src/Relay/Accept.antt =====
-- bridge/relay/relay.go: what the relay does with a reliable frame of the Commodore (strip its ID,
-- queue an ACK, drop duplicates), the ACKs that it owes, and the late ACKs that it expects.
-- Log lines and the `C64Duplicate` callback are not modelled.
pub mod Laws
pub mod Quiet
use claw.Prelude.{
  ℕ, ◌+◌, ◌-◌, ◌*◌, Bool, true, false, not, ◌&&◌, Option, none, some, List, [], ◌∷◌, ◌++◌, bit_xor,
  ltb, ◌==◌, if◌then◌else◌, length, Bytes,
}
use claw.Relay.Ids.{transport_id_ahead}
use claw.Relay.State.{Relay, Env, Sent, sleep}
use claw.Serial.Frame.{Frame, low7, frame_user, frame_ack_to_c64, is_reliable_c64, strip_id, encode}

abbrev pub ack_quiet_window : ℕ
ack_quiet_window = 800

abbrev pub c64_ack_handoff_quiet_window : ℕ
c64_ack_handoff_quiet_window = 800

abbrev pub running_ack_quiet_window : ℕ
running_ack_quiet_window = 3000

abbrev pub running_recv_quiet_window : ℕ
running_recv_quiet_window = 1000

-- `id &= 0x7F`, and then `id ^ 0x7F`.
unfoldable pub ack_to_c64_payload : ℕ → Bytes
ack_to_c64_payload id = low7 id ∷ bit_xor (low7 id) 0x7F ∷ []

-- `if remain := window - time.Since(t); remain > 0 { time.Sleep(remain) }`, nothing at the zero
-- time.
unfoldable pub wait_since : ℕ → Option ℕ → Relay → Relay
wait_since window none r = r
wait_since window (some t) r = if ltb r.now (t + window) then sleep (t + window - r.now) r else r

-- The time that `Link.Send` takes, 45 ms for each byte that is written.
abbrev wire_time : Option ℕ → Frame → ℕ
wire_time none f = 45 * length (encode f)
wire_time (some k) f = 45 * k

-- The two tests for a duplicate, and the newest ID otherwise.
unfoldable pub note_id : ℕ → ℕ → Relay → Bool × Relay
note_id kind id r =
    if id == r.rx_last_id && kind == r.rx_last_type
    then (true, r)
    else if not (r.rx_last_id == 0) && not (transport_id_ahead id r.rx_last_id)
    then (true, r)
    else (false, record r { rx_last_id = id; rx_last_type = kind })

-- What `acceptC64FrameWith` leaves: whether the frame is a duplicate, the frame, the state.
pub record Accepted : Type 0 where
  pub duplicate : Bool
  pub frame : Frame
  pub relay : Relay

abbrev pub finish_flush : List ℕ → Relay → Relay
finish_flush [] r = record r { pending_acks = [] }
finish_flush (id ∷ ids) r = record r { pending_acks = []; last_ack_sent_at = some r.now }

abbrev pub wait_if_acks : List ℕ → Relay → Relay
wait_if_acks [] r = r
wait_if_acks (id ∷ ids) r = wait_since c64_ack_handoff_quiet_window r.last_c64_frame_at r

-- `settlePendingAcksLocked` behind the flush.
unfoldable pub settle_quiet : Option ℕ → Relay → Relay
settle_quiet none r = r
settle_quiet (some t) r =
    let window = if r.basic_running then running_ack_quiet_window else ack_quiet_window in
    let r' = wait_since window (some t) r in
    if not r.basic_running then r' else wait_since running_recv_quiet_window r.last_c64_frame_at r'

module _ (env : Env) where
  -- `r.Link.Send(f)`: the frame on the wire, and whether it was sent without an error.
  unfoldable pub link_send : Frame → Relay → Relay × Bool
  link_send f r =
      let fault = env.link (length r.sent) in
      (
        record r {
          sent = (record { frame = f; at = r.now }) ∷ r.sent;
          now = r.now + wire_time fault f;
        },
        elim fault [ none ↦ true | some k ↦ false ],
      )

  -- One round of the loop of `flushPendingAcksLocked`. A failed ACK is only logged.
  unfoldable pub send_ack : ℕ → Relay → Relay
  send_ack id r =
      let ack : Frame = record { kind = frame_ack_to_c64; payload = ack_to_c64_payload id } in
      let r' = (link_send ack r).0 in
      if r.basic_running then (link_send ack (sleep c64_ack_handoff_quiet_window r')).0 else r'

  unfoldable pub send_acks : List ℕ → Relay → Relay
  send_acks [] r = r
  send_acks (id ∷ ids) r = send_acks ids (send_ack id r)

  -- `flushPendingAcks` and `flushPendingAcksLocked`.
  unfoldable pub flush_pending_acks : Relay → Relay
  flush_pending_acks r =
      let acks = r.pending_acks in finish_flush acks (send_acks acks (wait_if_acks acks r))

  unfoldable pub settle_pending_acks : Relay → Relay
  settle_pending_acks r = let r' = flush_pending_acks r in settle_quiet r'.last_ack_sent_at r'

  -- `resendAckToC64`
  unfoldable pub resend_ack_to_c64 : ℕ → Relay → Relay
  resend_ack_to_c64 id r =
      let ack : Frame = record { kind = frame_ack_to_c64; payload = ack_to_c64_payload id } in
      (link_send ack (sleep c64_ack_handoff_quiet_window r)).0

  -- `queueAckToC64`, and the flush of `acceptC64Frame`.
  unfoldable pub queue_ack : Bool → ℕ → ℕ → Relay → Relay
  queue_ack flush kind id r =
      let queued = record r { pending_acks = r.pending_acks ++ (id ∷ []) } in
      if flush
      then (let flushed = flush_pending_acks queued in
          if kind == frame_user then resend_ack_to_c64 id flushed else flushed)
      else queued

  -- Behind `serial.StripID`.
  abbrev pub accept_stripped : Bool → Frame → Relay → Option (ℕ × Bytes) → Accepted
  accept_stripped flush f r none = record { duplicate = false; frame = f; relay = r }
  accept_stripped flush f r (some (id, body)) =
      let (dup, r') = note_id f.kind id (queue_ack flush f.kind id r) in
      record { duplicate = dup; frame = record f { payload = body }; relay = r' }

  -- `acceptC64FrameWith(f, true, flush)`; every call has `ackNow` set.
  unfoldable pub accept_c64_frame_with : Bool → Frame → Relay → Accepted
  accept_c64_frame_with flush f r =
      if not (is_reliable_c64 f.kind)
      then record { duplicate = false; frame = f; relay = r }
      else accept_stripped flush f r (strip_id f.payload)

  abbrev pub accept_c64_frame : Frame → Relay → Accepted
  accept_c64_frame = accept_c64_frame_with true

  abbrev pub accept_c64_frame_queued : Frame → Relay → Accepted
  accept_c64_frame_queued = accept_c64_frame_with false

-- `rememberLateAck`
unfoldable pub remember_late_ack : ℕ → Relay → Relay
remember_late_ack id r = record r { late_ack_ids = id ∷ r.late_ack_ids }

unfoldable pub mem_id : ℕ → List ℕ → Bool
mem_id id [] = false
mem_id id (x ∷ xs) = if x == id then true else mem_id id xs

unfoldable pub delete_id : ℕ → List ℕ → List ℕ
delete_id id [] = []
delete_id id (x ∷ xs) = if x == id then delete_id id xs else x ∷ delete_id id xs

-- `consumeLateAck`: the set `lateAckIDs` as a list of its members.
unfoldable pub consume_late_ack : ℕ → Relay → Bool × Relay
consume_late_ack id r =
    if not (mem_id id r.late_ack_ids)
    then (false, r)
    else (true, record r { late_ack_ids = delete_id id r.late_ack_ids })
