-- ===== src/Relay/Message.antt =====
-- bridge/relay/relay.go, `HandleMessageStream`: the MSG frame of a user's text, and the tests that
-- choose how it is sent. A child file models what it then does with its locks.
pub mod Wire
pub mod Stream
use claw.Prelude.{Bool, true, false, not, ◌&&◌, if◌then◌else◌, take, Bytes}
use claw.Relay.Deliver.{bridge_frame_body_max}
use claw.Relay.Gate.{
  Gate, can_send_overlapping_message, can_start_running_overlap, overlap_queue_at_capacity,
}
use claw.Relay.State.{Relay}
use claw.Serial.Ascii.{to_ascii}
use claw.Serial.Frame.{Frame, frame_msg}

-- `ToASCII` leaves one byte for each rune.
unfoldable pub message_frame : Bytes → Frame
message_frame text = record {
  kind = frame_msg;
  payload = take bridge_frame_body_max (to_ascii text);
}

-- Through the overflow lane and the gate; behind the gate; in the gate at once; or over the link
-- beside the handler that is in the gate.
pub data Route : Type 0 where
  overflow gated at_once overlapping : Route

-- The tests in their order, all on one state. A gate that is not busy is taken by
-- `tryAcquireMessageGate`, and an overlap that is not busy by `tryAcquireOverlapSend`.
unfoldable pub route : Gate → Bool → Relay → Route
route g overlap_busy r =
    if overlap_queue_at_capacity g overlap_busy
    then overflow
    else if not (can_send_overlapping_message r)
    then gated
    else if not g.busy
    then at_once
    else if r.basic_running && not (can_start_running_overlap g r)
    then gated
    else if overlap_busy
    then gated
    else overlapping
