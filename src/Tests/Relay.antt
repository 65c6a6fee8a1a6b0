-- ===== src/Tests/Relay.antt =====
-- Runs of the theorems on bridge/relay at concrete relays.
use claw.Prelude.{false, ℕ, List, some, true, [], ◌∷◌, ◌++◌, ◌≡◌, refl, arith, inl}
use claw.Relay.Accept.Laws.{with_id, transmissions, originals, accept_run, accept_run-originals}
use claw.Relay.Chunks.Assembly.{collect_result, concat, collect_result_lem}
use claw.Relay.Dispatch.{sanitize}
use claw.Relay.Dispatch.Command.{is_command, sanitize-is_command}
use claw.Relay.Drain.{drain_trailing_after_user_text, drain_trailing_llm_messages}
use claw.Relay.Drain.Order.{IsOf, rotated, with_text, drains-rotated}
use claw.Serial.Ascii.{AllOf}
use claw.Prelude.{◌≤◌, length, Bytes}
use claw.Relay.State.{Queued, ok}
use claw.Relay.Loop.{event_loop}
use claw.Relay.Message.Wire.{numbered, numbered-decode}
use claw.Serial.Decode.{decode, frame}
use claw.Serial.Frame.{encode}
use claw.Prelude.{false}
use claw.Relay.Progress.{Leaves, event_loop-Leaves}
use claw.Relay.State.{Relay, Schedule, arrives, expires, deadline_exceeded}
use claw.Relay.Receive.{recv_loop, receive}
use claw.Relay.Wait.{wait_for_ack_id, ack_id_body}
use claw.Relay.Wait.Acks.{Confirms, wait_for_ack_id-Confirms}
use claw.Serial.Frame.{
  Frame, frame_llm, frame_user, frame_status, frame_ack, extract_ack_id, is_reliable_c64,
}
use claw.Tests.Data.{works, at_rest}

abbrev halfway : Relay
halfway = record at_rest { result_chunks = (5, b'x' ∷ []) ∷ [] }

collect_result_lem_example :
    (collect_result 2 0 ((b'A' ∷ []) ∷ (b'B' ∷ []) ∷ []) halfway).0
    ≡ some (concat ((b'A' ∷ []) ∷ (b'B' ∷ []) ∷ []))
collect_result_lem_example = collect_result_lem (b'A' ∷ []) ((b'B' ∷ []) ∷ []) halfway

abbrev owing : Relay
owing = record at_rest { pending_acks = 5 ∷ []; basic_running = true }

abbrev event : Frame
event = record { kind = frame_llm; payload = 1 ∷ b'H' ∷ [] }

abbrev plan : List (Frame × ℕ)
plan = (event, 2) ∷ (record { kind = frame_user; payload = [] }, 0) ∷ (event, 1) ∷ []

accept_run-originals_example :
    (accept_run works (transmissions 126 plan) at_rest).0 ≡ originals plan
unfolding is_reliable_c64
accept_run-originals_example =
    accept_run-originals works plan 126 at_rest (refl, (refl, (refl, tt)))
      (omega arith, omega arith) (inl refl)

-- The Commodore answers, the relay calls the LLM, and the context ends.
abbrev morning : Schedule
morning =
    arrives 10 (with_id 5 (record { kind = frame_status; payload = b'R' ∷ [] }))
    ∷ expires 500 deadline_exceeded
    ∷ []

event_loop-Leaves_example : Leaves 4 (event_loop works "ann" morning at_rest)
event_loop-Leaves_example = event_loop-Leaves works "ann" morning at_rest

abbrev acked : Schedule
acked =
    arrives 10 (record { kind = frame_ack; payload = 4 ∷ [] })
    ∷ arrives 10 (record { kind = frame_ack; payload = 3 ∷ [] })
    ∷ []

wait_for_ack_id-Confirms_example : Confirms 3 false (record { kind = frame_ack; payload = 3 ∷ [] })
unfolding wait_for_ack_id recv_loop receive ack_id_body extract_ack_id
wait_for_ack_id-Confirms_example =
    wait_for_ack_id-Confirms works 3 false acked at_rest
      (record { kind = frame_ack; payload = 3 ∷ [] }) refl

abbrev command : Bytes
command = b'R' ∷ b'U' ∷ b'N' ∷ b'\n' ∷ b'X' ∷ []

sanitize-is_command_example :
    AllOf is_command (sanitize command)
    × (length (sanitize command) ≤ 122)
    × (AllOf is_command command → length command ≤ 122 → sanitize command ≡ command)
sanitize-is_command_example = sanitize-is_command command

-- A USER frame and an LLM frame that have been accepted, and a frame for neither drain.
abbrev typed : Queued
typed = record { frame = record { kind = frame_user; payload = b'O' ∷ [] }; accepted = true }

abbrev reported : Queued
reported = record { frame = event; accepted = true }

abbrev foreign : Queued
foreign = record { frame = record { kind = frame_status; payload = b'R' ∷ [] }; accepted = true }

abbrev is_typed : IsOf frame_user typed
is_typed = record { was_accepted = refl; of_kind = refl }

abbrev behind : List Queued → Relay
behind qs = record at_rest { pending_frames = qs ++ (foreign ∷ reported ∷ []) }

drains-rotated_example :
    (drain_trailing_after_user_text works morning (behind (typed ∷ typed ∷ [])) ≡ record {
      result = ok tt;
      left = morning;
      relay =
          with_text
            (b'O' ∷ b'O' ∷ [])
            (rotated foreign (reported ∷ []) (behind (typed ∷ typed ∷ [])));
    })
    × (drain_trailing_llm_messages works morning (behind (reported ∷ [])) ≡ record {
      result = ok (event.payload ∷ []);
      left = morning;
      relay = rotated foreign (reported ∷ []) (behind (reported ∷ []));
    })
drains-rotated_example =
    drains-rotated works foreign (reported ∷ [])
      (record { was_accepted = refl; no_user = refl; no_system = refl; no_llm = refl })
      (typed ∷ typed ∷ []) (reported ∷ []) morning (behind (typed ∷ typed ∷ []))
      (behind (reported ∷ [])) (is_typed, (is_typed, tt))
      (record { was_accepted = refl; of_kind = refl }, tt) refl refl

numbered-decode_example :
    (decode (encode (numbered 127 command) ++ (0xFE ∷ []))
      ≡ frame (numbered 127 command) (0xFE ∷ []))
    × (length (numbered 127 command).payload ≤ 123)
numbered-decode_example = numbered-decode 127 command (0xFE ∷ []) (omega arith, omega arith)
