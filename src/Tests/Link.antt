-- ===== src/Tests/Link.antt =====
-- Runs of the theorems on bridge/serial/serial.go at concrete devices and connections.
use mathlib.Core.List.{map}
use claw.Prelude.{
  All, ℕ, ◌<◌, true, false, not, Option, none, some, List, [], ◌∷◌, ◌++◌, ◌≡◌, refl, arith, ◌==◌,
  Bytes,
}
use claw.Serial.Frame.{Frame, frame_status, encode, is_known_type, checksum}
use claw.Serial.Decode.{frame, is_echo, recv}
use claw.Serial.Decode.RoundTrip.{masked, Noisy-refl}
use claw.Serial.Device.{
  again, Round, Conn, file, stream, Attempt, link, open_device_context, wait_for_handshake_byte,
  wait_for_handshake_stream,
}
use claw.Serial.Device.Noise.{IsHealthyRound, open_device_context-recv}
use claw.Serial.Device.Ports.{holds, open_device_context-holds}
use claw.Serial.Link.{Sends, all_reports, send, send-Sends}
use claw.Serial.Listen.{
  Event, select, accept, read, linked, returned, start_listening, set_conn, select_ready,
  accept_conn, announce, read_byte, loop_step, listener_step, listen,
}
use claw.Serial.Listen.Announced.{IsAnnounced}
use claw.Serial.Listen.Owned.{listen-Owned}

abbrev hello_frame : Frame
hello_frame = record { kind = frame_status; payload = 7 ∷ b'O' ∷ b'K' ∷ [] }

abbrev byte_round : ℕ → Round
byte_round b = record { cancelled = false; got = some b; error = none; cancelled_in_wait = false }

abbrev empty_round : Round
empty_round = record {
  cancelled = false;
  got = none;
  error = some again;
  cancelled_in_wait = false;
}

abbrev at_conn : Option Conn → Attempt
at_conn c = record {
  cancelled = false;
  conn = c;
  cancelled_after = false;
  cancelled_in_wait = false;
}

-- The first device ends behind one byte, then it does not open.
abbrev bad_attempts : List Attempt
bad_attempts = at_conn (some (stream (0x55 ∷ []))) ∷ at_conn none ∷ []

abbrev bytes_of_device : Bytes
bytes_of_device = 0x55 ∷ 0x21 ∷ 0xFE ∷ 0x62 ∷ 3 ∷ 7 ∷ b'O' ∷ b'K' ∷ 0x62 ∷ 0x31 ∷ []

abbrev good_device : Conn
good_device = file true true (empty_round ∷ map byte_round bytes_of_device)

byte_rounds_healthy : (bs : Bytes) → All IsHealthyRound (map byte_round bs)
byte_rounds_healthy [] = tt
byte_rounds_healthy (b ∷ bs) = ((refl, (λ e. cc), refl), byte_rounds_healthy bs)

open_device_context-recv_example :
    (bs : Bytes) × (open_device_context (bad_attempts ++ (at_conn (some good_device) ∷ []))
      ≡ (link bs, 1))
    × (recv bs ≡ frame (masked hello_frame) (0x31 ∷ []))
unfolding wait_for_handshake_byte wait_for_handshake_stream encode is_known_type is_echo checksum
open_device_context-recv_example =
    open_device_context-recv bad_attempts [] (at_conn (some good_device)) good_device (0x55 ∷ []) []
      (encode hello_frame) (0x31 ∷ []) hello_frame
      ((refl, refl, refl, refl), ((refl, refl, refl, refl), tt)) refl refl
      (refl, refl, ((refl, (λ e. cc), refl), byte_rounds_healthy bytes_of_device)) refl
      (omega arith, tt) refl refl (omega arith) tt (Noisy-refl (encode hello_frame))

open_device_context-holds_example :
    (open_device_context bad_attempts).1 ≡ holds (open_device_context bad_attempts).0
open_device_context-holds_example = open_device_context-holds bad_attempts

-- Two connections; the second says `'!'` first, and the first says it later.
abbrev two_conns : List Event
two_conns =
    select ∷ accept ∷ select ∷ accept ∷ read 0 0x55 ∷ read 1 0x21 ∷ read 0 0x21 ∷ select ∷ []

listen-Owned_example :
    (1 < (listen two_conns start_listening).accepted)
    × IsAnnounced ((listen two_conns start_listening).conns 1)
    × ((listen (read 1 0x55 ∷ accept ∷ []) (listen two_conns start_listening)).conns 1
        ≡ (listen two_conns start_listening).conns 1)
    × ((listen (read 1 0x55 ∷ accept ∷ []) (listen two_conns start_listening)).place
        ≡ returned (linked 1))
unfolding listen listener_step loop_step read_byte announce accept_conn select_ready set_conn
    start_listening
listen-Owned_example = listen-Owned two_conns (read 1 0x55 ∷ accept ∷ []) 1 refl

-- The connection refuses the fourth byte.
send-Sends_example :
    Sends
      (λ i. not (i == 3))
      (all_reports true 3)
      0
      (encode hello_frame)
      (send (λ i. not (i == 3)) true hello_frame)
send-Sends_example = send-Sends (λ i. not (i == 3)) true hello_frame
