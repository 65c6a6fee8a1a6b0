-- ===== src/Tests/Serial.antt =====
-- Runs of the theorems on bridge/serial at concrete bytes.
use claw.Prelude.{[], ◌∷◌, ◌++◌, ◌≡◌, refl, arith, Bytes}
use claw.Serial.Decode.{decode, frame, recv}
use claw.Serial.Decode.Bounds.{Ends, Received, decode-Ends, recv-Received}
use claw.Serial.Decode.Resync.{decode_bad}
use claw.Serial.Decode.RoundTrip.{masked, decode-encode, Noisy-refl}
use claw.Serial.Frame.{Frame, frame_status, encode, is_known_type, checksum}

abbrev status_frame : Frame
status_frame = record { kind = frame_status; payload = 7 ∷ b'O' ∷ b'K' ∷ [] }

abbrev noise : Bytes
noise = 0x00 ∷ 0x31 ∷ []

decode-encode_example :
    decode (noise ++ (encode status_frame ++ (0x55 ∷ []))) ≡ frame (masked status_frame) (0x55 ∷ [])
unfolding encode is_known_type
decode-encode_example =
    decode-encode status_frame noise (encode status_frame) (0x55 ∷ []) refl (omega arith)
      (omega arith, (omega arith, tt)) (Noisy-refl (encode status_frame))

recv-Received_example : Received 7 (recv (0xFE ∷ 0x62 ∷ 1 ∷ 7 ∷ 0x64 ∷ 1 ∷ 2 ∷ []))
recv-Received_example = recv-Received (0xFE ∷ 0x62 ∷ 1 ∷ 7 ∷ 0x64 ∷ 1 ∷ 2 ∷ [])

decode-Ends_example : Ends 5 (decode (0xFE ∷ 0x62 ∷ 1 ∷ 7 ∷ 0x64 ∷ []))
decode-Ends_example = decode-Ends (0xFE ∷ 0x62 ∷ 1 ∷ 7 ∷ 0x64 ∷ [])

-- The frame has lost its checksum, and the SYNC of the next frame stands there.
decode_bad_example :
    decode (0xFE ∷ 0x62 ∷ 1 ∷ 7 ∷ 0xFE ∷ 0x62 ∷ 0 ∷ 0x62 ∷ [])
    ≡ decode (0xFE ∷ 0x62 ∷ 0 ∷ 0x62 ∷ [])
unfolding is_known_type checksum
decode_bad_example = decode_bad 0x62 1 (7 ∷ []) 0xFE (0x62 ∷ 0 ∷ 0x62 ∷ []) refl refl (omega arith)
