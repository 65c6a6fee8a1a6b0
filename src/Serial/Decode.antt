-- ===== src/Serial/Decode.antt =====
-- bridge/serial/frame.go, `Decode`, and bridge/serial/serial.go, `Recv`.
-- The reader is the list of bytes that are still to come, with the end of the list for its error.
-- A resynchronisation starts again on what is left of the list, so the recursion is on fuel.
pub mod Bounds
pub mod RoundTrip
pub mod Resync
use claw.Prelude.{
  ℕ, zero, suc, ◌+◌, Bool, true, false, not, ◌||◌, Option, none, some, [], ◌∷◌, bit_xor, ◌==◌, leb,
  if◌then◌else◌, length, Bytes,
}
use claw.Serial.Frame.{
  Frame, sync_byte, low7, checksum, is_known_type, frame_msg, frame_exec, frame_stop,
  frame_status_req, frame_screenshot, frame_text, frame_done, frame_ack_to_c64,
}

-- Where the reader's error is met.
pub data Stage : Type 0 where
  sync subtype length_byte check_byte : Stage
  payload_byte : ℕ → Stage

-- A frame with the bytes that follow it, or the stage at which the reader failed.
pub data Decoded : Type 0 where
  frame : Frame → Bytes → Decoded
  broken : Stage → Decoded
  out_of_fuel : Decoded

-- The loop that hunts for SYNC: what stands behind it.
unfoldable pub hunt : Bytes → Option Bytes
hunt [] = none
hunt (b ∷ bs) = if leb 0x7C (low7 b) then some bs else hunt bs

-- The loop at `readType`: the raw type byte and what stands behind it.
unfoldable pub read_type : Bytes → Option (ℕ × Bytes)
read_type [] = none
read_type (b ∷ bs) = if b == sync_byte then read_type bs else some (b, bs)

-- What the payload loop returns: the index at which the reader failed, or the masked payload.
pub data ReadPayload : Type 0 where
  short : ℕ → ReadPayload
  full : Bytes → Bytes → ReadPayload

abbrev pub cons_payload : ℕ → ReadPayload → ReadPayload
cons_payload b (short i) = short i
cons_payload b (full p rest) = full (b ∷ p) rest

-- `for i := byte(0); i < length; i++`, with the rounds that are left and the index.
unfoldable pub read_payload : ℕ → ℕ → Bytes → ReadPayload
read_payload zero i bs = full [] bs
read_payload (suc n) i [] = short i
read_payload (suc n) i (b ∷ bs) = cons_payload (low7 b) (read_payload n (i + 1) bs)

-- From the checksum byte on. `next` is `goto readType`, `again` is `return Decode(r)`.
unfoldable pub check_frame : ℕ → Bytes → ℕ → Bytes → (Bytes → Decoded) → (Bytes → Decoded) → Decoded
check_frame typ payload chk [] next again = broken check_byte
check_frame typ payload chk (raw_cb ∷ rest) next again =
    if low7 raw_cb == chk
    then frame (record { kind = typ; payload = payload }) rest
    else if raw_cb == sync_byte
    then next rest
    else again rest

-- From the payload on.
unfoldable pub payload_frame : ℕ → ℕ → Bytes → (Bytes → Decoded) → (Bytes → Decoded) → Decoded
payload_frame typ len bs next again = elim (read_payload len 0 bs) [
  | short i ↦ broken (payload_byte i)
  | full payload rest ↦ check_frame typ payload (checksum (bit_xor typ len) payload) rest next again
]

-- From the length byte on.
unfoldable pub length_frame : ℕ → Bytes → (Bytes → Decoded) → (Bytes → Decoded) → Decoded
length_frame typ [] next again = broken length_byte
length_frame typ (raw_len ∷ bs) next again =
    if not (is_known_type typ) then again bs else payload_frame typ (low7 raw_len) bs next again

-- From the label `readType` on.
unfoldable pub read_frame : ℕ → Bytes → Decoded
read_frame zero bs = out_of_fuel
read_frame (suc fuel) bs =
    let next : (Bytes → Decoded) = λ rest. read_frame fuel rest in
    let again : (Bytes → Decoded) =
      λ rest. elim (hunt rest) [ none ↦ broken sync | some r ↦ read_frame fuel r ] in
    elim (read_type bs) [
      | none ↦ broken subtype
      | some (raw_type, rest) ↦ length_frame (low7 raw_type) rest next again
    ]

unfoldable pub decode : Bytes → Decoded
decode bs = elim (hunt bs) [ none ↦ broken sync | some rest ↦ read_frame (suc (length bs)) rest ]

-- The `switch` of `Recv`: echoed bridge → Commodore command frames.
unfoldable pub is_echo : ℕ → Bool
is_echo t =
    t == frame_msg
    || t == frame_exec
    || t == frame_stop
    || t == frame_status_req
    || t == frame_screenshot
    || t == frame_text
    || t == frame_done
    || t == frame_ack_to_c64

recv_from : ℕ → Bytes → Decoded
recv_from zero bs = out_of_fuel
recv_from (suc fuel) bs = elim (decode bs) [
  | frame f rest ↦ elim (is_echo f.kind) [ true ↦ recv_from fuel rest | false ↦ frame f rest ]
  | broken s ↦ broken s
  | out_of_fuel ↦ out_of_fuel
]

unfoldable pub recv : Bytes → Decoded
unfolding recv_from
recv bs = recv_from (suc (length bs)) bs
