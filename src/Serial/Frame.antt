-- ===== src/Serial/Frame.antt =====
-- bridge/serial/frame.go: frame types, `Encode`, and the helpers on payloads.
-- A byte is its number, below 256; `b & 0x7F` is `b % 128`.
use claw.Prelude.{
  ℕ, ◌%◌, Bool, ◌||◌, Option, none, some, [], ◌∷◌, ◌++◌, min, bit_xor, ◌==◌, length, take, Bytes,
}

abbrev pub sync_byte : ℕ
sync_byte = 0xFE

-- Bridge → Commodore.
abbrev pub frame_msg : ℕ
frame_msg = 0x4D

abbrev pub frame_exec : ℕ
frame_exec = 0x45

abbrev pub frame_stop : ℕ
frame_stop = 0x4B

abbrev pub frame_status_req : ℕ
frame_status_req = 0x51

abbrev pub frame_text : ℕ
frame_text = 0x54

abbrev pub frame_done : ℕ
frame_done = 0x44

abbrev pub frame_screenshot : ℕ
frame_screenshot = 0x50

abbrev pub frame_ack_to_c64 : ℕ
frame_ack_to_c64 = 0x42

-- Commodore → bridge.
abbrev pub frame_result : ℕ
frame_result = 0x60

abbrev pub frame_system : ℕ
frame_system = 0x61

abbrev pub frame_status : ℕ
frame_status = 0x62

abbrev pub frame_llm : ℕ
frame_llm = 0x63

abbrev pub frame_error : ℕ
frame_error = 0x65

abbrev pub frame_user : ℕ
frame_user = 0x66

abbrev pub frame_ack : ℕ
frame_ack = 0x67

-- `Type` is a reserved word, so the field is `kind`.
pub record Frame : Type 0 where
  pub kind : ℕ
  pub payload : Bytes

-- `b & 0x7F`
abbrev pub low7 : ℕ → ℕ
low7 b = b % 128

-- The loops `chk ^= payload[i] & 0x7F` of `Encode` and `Decode`.
unfoldable pub checksum : ℕ → Bytes → ℕ
checksum chk [] = chk
checksum chk (p ∷ ps) = checksum (bit_xor chk (low7 p)) ps

-- `byte(n)` is exact, since n is at most 255.
unfoldable pub encode : Frame → Bytes
encode f =
    let n = min 255 (length f.payload) in
    let body = take n f.payload in
    sync_byte ∷ f.kind ∷ n ∷ (body ++ (checksum (bit_xor (low7 f.kind) (low7 n)) body ∷ []))

unfoldable pub is_known_type : ℕ → Bool
is_known_type typ =
    typ == frame_msg
    || typ == frame_exec
    || typ == frame_stop
    || typ == frame_status_req
    || typ == frame_text
    || typ == frame_done
    || typ == frame_screenshot
    || typ == frame_ack_to_c64
    || typ == frame_ack
    || typ == frame_result
    || typ == frame_status
    || typ == frame_user
    || typ == frame_llm
    || typ == frame_error
    || typ == frame_system

unfoldable pub prepend_id : ℕ → Bytes → Bytes
prepend_id id payload = id ∷ payload

-- `(id, true)` is `some id`, `(0, false)` is `none`.
unfoldable pub extract_ack_id : Bytes → Option ℕ
extract_ack_id [] = none
extract_ack_id (id ∷ _) = some id

unfoldable pub is_reliable_c64 : ℕ → Bool
is_reliable_c64 t =
    t == frame_user
    || t == frame_status
    || t == frame_result
    || t == frame_error
    || t == frame_llm
    || t == frame_system

unfoldable pub strip_id : Bytes → Option (ℕ × Bytes)
strip_id [] = none
strip_id (id ∷ body) = some (id, body)
