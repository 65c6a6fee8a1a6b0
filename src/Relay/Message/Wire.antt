-- ===== src/Relay/Message/Wire.antt =====
-- A MSG frame on the wire, and who may send one beside another handler.
use claw.Prelude.{
  ◌+◌, ◌⊎◌, if◌then◌else◌, ℕ, ◌≤◌, ◌<◌, Bool, true, false, [], ◌∷◌, ◌++◌, ◌≡◌, ◌∙◌, refl, ap, ap₂,
  arith, All, All-take, length, length-take, Bytes,
}
use mathlib.Core.List.{map}
use claw.Relay.Gate.{
  Gate, can_send_overlapping_message, can_start_running_overlap, overlap_queue_at_capacity,
  overlap_queue_depth, is_free,
}
use claw.Relay.Deliver.{not_empty}
use claw.Relay.Ids.{IsId}
use claw.Relay.Message.{message_frame, Route, overflow, gated, at_once, overlapping, route}
use claw.Relay.State.{Relay}
use claw.Serial.Ascii.{to_ascii, is_ascii, AllOf, to_ascii-is_ascii}
use claw.Serial.Decode.{decode, frame}
use claw.Serial.Decode.RoundTrip.{decode-encode, Noisy-refl}
use claw.Serial.Frame.{Frame, low7, encode, prepend_id, is_known_type}

-- The frame with its transport ID in front.
abbrev pub numbered : ℕ → Bytes → Frame
numbered id text = let f = message_frame text in record f { payload = prepend_id id f.payload }

AllOf-low : (s : Bytes) → AllOf is_ascii s → All (λ c. c < 128) s
AllOf-low [] h = tt
AllOf-low (c ∷ cs) h = (ground (arith, h.0), AllOf-low cs h.1)

map-low7 : (s : Bytes) → All (λ c. c < 128) s → map low7 s ≡ s
map-low7 [] h = refl
map-low7 (c ∷ cs) h = ap₂ ◌∷◌ (omega (arith, h.0)) (map-low7 cs h.1)

message_frame-low : (text : Bytes) → All (λ c. c < 128) (message_frame text).payload
unfolding message_frame
message_frame-low text =
    All-take (λ c. c < 128) 122 (to_ascii text)
      (AllOf-low (to_ascii text) (to_ascii-is_ascii text).0)

message_frame-short : (text : Bytes) → length (message_frame text).payload ≤ 122
unfolding message_frame
message_frame-short text = omega (arith, length-take 122 (to_ascii text))

-- Whatever the user writes, its MSG frame, with any transport ID, is read back unchanged from its
-- own bytes, and has at most 123 bytes of payload.
pub numbered-decode :
    (id : ℕ) (text rest : Bytes)
    → IsId id
    → (decode (encode (numbered id text) ++ rest) ≡ frame (numbered id text) rest)
      × (length (numbered id text).payload ≤ 123)
unfolding prepend_id is_known_type message_frame
numbered-decode id text rest h =
    let low = map-low7 (id ∷ (message_frame text).payload) (omega arith, message_frame-low text) in
    let short = message_frame-short text in
    (
      decode-encode (numbered id text) [] (encode (numbered id text)) rest refl (omega arith) tt
            (Noisy-refl (encode (numbered id text)))
          ∙ ap (λ p. frame (record { kind = (message_frame text).kind; payload = p }) rest) low,
      omega arith,
    )

abbrev count : Bool → ℕ
count b = if b then 1 else 0

-- The calls at work or waiting, and what the fields say of a message that is sent beside a handler.
abbrev pub at_work : Gate → Bool → ℕ
at_work g overlap_busy = length g.waiters + count g.busy + count overlap_busy

abbrev pub MayOverlap : Relay → Type 0
MayOverlap r =
    (not_empty r.system_prompt ≡ true)
    × ((r.completion_drain ≡ true) ⊎ ((r.basic_running ≡ true) × (r.waiting_tool ≡ false)))

-- While BASIC runs, a tool waits or others wait at the gate.
abbrev pub IsBlocked : Gate → Relay → Type 0
IsBlocked g r = (r.basic_running ≡ true) × ((r.waiting_tool ≡ true) ⊎ (is_free g.waiters ≡ false))

-- When each way is the right one.
abbrev pub IsRight : Gate → Bool → Relay → Route → Type 0
IsRight g overlap_busy r overflow = 3 ≤ at_work g overlap_busy
IsRight g overlap_busy r gated =
    (at_work g overlap_busy < 3)
    × (MayOverlap r → (g.busy ≡ true) × ((overlap_busy ≡ true) ⊎ IsBlocked g r))
IsRight g overlap_busy r at_once = (at_work g overlap_busy < 3) × MayOverlap r × (g.busy ≡ false)
IsRight g overlap_busy r overlapping =
    (at_work g overlap_busy < 3)
    × MayOverlap r
    × (g.busy ≡ true)
    × (overlap_busy ≡ false)
    × ¬ IsBlocked g r

route_lem :
    (g : Gate) (overlap_busy : Bool) (r : Relay) (w : Route)
    → route g overlap_busy r ≡ w
    → IsRight g overlap_busy r w
unfolding route can_send_overlapping_message can_start_running_overlap overlap_queue_at_capacity
    overlap_queue_depth
route_lem g overlap_busy r overflow e = ground (arith, e)
route_lem g overlap_busy r gated e = ground (arith, e)
route_lem g overlap_busy r at_once e = ground (arith, e)
route_lem g overlap_busy r overlapping e = ground (arith, e)

-- In every state, a message takes the overflow lane exactly if three or more calls are at work or
-- waiting. Else it may go beside a handler exactly if the system prompt is there, and a completed
-- program drains or BASIC runs with no tool waiting. If it may, and the gate is free, it goes at
-- once; if the gate is taken, it overlaps the handler exactly if no other message does and, where
-- BASIC runs, no tool waits and nobody waits at the gate. All others wait for the gate.
pub route-IsRight :
    (g : Gate) (overlap_busy : Bool) (r : Relay) → IsRight g overlap_busy r (route g overlap_busy r)
route-IsRight g overlap_busy r = route_lem g overlap_busy r (route g overlap_busy r) refl
