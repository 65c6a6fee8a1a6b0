-- ===== src/Relay/Ids.antt =====
-- bridge/relay/relay.go: transport IDs, `allocID`, `SetNextTransportID`, `transportIDAhead`.
use claw.Prelude.{
  ℕ, ◌+◌, ◌-◌, ◌%◌, ◌≤◌, ◌<◌, Bool, false, not, ◌&&◌, ◌||◌, ◌≡◌, ◌≢◌, arith, leb, ltb, ◌==◌,
  if◌then◌else◌,
}

-- The test `id == 0 || id > 0x7f`, and what replaces such an ID.
abbrev valid_id : ℕ → ℕ
valid_id id = if id == 0 || ltb 0x7F id then 1 else id

-- `allocID`: the ID and the new counter. `id + 1` is at most 0x80 and does not wrap.
unfoldable pub alloc_id : ℕ → ℕ × ℕ
alloc_id next_tx_id =
    let id = valid_id next_tx_id in
    let next = id + 1 in (id, if next == 0 || ltb 0x7F next then 1 else next)

-- `SetNextTransportID`: the new counter.
unfoldable pub set_next_transport_id : ℕ → ℕ
set_next_transport_id id = valid_id id

-- `id - last` is taken in `int`. Where it is negative even after 127 is added, the test
-- `diff > 0` fails, as it does at the 0 that `-` gives here.
unfoldable pub transport_id_ahead : ℕ → ℕ → Bool
transport_id_ahead id last =
    let diff = if ltb id last then id + 127 - last else id - last in
    if id == last then false else ltb 0 diff && leb diff 63

-- An ID that the counter hands out.
abbrev pub IsId : ℕ → Type 0
IsId id = (1 ≤ id) × (id ≤ 127)

-- The ID that is handed out `k` allocations after `id`.
abbrev pub later_id : ℕ → ℕ → ℕ
later_id id k = (id - 1 + k) % 127 + 1

-- Whatever the counter holds, the ID handed out is from 1 to 127, and the counter is left at its
-- successor, with 1 after 127. A seeded counter hands out its seed first if that is an ID, else 1.
pub alloc_id-IsId :
    (next : ℕ)
    → IsId (alloc_id next).0
      × ((alloc_id next).1 ≡ later_id (alloc_id next).0 1)
      × ((alloc_id (alloc_id next).1).0 ≡ later_id (alloc_id next).0 1)
      × ((alloc_id (set_next_transport_id next)).0 ≡ (alloc_id next).0)
unfolding alloc_id set_next_transport_id
alloc_id-IsId next = ground arith

-- Of the 126 IDs that follow an ID, the receiver takes the nearest 63 for newer and the other 63
-- for older; an ID is not newer than itself.
pub transport_id_ahead-later_id :
    (last k : ℕ)
    → IsId last
    → k < 127
    → transport_id_ahead (later_id last k) last ≡ (ltb 0 k && leb k 63)
unfolding transport_id_ahead
transport_id_ahead-later_id last k h l = ground arith

-- Of two different IDs exactly one is ahead of the other.
pub transport_id_ahead-not :
    (a b : ℕ) → IsId a → IsId b → a ≢ b → transport_id_ahead a b ≡ not (transport_id_ahead b a)
unfolding transport_id_ahead
transport_id_ahead-not a b ha hb h = ground arith
