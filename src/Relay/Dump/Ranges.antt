-- ===== src/Relay/Dump/Ranges.antt =====
-- The parts of the user queue that a dump of bridge/relay/stalldump.go shows.
use claw.Prelude.{ℕ, zero, suc, ◌+◌, ◌-◌, ◌*◌, ◌/◌, ◌≤◌, ◌<◌, arith}
use claw.Relay.Dump.{slot_dump}

slot_bounds :
    (lo hi size i : ℕ)
    → lo + 3 * size ≤ hi
    → hi ≤ 65504
    → i < 3
    → 0 < size
    → let d = slot_dump lo size i in (lo ≤ d.0) × (d.0 ≤ d.1) × (d.1 < hi) × (d.1 ≤ d.0 + 31)
unfolding slot_dump
slot_bounds lo hi size zero k l z p = ground arith
slot_bounds lo hi size (suc zero) k l z p = ground arith
slot_bounds lo hi size (suc (suc zero)) k l z p = ground arith
slot_bounds lo hi size (suc (suc (suc i))) k l z p = omega arith

-- Where the symbols of the user queue leave room for three slots, below the last 31 bytes of the
-- memory, the dump of each slot lies in the queue, is not empty, and shows 32 bytes at most.
slot_dump-bounds :
    (lo hi i : ℕ)
    → lo + 3 ≤ hi
    → hi ≤ 65504
    → i < 3
    → let d = slot_dump lo ((hi - lo) / 3) i in
      (lo ≤ d.0) × (d.0 ≤ d.1) × (d.1 < hi) × (d.1 ≤ d.0 + 31)
slot_dump-bounds lo hi i h k l = slot_bounds lo hi ((hi - lo) / 3) i (omega arith) k l (omega arith)
