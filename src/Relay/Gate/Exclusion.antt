-- ===== src/Relay/Gate/Exclusion.antt =====
-- The gate lets one call in at a time; a hand-off that is lost shuts it for good.
use claw.Prelude.{ℕ, ◌+◌, ◌≤◌, Bool, true, false, List, [], ◌∷◌, ◌≡◌, refl, arith, length}
use claw.Relay.Accept.{mem_id}
use claw.Relay.Accept.Quiet.{Past}
use claw.Relay.Gate.{
  Gate, free_gate, remove, acquire, wake, give_up, hand_off, release, try_acquire, Step, acquires,
  tries, wakes, gives_up, releases, Reach, here, next, longer, message_gate_handoff_delay, is_free,
}
use claw.Relay.State.{Relay}

-- At most one call is in or about to be, and a gate that is not busy has nobody in it or before it.
pub record IsExclusive (g : Gate) : Type 0 where
  pub one : length g.holders + length g.granted ≤ 1
  pub empty : g.busy ≡ false → (length g.holders + length g.granted + length g.waiters) ≡ 0

length-remove : (t : ℕ) (xs : List ℕ) → length (remove t xs) ≤ length xs
unfolding remove
length-remove t [] = omega arith
length-remove t (x ∷ xs) = ground (arith, length-remove t xs)

length-remove_mem :
    (t : ℕ) (xs : List ℕ) → mem_id t xs ≡ true → length (remove t xs) + 1 ≡ length xs
unfolding remove mem_id
length-remove_mem t [] h = ground arith
length-remove_mem t (x ∷ xs) h = ground (arith, length-remove_mem t xs)

-- Fewer calls, or the same.
fewer :
    (g h : Gate)
    → IsExclusive g
    → h.busy ≡ g.busy
    → length h.holders + length h.granted ≤ length g.holders + length g.granted
    → length h.waiters ≤ length g.waiters
    → IsExclusive h
fewer g h i b n w = ground (arith, i.one, i.empty)

acquire-IsExclusive : (t : ℕ) (g : Gate) → IsExclusive g → IsExclusive (acquire t g)
unfolding acquire
acquire-IsExclusive t g i = ground (arith, i.one, i.empty)

try_acquire-IsExclusive : (t : ℕ) (g : Gate) → IsExclusive g → IsExclusive (try_acquire t g).1
unfolding try_acquire
try_acquire-IsExclusive t g i = ground (arith, i.one, i.empty)

hand_off-IsExclusive :
    (t : ℕ) (hs ws : List ℕ) (g : Gate)
    → g.holders ≡ hs
    → g.waiters ≡ ws
    → mem_id t hs ≡ true
    → IsExclusive g
    → IsExclusive (hand_off ws (record g { holders = remove t hs }))
hand_off-IsExclusive t hs [] g eh ew m i = ground (arith, length-remove_mem t hs, i.one, i.empty)
hand_off-IsExclusive t hs (w ∷ ws) g eh ew m i =
    ground (arith, length-remove_mem t hs, i.one, i.empty)

Step-IsExclusive : {g h : Gate} → Step g h → IsExclusive g → IsExclusive h
unfolding wake give_up release
Step-IsExclusive (acquires t g) i = acquire-IsExclusive t g i
Step-IsExclusive (tries t g) i = try_acquire-IsExclusive t g i
Step-IsExclusive (wakes t g m) i =
    let n = length-remove_mem t g.granted m in fewer g _ i refl (omega arith) (omega arith)
Step-IsExclusive (gives_up t g m) i =
    fewer g _ i refl (omega (arith, length-remove t g.granted)) (length-remove t g.waiters)
Step-IsExclusive (releases t g m) i = hand_off-IsExclusive t g.holders g.waiters g refl refl m i

-- Whatever order the calls on a free gate take, also where contexts end while they wait, at most
-- one call is in the gate, and where the gate is free nobody waits.
pub Reach-IsExclusive : {g : Gate} → Reach free_gate g → IsExclusive g
Reach-IsExclusive here = record { one = omega arith; empty = λ e. omega arith }
Reach-IsExclusive (next p s) = Step-IsExclusive s (Reach-IsExclusive p)

-- The gate is busy, and nobody is in it or about to be.
pub record IsLost (g : Gate) : Type 0 where
  pub is_busy : g.busy ≡ true
  pub none_granted : g.granted ≡ []
  pub none_in : g.holders ≡ []

Step-IsLost : {g h : Gate} → Step g h → IsLost g → IsLost h
unfolding acquire try_acquire wake give_up release remove mem_id
Step-IsLost (acquires t g) i = ground (arith, i.is_busy, i.none_granted, i.none_in)
Step-IsLost (tries t g) i = ground (arith, i.is_busy, i.none_granted, i.none_in)
Step-IsLost (wakes t g m) i = ground (arith, i.is_busy, i.none_granted, i.none_in)
Step-IsLost (gives_up t g m) i = ground (arith, i.is_busy, i.none_granted, i.none_in)
Step-IsLost (releases t g m) i = ground (arith, i.is_busy, i.none_granted, i.none_in)

Reach-IsLost : {g h : Gate} → Reach g h → IsLost g → IsLost h
Reach-IsLost here i = i
Reach-IsLost (next p s) i = Step-IsLost s (Reach-IsLost p i)

remove_only :
    (t : ℕ) (xs ys : List ℕ)
    → mem_id t xs ≡ true
    → length ys + length xs ≤ 1
    → (remove t xs ≡ []) × (ys ≡ [])
unfolding remove mem_id
remove_only t [] ys m l = ground arith
remove_only t (x ∷ []) [] m l = ground arith
remove_only t (x ∷ []) (y ∷ ys) m l = ground arith
remove_only t (x ∷ x' ∷ xs) ys m l = ground arith

is_busy_held :
    (t : ℕ) (g : Gate) (b : Bool)
    → g.busy ≡ b
    → IsExclusive g
    → length (remove t g.granted) + 1 ≡ length g.granted
    → g.busy ≡ true
is_busy_held t g true e i n = e
is_busy_held t g false e i n = let z = i.empty e in ground arith

give_up-IsLost :
    (t : ℕ) (g : Gate) → IsExclusive g → mem_id t g.granted ≡ true → IsLost (give_up t g)
unfolding give_up
give_up-IsLost t g i m =
    let (granted, holders) = remove_only t g.granted g.holders m i.one in
    record {
      is_busy = is_busy_held t g g.busy refl i (length-remove_mem t g.granted m);
      none_granted = granted;
      none_in = holders;
    }

-- A waiter that was handed the gate but whose `select` chooses the end of its context leaves the
-- gate busy with nobody in it, and so it stays: no later call ever comes in.
pub give_up_granted :
    {g h : Gate} (t : ℕ)
    → Reach free_gate g
    → mem_id t g.granted ≡ true
    → Reach (give_up t g) h
    → (h.busy ≡ true) × (h.holders ≡ [])
give_up_granted t p m q =
    let lost = Reach-IsLost q (give_up-IsLost t _ (Reach-IsExclusive p) m) in
    (lost.is_busy, lost.none_in)

-- After the sleep that a hand-off of the gate takes, the line has been quiet for 800 ms after the
-- last ACK and 250 ms after the Commodore's last frame, and 1 s after that frame where others still wait.
pub message_gate_handoff_delay_lem :
    (g : Gate) (r : Relay)
    → let r' = record r { now = r.now + message_gate_handoff_delay g r } in
      Past 800 r.last_ack_sent_at r'
      × Past 250 r.last_c64_frame_at r'
      × (is_free g.waiters ≡ false → Past 1000 r.last_c64_frame_at r')
unfolding message_gate_handoff_delay longer
message_gate_handoff_delay_lem g r = ground arith
