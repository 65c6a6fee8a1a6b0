-- ===== src/Relay/Gate.antt =====
-- bridge/relay/relay.go: the message gate and the overflow lane, two locks with the same code, whose
-- waiters are served in order, and the tests on them. A waiter's channel is its ticket; the mutex
-- makes the part of a function before or behind its `select` one step.
pub mod Exclusion
pub mod Order
use claw.Prelude.{
  ℕ, ◌+◌, ◌-◌, Bool, true, false, not, ◌&&◌, ◌||◌, Option, none, some, List, [], ◌∷◌, ◌++◌, ltb,
  leb, ◌==◌, ◌≡◌, if◌then◌else◌, length,
}
use claw.Relay.Accept.{mem_id, ack_quiet_window, running_recv_quiet_window}
use claw.Relay.Deliver.{not_empty}
use claw.Relay.State.{Relay}

-- `granted` are the waiters whose channel is closed and whose `select` has not returned yet,
-- `holders` those whose call has returned nil and who have not released yet.
pub record Gate : Type 0 where
  pub busy : Bool
  pub waiters : List ℕ
  pub granted : List ℕ
  pub holders : List ℕ

abbrev pub free_gate : Gate
free_gate = record { busy = false; waiters = []; granted = []; holders = [] }

-- `append(ws[:i], ws[i+1:]...)` at the first index that fits, if there is one.
unfoldable pub remove : ℕ → List ℕ → List ℕ
remove t [] = []
remove t (x ∷ xs) = if x == t then xs else x ∷ remove t xs

-- `acquireMessageGate` and `acquireOverflowLane` up to the `select`, with the ticket of the call.
unfoldable pub acquire : ℕ → Gate → Gate
acquire t g =
    if not g.busy
    then record g { busy = true; holders = t ∷ g.holders }
    else record g { waiters = g.waiters ++ (t ∷ []) }

-- `case <-waiter`
unfoldable pub wake : ℕ → Gate → Gate
wake t g = record g { granted = remove t g.granted; holders = t ∷ g.holders }

-- `case <-ctx.Done()`, which `select` may also choose where the channel is closed.
unfoldable pub give_up : ℕ → Gate → Gate
give_up t g = record g { waiters = remove t g.waiters; granted = remove t g.granted }

-- `releaseMessageGate` and `releaseOverflowLane`, behind the removal of the holder.
abbrev pub hand_off : List ℕ → Gate → Gate
hand_off [] g = record g { busy = false }
hand_off (w ∷ ws) g = record g { waiters = ws; granted = w ∷ g.granted }

unfoldable pub release : ℕ → Gate → Gate
release t g = hand_off g.waiters (record g { holders = remove t g.holders })

-- `tryAcquireMessageGate`
unfoldable pub try_acquire : ℕ → Gate → Bool × Gate
try_acquire t g =
    if g.busy then (false, g) else (true, record g { busy = true; holders = t ∷ g.holders })

-- What the calls on a gate may do next.
pub data Step : Gate → Gate → Type 0 where
  acquires : (t : ℕ) (g : Gate) → Step g (acquire t g)
  tries : (t : ℕ) (g : Gate) → Step g (try_acquire t g).1
  wakes : (t : ℕ) (g : Gate) → mem_id t g.granted ≡ true → Step g (wake t g)
  gives_up :
      (t : ℕ) (g : Gate) → (mem_id t g.waiters || mem_id t g.granted) ≡ true → Step g (give_up t g)
  releases : (t : ℕ) (g : Gate) → mem_id t g.holders ≡ true → Step g (release t g)

pub data Reach (g : Gate) : Gate → Type 0 where
  here : Reach g g
  next : {h k : Gate} → Reach g h → Step h k → Reach g k

unfoldable pub can_send_overlapping_message : Relay → Bool
can_send_overlapping_message r =
    if not (not_empty r.system_prompt)
    then false
    else if r.completion_drain
    then true
    else r.basic_running && not r.waiting_tool

abbrev pub is_free : List ℕ → Bool
is_free [] = true
is_free (w ∷ ws) = false

unfoldable pub can_start_running_overlap : Gate → Relay → Bool
can_start_running_overlap g r =
    if not r.basic_running || r.waiting_tool then false else g.busy && is_free g.waiters

unfoldable pub overlap_queue_depth : Gate → Bool → ℕ
overlap_queue_depth g overlap_busy =
    length g.waiters + (if g.busy then 1 else 0) + (if overlap_busy then 1 else 0)

-- `c64UserQueueSlots` is 3.
unfoldable pub overlap_queue_at_capacity : Gate → Bool → Bool
unfolding overlap_queue_depth
overlap_queue_at_capacity g overlap_busy = leb 3 (overlap_queue_depth g overlap_busy)

-- `if !t.IsZero() { if remain := window - time.Since(t); remain > delay { delay = remain } }`
unfoldable pub longer : ℕ → Option ℕ → ℕ → ℕ → ℕ
longer window none now delay = delay
longer window (some t) now delay = if ltb delay (t + window - now) then t + window - now else delay

-- `messageGateHandoffDelay`; its windows are 800, 250 and 1000 ms.
unfoldable pub message_gate_handoff_delay : Gate → Relay → ℕ
message_gate_handoff_delay g r =
    let after_ack = longer ack_quiet_window r.last_ack_sent_at r.now 0 in
    let after_frame = longer 250 r.last_c64_frame_at r.now after_ack in
    if not (is_free g.waiters)
    then longer running_recv_quiet_window r.last_c64_frame_at r.now after_frame
    else after_frame

-- `completionGraceWindow`, 0 where there is no deadline.
unfoldable pub completion_grace_window : Bool → Relay → Bool → Bool → ℕ
completion_grace_window overlap_busy r delivered_user_text completed_without_text =
    if not delivered_user_text && not completed_without_text
    then 0
    else if not_empty r.text_out_queue || r.waiting_tool || r.basic_running
    then 0
    else if delivered_user_text
    then 1200
    else if overlap_busy
    then 1000
    else 250
