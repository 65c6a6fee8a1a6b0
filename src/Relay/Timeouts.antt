-- ===== src/Relay/Timeouts.antt =====
-- bridge/relay/relay.go: the windows that depend on the relay or on a command, in milliseconds.
use claw.Prelude.{
  ℕ, ◌+◌, ◌*◌, ◌/◌, ◌≤◌, Bool, ◌||◌, arith, ltb, if◌then◌else◌, Bytes, codes, same_text,
}
use claw.Relay.State.{Relay}

-- `execAckTimeoutFor`
unfoldable pub exec_ack_timeout_for : ℕ → ℕ
exec_ack_timeout_for command_bytes =
    let timeout = 5000 + (command_bytes / 4) * 1000 in
    if ltb timeout 5000 then 5000 else if ltb 25000 timeout then 25000 else timeout

-- `frameWaitTimeout`; 0 stands for no timeout.
unfoldable pub frame_wait_timeout : Bool → Relay → ℕ
frame_wait_timeout waiting_text_ack r =
    if waiting_text_ack
    then 7000
    else if r.waiting_tool
    then 5000
    else if r.basic_running
    then 0
    else 12000

unfoldable pub is_expected_status : Bytes → Bool
is_expected_status status =
    same_text status (codes "RUNNING")
    || same_text status (codes "READY")
    || same_text status (codes "READY.")
    || same_text status (codes "STORED")
    || same_text status (codes "BUSY")
    || same_text status (codes "STOP REQUESTED")
    || same_text status (codes "UNKNOWN")

-- A longer command never has a shorter window, which is from 5 s to 25 s.
pub exec_ack_timeout_for_mono :
    (m n : ℕ)
    → m ≤ n
    → (exec_ack_timeout_for m ≤ exec_ack_timeout_for n)
      × (5000 ≤ exec_ack_timeout_for m)
      × (exec_ack_timeout_for m ≤ 25000)
unfolding exec_ack_timeout_for
exec_ack_timeout_for_mono m n h = ground (arith, h)
