-- ===== src/Relay/Accept/Quiet.antt =====
-- bridge/relay/relay.go: the quiet windows that `settlePendingAcksLocked` keeps before every frame
-- to the Commodore but an ACK.
use claw.Prelude.{ℕ, ◌+◌, ◌≤◌, true, Option, none, some, [], ◌≡◌, ◌⊎◌}
use claw.Relay.State.{Relay}

-- The clock stands `window` or more behind this moment, if there is one.
abbrev pub Past : ℕ → Option ℕ → Relay → Type 0
Past window none r = Unit
Past window (some t) r = t + window ≤ r.now

-- What a quiet line is: nothing is owed, the last ACK is 800 ms ago, and while BASIC runs 3 s, with
-- the Commodore's last frame 1 s ago.
pub record IsQuiet (r : Relay) : Type 0 where
  pub none_owed : r.pending_acks ≡ []
  pub after_ack : Past 800 r.last_ack_sent_at r
  pub running_after_ack : r.basic_running ≡ true → Past 3000 r.last_ack_sent_at r
  pub running_after_frame :
      r.basic_running ≡ true → r.last_ack_sent_at ≡ none ⊎ Past 1000 r.last_c64_frame_at r
