-- ===== src/Relay/Gate/Order/Fair.antt =====
-- Nobody overtakes at the gate of bridge/relay/relay.go, and nobody comes in but in his turn.
use claw.Prelude.{ℕ, List, All}
use claw.Relay.Gate.{Gate}
use claw.Relay.Gate.Order.{In}

-- Who is in the gate, or about to be, was let in.
abbrev pub Inside : Gate → List ℕ → Type 0
Inside g let_in = All (In let_in) g.granted × All (In let_in) g.holders
