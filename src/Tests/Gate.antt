-- ===== src/Tests/Gate.antt =====
-- Runs of the theorems on the message gate of bridge/relay/relay.go.
use claw.Prelude.{List, none, false, true, [], ◌∷◌, ◌≡◌, refl}
use claw.Serial.Frame.{Frame, frame_ack, frame_user}
use claw.Relay.Waiters.{Channels, route_frames}
use claw.Relay.Waiters.Served.{IsServed, route_frames-IsServed}
use claw.Relay.Message.Stream.{Answers, entered, lost}
use claw.Relay.Accept.{mem_id}
use claw.Relay.Gate.{
  Gate, free_gate, acquire, release, give_up, remove, Reach, here, next, acquires, releases,
}
use claw.Relay.Gate.Exclusion.{IsExclusive, Reach-IsExclusive, give_up_granted}
use claw.Relay.Message.{route}
use claw.Relay.Message.Wire.{IsRight, route-IsRight}
use claw.Relay.State.{Relay}
use claw.Tests.Data.{at_rest}

-- The first call holds the gate, the second one waits and is handed it.
abbrev handed : Gate
handed = release 1 (acquire 2 (acquire 1 free_gate))

handed-Reach : Reach free_gate handed
unfolding acquire release mem_id remove
handed-Reach = next (next (next here (acquires 1 _)) (acquires 2 _)) (releases 1 _ refl)

Reach-IsExclusive_example : IsExclusive handed
Reach-IsExclusive_example = Reach-IsExclusive handed-Reach

give_up_granted_example :
    ((acquire 3 (give_up 2 handed)).busy ≡ true) × ((acquire 3 (give_up 2 handed)).holders ≡ [])
unfolding acquire release mem_id remove
give_up_granted_example = give_up_granted 2 handed-Reach refl (next here (acquires 3 _))

-- A handler is in the gate, and its program runs.
abbrev one_in : Gate
one_in = record free_gate { busy = true; holders = 1 ∷ [] }

abbrev running : Relay
running = record at_rest { basic_running = true }

route-IsRight_example : IsRight one_in false running (route one_in false running)
route-IsRight_example = route-IsRight one_in false running

-- Two ACKs, one of which is waited for, and a USER frame.
abbrev three_frames : List Frame
three_frames =
    (record { kind = frame_ack; payload = 5 ∷ [] })
    ∷ (record { kind = frame_ack; payload = 6 ∷ [] })
    ∷ (record { kind = frame_user; payload = [] })
    ∷ []

abbrev one_waits : Channels
one_waits = record { waiters = (5, none) ∷ []; acks = []; frames = [] }

route_frames-IsServed_example :
    IsServed three_frames one_waits (route_frames three_frames one_waits)
route_frames-IsServed_example = route_frames-IsServed three_frames one_waits

-- The overlapping path.
abbrev overlaps : Answers
overlaps = record {
  at_capacity = false;
  can_overlap = true;
  gate_at_once = false;
  running_blocked = false;
  overlap_at_once = true;
  lane = entered;
  room = true;
  gate = lost;
  sent = true;
  overlap_sent = true;
  looped = true;
}

-- Three calls, of which the second gives up in the queue and the third is handed the gate.
abbrev third_in : Gate
third_in = release 1 (give_up 2 (acquire 3 (acquire 2 (acquire 1 free_gate))))
