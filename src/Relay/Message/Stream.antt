-- ===== src/Relay/Message/Stream.antt =====
-- bridge/relay/relay.go, `HandleMessageStream`: the locks that it takes and what it does in them.
-- Each test and each call that may fail has an answer; the acts are what the call then does.
use claw.Prelude.{
  Bool, true, false, not, ◌||◌, ◌&&◌, Option, none, some, List, [], ◌∷◌, ◌++◌, ◌≡◌, if◌then◌else◌,
}

-- What `acquireMessageGate` and `acquireOverflowLane` give: the lock; the context's error, with the
-- call off the queue; or the context's error where the lock had been handed to the call already,
-- which the `select` may choose and which leaves the lock busy.
pub data Acquired : Type 0 where
  entered gave_up lost : Acquired

-- The tests `overlapQueueAtCapacity`, `canSendOverlappingMessage`, `tryAcquireMessageGate`,
-- `basicRunning && !canStartRunningOverlap` and `tryAcquireOverlapSend`, what `acquireOverflowLane`
-- and `acquireMessageGate` give, and whether there is no error from `waitForOverlapQueueRoom`,
-- `sendMSG`, `sendOverlappingMSG` and `eventLoop`. No path makes one of them twice.
pub record Answers : Type 0 where
  pub at_capacity : Bool
  pub can_overlap : Bool
  pub gate_at_once : Bool
  pub running_blocked : Bool
  pub overlap_at_once : Bool
  pub lane : Acquired
  pub room : Bool
  pub gate : Acquired
  pub sent : Bool
  pub overlap_sent : Bool
  pub looped : Bool

-- A lock that is not acquired is no act, but one that is lost is; `sends` and `loops` are, also where they fail.
pub data Act : Type 0 where
  acquires_lane releases_lane loses_lane loses_gate acquires_gate releases_gate takes_overlap
        releases_overlap :
      Act
  sends sends_overlapping loops : Act

pub data MessageError : Type 0 where
  lane_error room_error gate_error send_error overlap_error loop_error : MessageError

pub record Done : Type 0 where
  pub acts : List Act
  pub error : Option MessageError

abbrev pub loop_end : Bool → Option MessageError
loop_end true = none
loop_end false = some loop_error

-- `sendMSG` and the event loop.
abbrev pub send_and_loop : Answers → Done
send_and_loop a =
    if a.sent
    then record { acts = sends ∷ loops ∷ []; error = loop_end a.looped }
    else record { acts = sends ∷ []; error = some send_error }

-- What stands between a lock and its deferred release.
abbrev pub between : Act → Done → Act → Done
between lock d unlock = record d { acts = lock ∷ (d.acts ++ (unlock ∷ [])) }

-- A call that ends with an error, behind these acts.
abbrev pub ends_with : List Act → MessageError → Done
ends_with acts e = record { acts = acts; error = some e }

-- By what `acquireMessageGate` gives: the message and the loop, and the deferred release.
abbrev pub in_gate : Acquired → Answers → Done
in_gate entered a = between acquires_gate (send_and_loop a) releases_gate
in_gate gave_up a = ends_with [] gate_error
in_gate lost a = ends_with (loses_gate ∷ []) gate_error

abbrev pub through_gate : Answers → Done
through_gate a = in_gate a.gate a

abbrev pub in_lane : Acquired → Answers → Done
in_lane entered a =
    between acquires_lane (if a.room then through_gate a else ends_with [] room_error) releases_lane
in_lane gave_up a = ends_with [] lane_error
in_lane lost a = ends_with (loses_lane ∷ []) lane_error

abbrev pub through_lane : Answers → Done
through_lane a = in_lane a.lane a

-- Behind the overlapping message.
abbrev pub behind_overlap : Acquired → Answers → Done
behind_overlap entered a = record {
  acts =
      takes_overlap ∷ sends_overlapping ∷ acquires_gate ∷ releases_overlap ∷ loops ∷ releases_gate
      ∷ [];
  error = loop_end a.looped;
}
behind_overlap gave_up a =
    ends_with (takes_overlap ∷ sends_overlapping ∷ releases_overlap ∷ []) gate_error
behind_overlap lost a =
    ends_with (takes_overlap ∷ sends_overlapping ∷ loses_gate ∷ releases_overlap ∷ []) gate_error

abbrev pub overlapped : Answers → Done
overlapped a =
    if not a.overlap_sent
    then ends_with (takes_overlap ∷ sends_overlapping ∷ releases_overlap ∷ []) overlap_error
    else behind_overlap a.gate a

unfoldable pub handle_message_stream : Answers → Done
handle_message_stream a =
    if a.at_capacity
    then through_lane a
    else if not a.can_overlap
    then through_gate a
    else if a.gate_at_once
    then between acquires_gate (send_and_loop a) releases_gate
    else if a.running_blocked
    then through_gate a
    else if not a.overlap_at_once
    then through_gate a
    else overlapped a

-- What a call holds, whether its message was handed to the link, and whether it left a lock busy
-- that had been handed to it.
pub record Locks : Type 0 where
  pub lane : Bool
  pub gate : Bool
  pub overlap : Bool
  pub message : Bool
  pub lost : Bool

abbrev pub holding : Bool → Bool → Locks
holding m l = record { lane = false; gate = false; overlap = false; message = m; lost = l }

abbrev pub allowed : Bool → Locks → Option Locks
allowed true l = some l
allowed false l = none

-- A lock is taken once and released once, the lane before the gate; a message is sent once, in the
-- gate or, overlapping, in the overlap and outside the gate; the loop runs in the gate, outside the
-- overlap and behind the message. Behind a lock that was lost only releases follow.
abbrev pub act : Act → Locks → Option Locks
act acquires_lane l = allowed (not l.lane && not l.gate && not l.lost) (record l { lane = true })
act releases_lane l = allowed (l.lane && not l.gate) (record l { lane = false })
act loses_lane l = allowed (not l.lane && not l.gate && not l.lost) (record l { lost = true })
act loses_gate l = allowed (not l.gate && not l.lost) (record l { lost = true })
act acquires_gate l = allowed (not l.gate && not l.lost) (record l { gate = true })
act releases_gate l = allowed l.gate (record l { gate = false })
act takes_overlap l =
    allowed (not l.overlap && not l.gate && not l.lost) (record l { overlap = true })
act releases_overlap l = allowed l.overlap (record l { overlap = false })
act sends l = allowed (l.gate && not l.message) (record l { message = true })
act sends_overlapping l =
    allowed (l.overlap && not l.gate && not l.message && not l.lost) (record l { message = true })
act loops l = allowed (l.gate && not l.overlap && l.message) l

abbrev pub then_act : List Act → Option Locks → Option Locks
then_act [] l = l
then_act (a ∷ more) none = none
then_act (a ∷ more) (some l) = then_act more (act a l)

abbrev pub is_error : Option MessageError → Bool
is_error none = false
is_error (some e) = true

abbrev pub tried_to_send : List Act → Bool
tried_to_send [] = false
tried_to_send (sends ∷ more) = true
tried_to_send (sends_overlapping ∷ more) = true
tried_to_send (a ∷ more) = tried_to_send more

-- Whether the error is one of the two locks'.
abbrev pub is_lock_error : Option MessageError → Bool
is_lock_error (some lane_error) = true
is_lock_error (some gate_error) = true
is_lock_error _ = false

abbrev pub loses_lock : List Act → Bool
loses_lock [] = false
loses_lock (loses_lane ∷ more) = true
loses_lock (loses_gate ∷ more) = true
loses_lock (a ∷ more) = loses_lock more

abbrev is_lost : Acquired → Bool
is_lost lost = true
is_lost _ = false

-- The acts keep to the order, and what is held behind them.
abbrev pub Holds : Answers → Type 0
Holds a =
    let d = handle_message_stream a in
    (then_act d.acts (some (holding false false))
      ≡ some (holding (tried_to_send d.acts) (loses_lock d.acts)))
    × (not (loses_lock d.acts) || (is_lock_error d.error && (is_lost a.lane || is_lost a.gate))
        ≡ true)
    × (tried_to_send d.acts || is_error d.error ≡ true)
