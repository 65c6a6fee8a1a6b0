-- ===== src/Chat/Signal/Filter.antt =====
-- Which messages bridge/chat/signal.go hands on.
use claw.Prelude.{
  true, false, some, ◌≡◌, inl, inr, arith, Bytes, is_nil, same_text, has_prefix, trim_space,
  Bool-cases,
}
use claw.Prelude.Text.Trims.{same_text_iff}
use claw.Chat.Trigger.{joystick_trigger, strip_joystick_trigger}
use claw.Chat.Trigger.Marks.{Marked, strip_trigger-Marked}
use claw.Chat.Signal.{signal_group_prefix, signal_incoming_text, SignalEvent, signal_on_event}

-- What the handler is given: a message of the target, trimmed and not blank; in a group, what is
-- said behind the trigger.
pub data HandedOn (target : Bytes) (evt : SignalEvent) (said : Bytes) : Type 0 where
  in_group :
      has_prefix target signal_group_prefix ≡ true
      → Marked joystick_trigger (trim_space evt.text) said
      → HandedOn target evt said
  direct :
      has_prefix target signal_group_prefix ≡ false
      → said ≡ trim_space evt.text
      → is_nil said ≡ false
      → HandedOn target evt said

signal_incoming_text-HandedOn :
    (target : Bytes) (evt : SignalEvent) (said : Bytes)
    → signal_incoming_text target evt.text ≡ some said
    → HandedOn target evt said
unfolding signal_incoming_text strip_joystick_trigger
signal_incoming_text-HandedOn target evt said h = elim (Bool-cases (is_nil (trim_space evt.text))) [
  | inl blank ↦ absurd ground arith
  | inr full ↦ elim (Bool-cases (has_prefix target signal_group_prefix)) [
    | inl g ↦
        in_group g
          ((strip_trigger-Marked joystick_trigger (trim_space evt.text) said).0 (ground arith))
    | inr d ↦ direct d (ground arith) (ground arith)
  ]
]

-- The handler is given messages of the target only, and of a group only those with the trigger.
pub signal_on_event-HandedOn :
    (target : Bytes) (evt : SignalEvent) (said : Bytes)
    → signal_on_event target evt ≡ some said
    → (evt.user_id ≡ target) × HandedOn target evt said
unfolding signal_on_event
signal_on_event-HandedOn target evt said h = elim (Bool-cases (same_text evt.user_id target)) [
  | inl e ↦ (
    (same_text_iff evt.user_id target).0 e,
    signal_incoming_text-HandedOn target evt said (ground arith),
  )
  | inr e ↦ absurd ground arith
]
