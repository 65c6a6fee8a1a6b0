-- ===== src/Chat/WhatsApp.antt =====
-- bridge/chat/whatsapp.go: the messages that `onEvent` hands to the handler.
use claw.Prelude.{
  Bool, true, false, not, Option, none, some, ◌≡◌, inl, inr, arith, Bytes, codes, if◌then◌else◌,
  is_nil, same_text, has_suffix, trim_space, Bool-cases,
}
use claw.Prelude.Text.Trims.{same_text_iff}
use claw.Chat.Trigger.{joystick_trigger, strip_joystick_trigger}
use claw.Chat.Trigger.Marks.{Marked, strip_trigger-Marked}

-- A message: from whom, in which chat, its text, and that of its extended form, if it has one.
pub record WhatsAppMessage : Type 0 where
  pub is_from_me : Bool
  pub chat : Bytes
  pub conversation : Bytes
  pub extended : Option Bytes

-- The events are messages and others.
pub data WhatsAppEvent : Type 0 where
  message : WhatsAppMessage → WhatsAppEvent
  other : WhatsAppEvent

-- By `types.ParseJID`: whether the server of the JID is that of the groups; `none` is its error.
abbrev pub group_server : Option Bool → Bytes → Bool
group_server none jid = has_suffix jid (codes "@g.us")
group_server (some is_group) jid = is_group

abbrev pub or_extended : Bytes → Option Bytes → Bytes
or_extended text none = text
or_extended text (some t) = if is_nil text then t else text

module _ (parse_jid : Bytes → Option Bool) where
  unfoldable pub is_whatsapp_group_jid : Bytes → Bool
  is_whatsapp_group_jid jid = group_server (parse_jid jid) jid

  unfoldable pub whatsapp_incoming_text : Bytes → Bytes → Option Bytes
  unfolding is_whatsapp_group_jid
  whatsapp_incoming_text target text =
      let t = trim_space text in
      if is_nil t
      then none
      else if is_whatsapp_group_jid target
      then strip_joystick_trigger t
      else some t

  -- The text for the handler, whose user is the chat.
  unfoldable pub whatsapp_on_event : Bytes → WhatsAppEvent → Option Bytes
  unfolding whatsapp_incoming_text
  whatsapp_on_event target other = none
  whatsapp_on_event target (message m) =
      if m.is_from_me
      then none
      else if not (same_text m.chat target)
      then none
      else whatsapp_incoming_text target (or_extended m.conversation m.extended)

  -- What is handed on: a message of somebody else in the target chat.
  pub data Heard (target : Bytes) (m : WhatsAppMessage) (said : Bytes) : Type 0 where
    in_group :
        is_whatsapp_group_jid target ≡ true
        → Marked joystick_trigger (trim_space (or_extended m.conversation m.extended)) said
        → Heard target m said
    direct :
        is_whatsapp_group_jid target ≡ false
        → said ≡ trim_space (or_extended m.conversation m.extended)
        → is_nil said ≡ false
        → Heard target m said

  incoming_text-Heard :
      (target : Bytes) (m : WhatsAppMessage) (said : Bytes)
      → whatsapp_incoming_text target (or_extended m.conversation m.extended) ≡ some said
      → Heard target m said
  unfolding whatsapp_incoming_text strip_joystick_trigger
  incoming_text-Heard target m said h =
      elim (Bool-cases (is_nil (trim_space (or_extended m.conversation m.extended)))) [
        | inl blank ↦ absurd ground arith
        | inr full ↦ elim (Bool-cases (is_whatsapp_group_jid target)) [
          | inl g ↦ in_group g (
              (strip_trigger-Marked joystick_trigger
                  (trim_space (or_extended m.conversation m.extended)) said).0
                (ground arith))
          | inr d ↦ direct d (ground arith) (ground arith)
        ]
      ]

  -- The handler is given messages of others in the target chat only, trimmed and not blank, and of
  -- a group only those with the trigger.
  pub whatsapp_on_event-Heard :
      (target : Bytes) (m : WhatsAppMessage) (said : Bytes)
      → whatsapp_on_event target (message m) ≡ some said
      → (m.is_from_me ≡ false) × (m.chat ≡ target) × Heard target m said
  unfolding whatsapp_on_event
  whatsapp_on_event-Heard target m said h = elim (Bool-cases m.is_from_me) [
    | inl mine ↦ absurd ground arith
    | inr theirs ↦ elim (Bool-cases (same_text m.chat target)) [
      | inl e ↦ (
        theirs,
        (same_text_iff m.chat target).0 e,
        incoming_text-Heard target m said (ground arith),
      )
      | inr e ↦ absurd ground arith
    ]
  ]
