-- ===== src/Chat/Signal/Announced.antt =====
-- The messages that bridge/chat/signal.go reads, and to whom their answers go.
use claw.Prelude.{false, none, some, [], ◌∷◌, ◌≡◌, ◌⊎◌, Bytes, codes, is_nil, trim_space}
use claw.Chat.Signal.{
  Recipient, group_id, recipients, signal_rpc_recipient, SignalEvent, DataMessage, Envelope,
  RpcLine, ReceiveParams, SignalJson, first_of,
}

-- Who an answer to a message goes to: its group, or the sender, by number where there is one.
pub data GoesTo (e : Envelope) (m : DataMessage) : Recipient → Type 0 where
  to_group : (g : Bytes) → m.group ≡ some g → is_nil g ≡ false → GoesTo e m (group_id g)
  to_sender :
      (x : Bytes)
      → x ≡ first_of e.source_number e.source
      → is_nil x ≡ false
      → GoesTo e m (recipients (x ∷ []))

pub record Announced (e : Envelope) (evt : SignalEvent) : Type 0 where
  pub data_message : DataMessage
  pub carried : e.data_message ≡ some data_message
  pub not_sync : e.is_sync ≡ false
  pub text : evt.text ≡ trim_space data_message.message
  pub not_blank : is_nil evt.text ≡ false
  pub answered : GoesTo e data_message (signal_rpc_recipient evt.user_id)

-- JSON reads the envelope from a line: as an envelope alone, or in the parameters of a `receive`
-- notification, there itself or in their result.
pub data ReadFrom (json : SignalJson) (line : Bytes) (e : Envelope) : Type 0 where
  alone : json.unmarshal_envelope line ≡ some e → ReadFrom json line e
  notified :
      (msg : RpcLine) (raw : Bytes) (p : ReceiveParams)
      → json.unmarshal_line line ≡ some msg
      → msg.method ≡ codes "receive"
      → msg.params ≡ some raw
      → json.unmarshal_params raw ≡ some p
      → (p.envelope ≡ some e) ⊎ ((p.envelope ≡ none) × (p.result ≡ some (some e)))
      → ReadFrom json line e

-- An event comes from an envelope that a line holds.
abbrev pub IsRead : SignalJson → Bytes → SignalEvent → Type 0
IsRead json line evt = (e : Envelope) × ReadFrom json line e × Announced e evt
