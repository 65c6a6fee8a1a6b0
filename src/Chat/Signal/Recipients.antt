-- ===== src/Chat/Signal/Recipients.antt =====
-- To whom bridge/chat/signal.go sends, by subprocess and by JSON-RPC.
use claw.Prelude.{
  Bool, true, false, not, List, [], ◌∷◌, ◌++◌, ◌≡◌, inl, inr, refl, sym, Bytes, codes, has_prefix,
  Bool-cases, if◌then◌else◌,
}
use claw.Chat.Signal.{
  SignalChannel, signal_user_prefix, signal_group_prefix, append_signal_recipient, base_args,
  signal_send_args, signal_typing_args, Recipient, group_id, recipients, signal_rpc_recipient,
  signal_message_params, signal_typing_params,
}

-- The arguments that name a recipient of the JSON-RPC parameters.
abbrev pub recipient_args : Recipient → List Bytes
recipient_args (group_id g) = codes "--group-id" ∷ g ∷ []
recipient_args (recipients to) = to

abbrev pub stop_args : Bool → List Bytes
stop_args true = codes "--stop" ∷ []
stop_args false = []

append-recipient :
    (args : List Bytes) (user : Bytes)
    → append_signal_recipient args user ≡ args ++ recipient_args (signal_rpc_recipient user)
unfolding append_signal_recipient signal_rpc_recipient
append-recipient args user = elim (Bool-cases (has_prefix user signal_group_prefix)) [
  | inl g ↦ rw g refl
  | inr n ↦ elim (Bool-cases (has_prefix user signal_user_prefix)) [
    | inl u ↦ rw (n, u) refl
    | inr m ↦ rw (n, m) refl
  ]
]

typing-stop :
    (active : Bool) → (if active then [] else codes "--stop" ∷ []) ≡ stop_args (not active)
typing-stop true = refl
typing-stop false = refl

-- The subprocess is told the same recipient as a JSON-RPC call, and of typing the same end.
pub signal_send_args-signal_message_params :
    (s : SignalChannel) (user text : Bytes) (active : Bool)
    → (signal_send_args s user
        ≡ (base_args s ++ (codes "send" ∷ codes "--message-from-stdin" ∷ []))
          ++ recipient_args (signal_message_params user text).recipient)
      × (let p = signal_typing_params user active in
          signal_typing_args s user active
          ≡ (base_args s ++ (codes "sendTyping" ∷ stop_args p.stop)) ++ recipient_args p.recipient)
unfolding signal_send_args signal_typing_args signal_message_params signal_typing_params
signal_send_args-signal_message_params s user text active = (
  append-recipient (base_args s ++ (codes "send" ∷ codes "--message-from-stdin" ∷ [])) user,
  rw (sym (typing-stop active)) (
      append-recipient
        (base_args s ++ (codes "sendTyping" ∷ (if active then [] else codes "--stop" ∷ []))) user),
)
