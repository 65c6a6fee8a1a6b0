-- ===== src/Chat/Signal.antt =====
-- bridge/chat/signal.go: the messages that come in, and the recipients of those that go out.
-- JSON is data; `json.Unmarshal` is a parameter, and `none` its error.
pub mod Recipients
pub mod Announced
pub mod Filter
pub mod Rpc
use claw.Prelude.{
  ℕ, Bool, true, false, not, ◌&&◌, ◌||◌, Option, none, some, List, [], ◌∷◌, ◌++◌, Bytes, codes,
  if◌then◌else◌, is_nil, same_text, has_prefix, trim_prefix, trim_space,
}
use claw.Chat.Trigger.{strip_joystick_trigger}

abbrev pub signal_user_prefix : Bytes
signal_user_prefix = codes "user:"

abbrev pub signal_group_prefix : Bytes
signal_group_prefix = codes "group:"

-- `NewSignal`, without the running subprocess.
pub record SignalChannel : Type 0 where
  pub account : Bytes
  pub config : Bytes
  pub target : Bytes

unfoldable pub format_signal_message : Bytes → Bytes
format_signal_message text = trim_space text

unfoldable pub signal_incoming_text : Bytes → Bytes → Option Bytes
signal_incoming_text target text =
    let t = trim_space text in
    if is_nil t
    then none
    else if has_prefix target signal_group_prefix
    then strip_joystick_trigger t
    else some t

unfoldable pub append_signal_recipient : List Bytes → Bytes → List Bytes
append_signal_recipient args user =
    if has_prefix user signal_group_prefix
    then args ++ (codes "--group-id" ∷ trim_prefix user signal_group_prefix ∷ [])
    else if has_prefix user signal_user_prefix
    then args ++ (trim_prefix user signal_user_prefix ∷ [])
    else args ++ (user ∷ [])

unfoldable pub base_args : SignalChannel → List Bytes
base_args s =
    (if not (is_nil s.config) then codes "--config" ∷ s.config ∷ [] else [])
    ++ ((codes "--output" ∷ codes "json" ∷ [])
        ++ (if not (is_nil s.account) then codes "--account" ∷ s.account ∷ [] else []))

-- The arguments of the subprocess that `Send` runs without a JSON-RPC connection.
unfoldable pub signal_send_args : SignalChannel → Bytes → List Bytes
unfolding base_args append_signal_recipient
signal_send_args s user =
    append_signal_recipient (base_args s ++ (codes "send" ∷ codes "--message-from-stdin" ∷ [])) user

unfoldable pub signal_typing_args : SignalChannel → Bytes → Bool → List Bytes
unfolding base_args append_signal_recipient
signal_typing_args s user active =
    append_signal_recipient
      (base_args s ++ (codes "sendTyping" ∷ (if active then [] else codes "--stop" ∷ []))) user

-- The entry `groupId` or `recipient` of the parameters.
pub data Recipient : Type 0 where
  group_id : Bytes → Recipient
  recipients : List Bytes → Recipient

-- The parameters of a call, with the entries that are there.
pub record Params : Type 0 where
  pub message : Option Bytes
  pub stop : Bool
  pub recipient : Recipient

unfoldable pub signal_rpc_recipient : Bytes → Recipient
signal_rpc_recipient user =
    if has_prefix user signal_group_prefix
    then group_id (trim_prefix user signal_group_prefix)
    else if has_prefix user signal_user_prefix
    then recipients (trim_prefix user signal_user_prefix ∷ [])
    else recipients (user ∷ [])

unfoldable pub signal_message_params : Bytes → Bytes → Params
unfolding signal_rpc_recipient
signal_message_params user text = record {
  message = some (format_signal_message text);
  stop = false;
  recipient = signal_rpc_recipient user;
}

unfoldable pub signal_typing_params : Bytes → Bool → Params
unfolding signal_rpc_recipient
signal_typing_params user active = record {
  message = none;
  stop = not active;
  recipient = signal_rpc_recipient user;
}

pub record SignalEvent : Type 0 where
  pub user_id : Bytes
  pub text : Bytes

-- `DataMessage`, with the ID of its group, if it has one.
pub record DataMessage : Type 0 where
  pub message : Bytes
  pub group : Option Bytes

pub record Envelope : Type 0 where
  pub source : Bytes
  pub source_number : Bytes
  pub data_message : Option DataMessage
  pub is_sync : Bool

-- A line's method and parameters; `none` are parameters without a byte.
pub record RpcLine : Type 0 where
  pub method : Bytes
  pub params : Option Bytes

pub record ReceiveParams : Type 0 where
  pub envelope : Option Envelope
  pub result : Option (Option Envelope)

pub record SignalJson : Type 0 where
  pub unmarshal_line : Bytes → Option RpcLine
  pub unmarshal_params : Bytes → Option ReceiveParams
  pub unmarshal_envelope : Bytes → Option Envelope

abbrev pub first_of : Bytes → Bytes → Bytes
first_of a b = if is_nil a then b else a

abbrev pub sender : Envelope → Option Bytes → Bytes
sender e none = signal_user_prefix ++ first_of e.source_number e.source
sender e (some group) =
    if is_nil group
    then signal_user_prefix ++ first_of e.source_number e.source
    else signal_group_prefix ++ group

abbrev pub event_from : Bytes → Bytes → Option SignalEvent
event_from text user_id =
    if is_nil text || same_text user_id signal_user_prefix
    then none
    else some (record { user_id = user_id; text = text })

abbrev pub event_of_message : Envelope → Option DataMessage → Option SignalEvent
event_of_message e none = none
event_of_message e (some m) = event_from (trim_space m.message) (sender e m.group)

-- The tests on an envelope, as both readers make them.
unfoldable pub event_of : Envelope → Option SignalEvent
event_of e = if e.is_sync then none else event_of_message e e.data_message

abbrev pub event_of_option : Option Envelope → Option SignalEvent
event_of_option none = none
event_of_option (some e) = event_of e

-- `env := params.Envelope; if env == nil && params.Result != nil { env = params.Result.Envelope }`
abbrev pub nested : Option (Option Envelope) → Option Envelope
nested none = none
nested (some e) = e

abbrev pub params_envelope : Option Envelope → Option (Option Envelope) → Option Envelope
params_envelope (some e) result = some e
params_envelope none result = nested result

module _ (json : SignalJson) where
  abbrev pub read_params : Option ReceiveParams → Option SignalEvent
  read_params none = none
  read_params (some p) = event_of_option (params_envelope p.envelope p.result)

  abbrev pub receive_params : Option Bytes → Option SignalEvent
  receive_params none = none
  receive_params (some raw) = read_params (json.unmarshal_params raw)

  abbrev pub notification : Option RpcLine → Option SignalEvent
  notification none = none
  notification (some msg) =
      if same_text msg.method (codes "receive") then receive_params msg.params else none

  unfoldable pub parse_signal_jsonrpc_notification : Bytes → Option SignalEvent
  unfolding event_of
  parse_signal_jsonrpc_notification line = notification (json.unmarshal_line line)

  abbrev pub or_envelope : Option SignalEvent → Bytes → Option SignalEvent
  or_envelope (some evt) line = some evt
  or_envelope none line = event_of_option (json.unmarshal_envelope line)

  unfoldable pub parse_signal_line : Bytes → Option SignalEvent
  unfolding parse_signal_jsonrpc_notification event_of
  parse_signal_line raw =
      let line = trim_space raw in
      if is_nil line then none else or_envelope (parse_signal_jsonrpc_notification line) line

-- `case evt := <-events`: the text for the handler, `none` where the event is passed over.
unfoldable pub signal_on_event : Bytes → SignalEvent → Option Bytes
unfolding signal_incoming_text
signal_on_event target evt =
    if same_text evt.user_id target then signal_incoming_text target evt.text else none
