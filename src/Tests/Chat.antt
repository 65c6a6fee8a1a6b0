-- ===== src/Tests/Chat.antt =====
-- Runs of the theorems on bridge/chat at concrete messages.
use claw.Prelude.{
  true, false, none, some, [], ◌≡◌, ◌↔◌, refl, arith, codes, same_text, List, ◌∷◌, Bytes,
  if◌then◌else◌,
}
use claw.Llm.Host.{ok, err}
use claw.Chat.Trigger.{slack_joystick_trigger, strip_trigger}
use claw.Chat.Trigger.Marks.{Marked, strip_trigger-Marked}
use claw.Chat.Signal.{SignalEvent, Envelope, SignalJson}
use claw.Chat.Signal.Rpc.{
  SignalRpc, RawId, new_rpc, start_call, dispatch_response, start, later, starts, reads,
}
use claw.Chat.Signal.Rpc.Reader.{line, call, RpcInput}
use claw.Chat.Signal.Rpc.Answers.{IsAnsweredOnce, RpcReach-IsAnsweredOnce}
use claw.Chat.Slack.{Resolver, resolve_slack_target}
use claw.Chat.Slack.Targets.{thread_link, IsLink, resolve_slack_target-thread_link}

strip_trigger-Marked_example :
    (strip_trigger slack_joystick_trigger (codes ":joystick: hi ") ≡ some (codes "hi"))
    ↔ Marked slack_joystick_trigger (codes ":joystick: hi ") (codes "hi")
strip_trigger-Marked_example =
    strip_trigger-Marked slack_joystick_trigger (codes ":joystick: hi ") (codes "hi")

-- A message in a group.
abbrev in_group_g : Envelope
in_group_g = record {
  source = codes "u";
  source_number = codes "+2";
  data_message = some (record { message = codes " hi"; group = some (codes "g") });
  is_sync = false;
}

abbrev json : SignalJson
json = record {
  unmarshal_line = λ line. none;
  unmarshal_params = λ raw. none;
  unmarshal_envelope = λ line. some in_group_g;
}

abbrev from_group_g : SignalEvent
from_group_g = record { user_id = codes "group:g"; text = codes "hi" }

-- A call that is answered.
abbrev answered_rpc : SignalRpc
answered_rpc = (dispatch_response (RawId.number 1) (start_call true new_rpc)).1

RpcReach-IsAnsweredOnce_example : IsAnsweredOnce answered_rpc
RpcReach-IsAnsweredOnce_example =
    RpcReach-IsAnsweredOnce
      (later (later start (starts true new_rpc)) (reads (RawId.number 1) (start_call true new_rpc)))

abbrev no_resolver : Resolver
no_resolver = record {
  resolve_user_channel = λ name. err [];
  resolve_channel_by_name = λ name. err [];
}

-- A short link.
short-IsLink : IsLink (codes "h") (codes "C1") (codes "1") (codes "000000")
unfolding same_text
short-IsLink = record {
  host_plain = ground arith;
  host_other = refl;
  ch_plain = ground arith;
  ch_there = refl;
  secs_plain = ground arith;
  secs_there = refl;
  micros_plain = ground arith;
  micros_six = refl;
}

resolve_slack_target-thread_link_example :
    resolve_slack_target no_resolver
      (thread_link (codes "h") (codes "C1") (codes "1") (codes "000000"))
    ≡ ok (record {
      id = codes "C1";
      thread_ts = codes "1.000000";
      display = thread_link (codes "h") (codes "C1") (codes "1") (codes "000000");
    })
resolve_slack_target-thread_link_example =
    resolve_slack_target-thread_link no_resolver (codes "h") (codes "C1") (codes "1")
      (codes "000000") short-IsLink

-- A message in a group, a call, and its response.
abbrev three_inputs : List RpcInput
three_inputs = line (codes "{}") ∷ call true ∷ line [] ∷ []

abbrev ids : Bytes → RawId
ids raw =
    if same_text raw []
    then RawId.number 1
    else if same_text raw (codes "2")
    then RawId.number 2
    else RawId.missing
