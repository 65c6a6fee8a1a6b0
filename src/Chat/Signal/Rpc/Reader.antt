-- ===== src/Chat/Signal/Rpc/Reader.antt =====
-- The loop over the lines of `runJSONRPC` of bridge/chat/signal.go, between whose rounds other
-- goroutines make calls.
use claw.Prelude.{Bool, true, false, Option, none, some, List, [], ◌∷◌, ◌++◌, Bytes, if◌then◌else◌}
use claw.Chat.Signal.{SignalEvent, SignalJson, parse_signal_line}
use claw.Chat.Signal.Rpc.{SignalRpc, RawId, new_rpc, start_call, remove_pending, dispatch_response}

-- A line that is read, a call, whose line is written or not, or the end of a call's context.
pub data RpcInput : Type 0 where
  line : Bytes → RpcInput
  call : Bool → RpcInput
  ended : Bytes → RpcInput

-- The pending calls and what was sent on `events`.
pub record Reader : Type 0 where
  pub rpc : SignalRpc
  pub events : List SignalEvent

-- The IDs that a response may have: a text, or null, which JSON reads as one, and a number.
abbrev pub may_answer : RawId → Bool
may_answer (RawId.text s) = true
may_answer (RawId.number n) = true
may_answer _ = false

-- What JSON makes of a line's ID is a parameter, as are its other parts.
module _ (id_of : Bytes → RawId) (json : SignalJson) where
  abbrev event_list : Option SignalEvent → List SignalEvent
  event_list none = []
  event_list (some e) = e ∷ []

  -- A line that is no response is parsed, and its event, if it has one, is sent.
  unfoldable pub read_line : Bytes → Reader → Reader
  read_line raw r =
      let (was_response, rpc') = dispatch_response (id_of raw) r.rpc in
      if was_response
      then record r { rpc = rpc' }
      else record { rpc = rpc'; events = r.events ++ event_list (parse_signal_line json raw) }

  unfoldable pub take_input : RpcInput → Reader → Reader
  take_input (line raw) r = read_line raw r
  take_input (call written) r = record r { rpc = start_call written r.rpc }
  take_input (ended id) r = record r { rpc = remove_pending id r.rpc }

  unfoldable pub run_jsonrpc : List RpcInput → Reader → Reader
  run_jsonrpc [] r = r
  run_jsonrpc (i ∷ inputs) r = run_jsonrpc inputs (take_input i r)

  -- The lines that are responses, and the events of the others.
  abbrev pub is_response : Bytes → Bool
  is_response raw = may_answer (id_of raw)

  abbrev pub events_in : List RpcInput → List SignalEvent
  events_in [] = []
  events_in (line raw ∷ inputs) =
      (if is_response raw then [] else event_list (parse_signal_line json raw)) ++ events_in inputs
  events_in (_ ∷ inputs) = events_in inputs

  abbrev pub new_reader : Reader
  new_reader = record { rpc = new_rpc; events = [] }
