-- ===== src/Chat/Signal/Rpc.antt =====
-- bridge/chat/signal.go: the calls that wait for a JSON-RPC response.
-- Each call has a channel of its own, of capacity one; the channels are numbered as they are made.
-- The mutex makes each operation one step.
pub mod Answers
pub mod Reader
use claw.Prelude.{
  ℕ, ◌+◌, ◌%◌, Bool, true, false, Option, none, some, List, [], ◌∷◌, ◌++◌, Bytes, if◌then◌else◌,
  same_text, ◌≡◌,
}
use Prim.Native.Nat.{◌^◌}
use claw.Relay.Events.{decimal}

-- `pending` is the map, with one binding for each key; `opened` counts the channels made so far,
-- and `answered` lists the channels that were sent a response, the newest first.
pub record SignalRpc : Type 0 where
  pub next_id : ℕ
  pub pending : List (Bytes × ℕ)
  pub opened : ℕ
  pub answered : List ℕ

-- `delete(r.pending, id)`
unfoldable pub delete_pending : Bytes → List (Bytes × ℕ) → List (Bytes × ℕ)
delete_pending id [] = []
delete_pending id ((k, ch) ∷ p) =
    let rest = delete_pending id p in if same_text k id then rest else (k, ch) ∷ rest

unfoldable pub find_pending : Bytes → List (Bytes × ℕ) → Option ℕ
find_pending id [] = none
find_pending id ((k, ch) ∷ p) =
    let rest = find_pending id p in if same_text k id then some ch else rest

abbrev pub next_of : SignalRpc → ℕ
next_of s = (s.next_id + 1) % 2 ^ 64

-- `call` up to its `select`; the flag says whether the line is written.
unfoldable pub start_call : Bool → SignalRpc → SignalRpc
unfolding delete_pending
start_call true s =
    let id = decimal (next_of s) in
    record s {
      next_id = next_of s;
      pending = (id, s.opened) ∷ delete_pending id s.pending;
      opened = s.opened + 1;
    }
start_call false s =
    let id = decimal (next_of s) in
    record s { next_id = next_of s; pending = delete_pending id s.pending; opened = s.opened + 1 }

-- `removePending`, where the context of a call ends.
unfoldable pub remove_pending : Bytes → SignalRpc → SignalRpc
unfolding delete_pending
remove_pending id s = record s { pending = delete_pending id s.pending }

-- A line's ID: a text, as which JSON also reads null, the empty one; a number of 64 bits; another
-- value; or none. Or the line is no JSON.
pub data RawId : Type 0 where
  text : Bytes → RawId
  number : ℕ → RawId
  other missing no_json : RawId

unfoldable pub decode_jsonrpc_id : RawId → Option Bytes
decode_jsonrpc_id (text s) = some s
decode_jsonrpc_id (number n) = some (decimal n)
decode_jsonrpc_id other = none
decode_jsonrpc_id missing = none
decode_jsonrpc_id no_json = none

abbrev pub sent_to : Option ℕ → List ℕ → List ℕ
sent_to none chs = chs
sent_to (some ch) chs = ch ∷ chs

abbrev pub respond : Option Bytes → SignalRpc → Bool × SignalRpc
respond none s = (false, s)
respond (some id) s = (
  true,
  record s {
    pending = delete_pending id s.pending;
    answered = sent_to (find_pending id s.pending) s.answered;
  },
)

-- `dispatchResponse`; the result says whether the line was a response.
unfoldable pub dispatch_response : RawId → SignalRpc → Bool × SignalRpc
unfolding decode_jsonrpc_id delete_pending find_pending
dispatch_response raw s = respond (decode_jsonrpc_id raw) s

abbrev pub channels : List (Bytes × ℕ) → List ℕ
channels [] = []
channels ((k, ch) ∷ p) = ch ∷ channels p

-- `closePending`
unfoldable pub close_pending : SignalRpc → SignalRpc
close_pending s = record s { pending = []; answered = channels s.pending ++ s.answered }

abbrev pub new_rpc : SignalRpc
new_rpc = record { next_id = 0; pending = []; opened = 0; answered = [] }

pub data RpcStep : SignalRpc → SignalRpc → Type 0 where
  starts : (written : Bool) (s : SignalRpc) → RpcStep s (start_call written s)
  gives_up : (id : Bytes) (s : SignalRpc) → RpcStep s (remove_pending id s)
  reads : (raw : RawId) (s : SignalRpc) → RpcStep s (dispatch_response raw s).1
  closes : (s : SignalRpc) → RpcStep s (close_pending s)

pub data RpcReach : SignalRpc → Type 0 where
  start : RpcReach new_rpc
  later : {s t : SignalRpc} → RpcReach s → RpcStep s t → RpcReach t
