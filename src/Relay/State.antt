-- ===== src/Relay/State.antt =====
-- bridge/relay/relay.go: the state of the relay, and what its environment supplies.
-- Every operation runs on a schedule, which says what each `select` of the receive functions
-- returns, in order. Time is in milliseconds; it passes in `time.Sleep`, on the wire, in the timer
-- of a status poll and while a `select` waits.
use claw.Prelude.{ℕ, ◌+◌, Bool, Option, List, Bytes}
use claw.Relay.History.{ToolName, Message, History}
use claw.Serial.Frame.{Frame}

-- A `queuedFrame`.
pub record Queued : Type 0 where
  pub frame : Frame
  pub accepted : Bool

-- A frame handed to `Link.Send`, and when.
pub record Sent : Type 0 where
  pub frame : Frame
  pub at : ℕ

-- Chunks by index, a map with one entry for each key. A nil map reads as an empty one.
abbrev pub Chunks : Type 0
Chunks = List (ℕ × Bytes)

-- The delivery names of the senders.
pub data Name : Type 0 where
  msg exec text done screenshot status stop : Name

pub record Relay : Type 0 where
  pub history : History
  pub system_prompt : Bytes
  pub prompt_chunks : Chunks
  pub result_chunks : Chunks
  pub text_buf : Bytes
  pub text_out_queue : Bytes
  pub text_in_flight : Bytes
  pub tool_in_flight : Bytes
  pub waiting_tool : Bool
  pub last_tool_call_id : Bytes
  pub last_tool_name : Option ToolName
  pub basic_running : Bool
  pub completion_drain : Bool
  pub text_drain_pending : Bool
  pub next_tx_id : ℕ
  pub rx_last_id : ℕ
  pub rx_last_type : ℕ
  pub pending_acks : List ℕ
  pub pending_frames : List Queued
  pub late_ack_ids : List ℕ
  pub last_ack_sent_at : Option ℕ
  pub last_c64_frame_at : Option ℕ
  -- The clock, the frames sent so far (the newest first), the texts given to `emit` (likewise) and
  -- the number of LLM calls made.
  pub now : ℕ
  pub sent : List Sent
  pub emitted : List Bytes
  pub llm_calls : ℕ

-- A context ends by its deadline or by cancellation.
pub data Ended : Type 0 where
  deadline_exceeded cancelled : Ended

-- What one call of a receive function meets: the context has ended before (`ended`), ends while
-- the call waits, the link fails, or a frame arrives. The number is the time that the wait takes.
-- A stall timeout in the `select` only writes a dump, and is no step of a schedule.
pub data Arrival : Type 0 where
  ended : Ended → Arrival
  expires : ℕ → Ended → Arrival
  fails : ℕ → Arrival
  arrives : ℕ → Frame → Arrival

abbrev pub Schedule : Type 0
Schedule = List Arrival

pub data Error : Type 0 where
  context_error : Ended → Error
  unsettled recv_error send_error llm_error no_soul emit_error : Error
  unexpected_frame : ℕ → Error
  not_verified : Name → Error
  out_of_fuel : Error

-- `json.Unmarshal` of a tool's arguments into `basicExecArgs`: the command, or the error's text.
pub data Args : Type 0 where
  parsed refused : Bytes → Args

-- The code that is not the relay's: `Link.Send` by the number of frames sent before (`some n` is
-- an error after n bytes), the LLM by the number of calls before (`none` is an error), `emit`
-- (false is an error), `json.Unmarshal`, and whether another handler waits at the message gate.
pub record Env : Type 0 where
  pub link : ℕ → Option ℕ
  pub complete : ℕ → List Message → Option Message
  pub emit : Bytes → Bool
  pub unmarshal : Bytes → Args
  pub queued_waiter : Relay → Bool

pub data Result (A : Type 0) : Type 0 where
  ok : A → Result A
  err : Error → Result A

-- The end of a run: its result, the schedule that is left, and the state.
pub record Run (A : Type 0) : Type 0 where
  pub result : Result A
  pub left : Schedule
  pub relay : Relay

abbrev pub M : Type 0 → Type 0
M A = Schedule → Relay → Run A

unfoldable pub pure : {A : Type 0} → A → M A
pure a sch r = record { result = ok a; left = sch; relay = r }

unfoldable pub fail : {A : Type 0} → Error → M A
fail e sch r = record { result = err e; left = sch; relay = r }

abbrev pub bind_result : {A B : Type 0} → Result A → (A → M B) → M B
bind_result (ok a) f sch r = f a sch r
bind_result (err e) f sch r = record { result = err e; left = sch; relay = r }

infixl 5 ◌>>=◌ ◌>>◌
unfoldable pub ◌>>=◌ : {A B : Type 0} → M A → (A → M B) → M B
◌>>=◌ m f sch r = let s = m sch r in bind_result s.result f s.left s.relay

unfoldable pub ◌>>◌ : {B : Type 0} → M (Unit {0}) → M B → M B
◌>>◌ m k sch r = let s = m sch r in bind_result s.result (λ _. k) s.left s.relay

unfoldable pub state : M Relay
state sch r = record { result = ok r; left = sch; relay = r }

unfoldable pub modify : (Relay → Relay) → M (Unit {0})
modify f sch r = record { result = ok tt; left = sch; relay = f r }

-- The monad's operations are shut: proofs go by the rules of Relay/Rules.
-- `if err := m; err != nil { … } else { … }`
abbrev pub catch_result : {A B : Type 0} → Result A → (A → M B) → (Error → M B) → M B
catch_result (ok a) f h = f a
catch_result (err e) f h = h e

unfoldable pub catch : {A B : Type 0} → M A → (A → M B) → (Error → M B) → M B
catch m f h sch r = let s = m sch r in catch_result s.result f h s.left s.relay

-- `time.Sleep`
abbrev pub sleep : ℕ → Relay → Relay
sleep ms r = record r { now = r.now + ms }
