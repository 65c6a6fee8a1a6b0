-- ===== src/Cmd/Burnin.antt =====
-- cmd/claw64-bridge/burnin.go: the scenarios, the scripted LLM and what its steps are made of.
-- Texts are ASCII. An error says at which step what came; the words of its message are left out.
pub mod Moves
pub mod Results
pub mod Scripts
pub mod Overlap
pub mod Retries
use claw.Prelude.{
  ℕ, ◌+◌, Bool, true, false, ◌||◌, ◌&&◌, Option, none, some, List, [], ◌∷◌, ◌++◌, ◌==◌, ltb, leb,
  if◌then◌else◌, Bytes, codes, same_text, join,
}
use claw.Relay.Events.{decimal}
use claw.Relay.History.{Message, Role, assistant, system, user, tool, ToolCall, ToolName, exec}

-- The script: its scenario, its step, and the channels of `signals` with whether they are closed.
pub record ScriptedBurnin : Type 0 where
  pub scenario : Bytes
  pub step : ℕ
  pub signals : List (Bytes × Bool)

pub data Failure : Type 0 where
  at_step : ℕ → Bytes → Failure
  unexpected_step : ℕ → Failure
  after_runs : ℕ → ℕ → Failure
  unknown_scenario : Bytes → Failure

-- A message, the message without a role and a text, or an error.
pub data Answer : Type 0 where
  answer : Message → Answer
  empty_message : Answer
  failed : Failure → Answer

-- `signal`: a channel that is there is closed, once.
close_signal : Bytes → List (Bytes × Bool) → List (Bytes × Bool)
close_signal name [] = []
close_signal name ((n, closed) ∷ rest) = (n, closed || same_text n name) ∷ close_signal name rest

unfoldable pub signal : Bytes → ScriptedBurnin → ScriptedBurnin
unfolding close_signal
signal name s = record s { signals = close_signal name s.signals }

pub record BurninScenario : Type 0 where
  pub name : Bytes
  pub overlap_runs : ℕ

abbrev scenario_with : ℕ → Bytes → BurninScenario
scenario_with runs name = record { name = name; overlap_runs = runs }

abbrev pub burnin_scenarios : List BurninScenario
burnin_scenarios =
    scenario_with 0 (codes "stop-screen")
    ∷ scenario_with 0 (codes "screen-repeat")
    ∷ scenario_with 0 (codes "silent-completion")
    ∷ scenario_with 0 (codes "direct-exec")
    ∷ scenario_with 0 (codes "slow-exec")
    ∷ scenario_with 0 (codes "wraparound")
    ∷ scenario_with 2 (codes "overlap-msg")
    ∷ scenario_with 3 (codes "overlap-queue3")
    ∷ scenario_with 2 (codes "overlap-running2")
    ∷ scenario_with 3 (codes "overlap-running3")
    ∷ scenario_with 4 (codes "overlap-running4")
    ∷ scenario_with 5 (codes "overlap-running5")
    ∷ scenario_with 6 (codes "overlap-running6")
    ∷ scenario_with 7 (codes "overlap-running7")
    ∷ scenario_with 8 (codes "overlap-running8")
    ∷ scenario_with 10 (codes "overlap-running10")
    ∷ scenario_with 12 (codes "overlap-running12")
    ∷ scenario_with 14 (codes "overlap-running14")
    ∷ scenario_with 16 (codes "overlap-running16")
    ∷ scenario_with 20 (codes "overlap-running20")
    ∷ scenario_with 24 (codes "overlap-running24")
    ∷ []

abbrev pub burnin_gate_scenarios : List Bytes
burnin_gate_scenarios =
    codes "silent-completion"
    ∷ codes "direct-exec"
    ∷ codes "slow-exec"
    ∷ codes "wraparound"
    ∷ codes "overlap-running24"
    ∷ []

abbrev pub burnin_session_gate_scenarios : List Bytes
burnin_session_gate_scenarios = codes "direct-exec" ∷ codes "overlap-running24" ∷ []

is_listed : Bytes → List BurninScenario → Bool
is_listed scenario [] = false
is_listed scenario (b ∷ bs) = same_text scenario b.name || is_listed scenario bs

unfoldable pub supported_burnin_scenario : Bytes → Bool
unfolding is_listed
supported_burnin_scenario scenario =
    same_text scenario (codes "gate")
    || same_text scenario (codes "gate-session")
    || is_listed scenario burnin_scenarios

runs_in : Bytes → List BurninScenario → Option ℕ
runs_in scenario [] = none
runs_in scenario (b ∷ bs) =
    let rest = runs_in scenario bs in
    if same_text scenario b.name && ltb 0 b.overlap_runs then some b.overlap_runs else rest

unfoldable pub overlap_scenario_runs : Bytes → Option ℕ
unfolding runs_in
overlap_scenario_runs scenario = runs_in scenario burnin_scenarios

names_of : List BurninScenario → List Bytes
names_of [] = []
names_of (b ∷ bs) = b.name ∷ names_of bs

unfoldable pub burnin_scenario_names : List Bytes
unfolding names_of
burnin_scenario_names = names_of burnin_scenarios

-- The lines of `--list`, and the text of the error on an unknown scenario.
unfoldable pub printed_burnin_scenarios : List Bytes
printed_burnin_scenarios = codes "gate" ∷ codes "gate-session" ∷ burnin_scenario_names

unfoldable pub supported_burnin_scenarios : Bytes
supported_burnin_scenarios = join printed_burnin_scenarios (codes ", ")

-- The verb `%q` on printable ASCII.
quoted_runes : Bytes → Bytes
quoted_runes [] = []
quoted_runes (c ∷ s) =
    let rest = quoted_runes s in if c == b'"' || c == b'\\' then b'\\' ∷ c ∷ rest else c ∷ rest

-- The verb `%02d`
two_digits : ℕ → Bytes
two_digits n = if ltb n 10 then b'0' ∷ decimal n else decimal n

unfoldable pub simple_tool_call : ToolName → Bytes → ℕ → Message
unfolding two_digits
simple_tool_call name args n = record {
  role = Role.assistant;
  content = [];
  tool_calls = record { id = codes "burnin-" ++ two_digits n; name = name; arguments = args } ∷ [];
  tool_call_id = [];
}

unfoldable pub exec_tool_call : Bytes → ℕ → Message
unfolding quoted_runes
exec_tool_call command n =
    simple_tool_call exec (codes "{\"command\":\"" ++ (quoted_runes command ++ codes "\"}")) n

unfoldable pub text_message : Bytes → Message
text_message text = record {
  role = Role.assistant;
  content = text;
  tool_calls = [];
  tool_call_id = [];
}

-- The content of the last message with a role; `kept` is that of the messages before.
is_user : Role → Bool
is_user user = true
is_user _ = false

is_tool : Role → Bool
is_tool tool = true
is_tool _ = false

last_content : (Role → Bool) → Bytes → List Message → Bytes
last_content p kept [] = kept
last_content p kept (m ∷ ms) = last_content p (if p m.role then m.content else kept) ms

unfoldable pub last_tool_message : List Message → Bytes
unfolding last_content is_tool
last_tool_message ms = last_content is_tool [] ms

unfoldable pub last_user_message : List Message → Bytes
unfolding last_content is_user
last_user_message ms = last_content is_user [] ms

-- `strings.ToLower` on ASCII
unfoldable pub to_lower : Bytes → Bytes
to_lower [] = []
to_lower (c ∷ s) = (if leb b'A' c && leb c b'Z' then c + 32 else c) ∷ to_lower s
