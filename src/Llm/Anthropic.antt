-- ===== src/Llm/Anthropic.antt =====
-- bridge/llm/anthropic.go: the messages of the Messages API and one completion.
-- A tool's name is a `ToolName`, as in the histories; JSON is data, and its errors are parameters.
pub mod Turns
pub mod Outcomes
use claw.Prelude.{
  ℕ, Bool, true, false, Option, none, some, List, [], ◌∷◌, ◌++◌, Bytes, codes, ◌==◌, if◌then◌else◌,
  is_nil,
}
use claw.Relay.Events.{decimal}
use claw.Relay.History.{ToolName, ToolCall, Role, system, user, tool, assistant, Message}
use claw.Llm.Host.{Result, ok, err, ◌>>=◌, Host}
use claw.Llm.Keys.{AnthropicClient, token}
use claw.Llm.Tools.{Parameters, Tool}

-- The blocks of a request.
pub data Block : Type 0 where
  text : Bytes → Block
  tool_use : Bytes → ToolName → Bytes → Block
  tool_result : Bytes → Bytes → Block

pub data Content : Type 0 where
  plain : Bytes → Content
  blocks : List Block → Content

pub record AnthMessage : Type 0 where
  pub role : Role
  pub content : Content

pub record AnthTool : Type 0 where
  pub name : ToolName
  pub description : Bytes
  pub input_schema : Parameters

-- `MaxTokens` is 4096 in every request.
pub record AnthRequest : Type 0 where
  pub model : Bytes
  pub system_blocks : List Block
  pub messages : List AnthMessage
  pub tools : List AnthTool

-- A block of a response, by its type.
pub data AnthContent : Type 0 where
  text : Bytes → AnthContent
  tool_use : Bytes → ToolName → Bytes → AnthContent
  other : AnthContent

pub record AnthError : Type 0 where
  pub kind : Bytes
  pub message : Bytes

pub record AnthResponse : Type 0 where
  pub content : List AnthContent
  pub error : Option AnthError

-- `if text != "" { text += "\n" }; text += more`
abbrev pub add_line : Bytes → Bytes → Bytes
add_line said more = (if is_nil said then [] else said ++ (b'\n' ∷ [])) ++ more

abbrev pub or_empty_object : Bytes → Bytes
or_empty_object args = if is_nil args then codes "{}" else args

-- A round of the loop of `fromAnthResponse`.
unfoldable pub add_block : AnthContent → Message → Message
add_block (text t) msg = record msg { content = add_line msg.content t }
add_block (tool_use id name input) msg = record msg {
  tool_calls =
      msg.tool_calls ++ ((record { id = id; name = name; arguments = or_empty_object input }) ∷ []);
}
add_block other msg = msg

unfoldable pub add_blocks : List AnthContent → Message → Message
add_blocks [] msg = msg
add_blocks (b ∷ bs) msg = add_blocks bs (add_block b msg)

abbrev pub no_message : Message
no_message = record { role = assistant; content = []; tool_calls = []; tool_call_id = [] }

unfoldable pub from_anth_response : AnthResponse → Message
unfolding add_block add_blocks
from_anth_response resp = add_blocks resp.content no_message

abbrev pub text_part : Bytes → List Block
text_part t = if is_nil t then [] else Block.text t ∷ []

abbrev pub plain_message : Message → Result AnthMessage
plain_message m = ok (record { role = m.role; content = plain m.content })

-- What `json.Marshal` makes of a raw message: the text without its white space, or an error.
module _ (compact : Bytes → Result Bytes) where
  unfoldable pub tool_use_blocks : List ToolCall → Result (List Block)
  tool_use_blocks [] = ok []
  tool_use_blocks (tc ∷ tcs) =
      let rest = tool_use_blocks tcs in
      compact (or_empty_object tc.arguments) >>= λ input.
      rest >>= λ bs. ok (Block.tool_use tc.id tc.name input ∷ bs)

  -- The assistant's message, by its tool calls.
  abbrev pub assistant_message : List ToolCall → Message → Result AnthMessage
  assistant_message [] m = plain_message m
  assistant_message (tc ∷ tcs) m = tool_use_blocks (tc ∷ tcs) >>= λ bs.
      ok (record { role = assistant; content = blocks (text_part m.content ++ bs) })

  -- The `switch` of `toAnthMessages`.
  abbrev pub to_anth_by_role : Role → Message → Result AnthMessage
  to_anth_by_role assistant m = assistant_message m.tool_calls m
  to_anth_by_role tool m =
      ok (record { role = user; content = blocks (tool_result m.tool_call_id m.content ∷ []) })
  to_anth_by_role user m = plain_message m
  to_anth_by_role system m = plain_message m

  unfoldable pub to_anth_messages : List Message → Result (List AnthMessage)
  unfolding tool_use_blocks
  to_anth_messages [] = ok []
  to_anth_messages (m ∷ ms) =
      let rest = to_anth_messages ms in
      to_anth_by_role m.role m >>= λ a. rest >>= λ more. ok (a ∷ more)

abbrev pub is_system : Role → Bool
is_system system = true
is_system user = false
is_system tool = false
is_system assistant = false

-- The loop that takes the system messages out: the last one counts.
unfoldable pub system_of : List Message → Bytes → Bytes
system_of [] s = s
system_of (m ∷ ms) s = system_of ms (if is_system m.role then m.content else s)

unfoldable pub conversation : List Message → List Message
conversation [] = []
conversation (m ∷ ms) = let rest = conversation ms in if is_system m.role then rest else m ∷ rest

unfoldable pub build_system_blocks : Bytes → List Block
build_system_blocks s = if is_nil s then [] else Block.text s ∷ []

unfoldable pub anth_tools : List Tool → List AnthTool
anth_tools [] = []
anth_tools (t ∷ ts) =
    (record { name = t.name; description = t.description; input_schema = t.parameters })
    ∷ anth_tools ts

-- What HTTP makes of a request: no request, no response, a body that breaks off, or a response.
pub data Reply : Type 0 where
  no_request no_response cut_off : Bytes → Reply
  response : ℕ → Bytes → Reply

-- The code that is not the client's: JSON and HTTP, which is given the URL, the key and the body.
pub record Api : Type 0 where
  pub compact : Bytes → Result Bytes
  pub unmarshal : Bytes → Result AnthResponse
  pub post : Bytes → Bytes → AnthRequest → Reply

abbrev pub wrap : {A : Type 0} → Bytes → Result A → Result A
wrap label (ok a) = ok a
wrap label (err e) = err (label ++ e)

-- `DescribeRequest`, and the request of `Complete`.
unfoldable pub anth_request : Api → AnthropicClient → List Message → List Tool → Result AnthRequest
unfolding to_anth_messages system_of conversation build_system_blocks anth_tools
anth_request api c messages tools = to_anth_messages api.compact (conversation messages) >>= λ ms.
    ok (record {
      model = c.model;
      system_blocks = build_system_blocks (system_of messages []);
      messages = ms;
      tools = anth_tools tools;
    })

abbrev pub answer : Option AnthError → AnthResponse → Result Message
answer none resp = ok (from_anth_response resp)
answer (some e) resp = err (codes "api error: " ++ (e.kind ++ (codes ": " ++ e.message)))

abbrev pub read_answer : Result AnthResponse → Result Message
read_answer r = wrap (codes "unmarshal: ") r >>= λ resp. answer resp.error resp

-- What `Complete` does with what HTTP gives.
unfoldable pub on_reply : Api → Reply → AnthropicClient → Result Message × AnthropicClient
on_reply api (no_request e) c = (err (codes "request: " ++ e), c)
on_reply api (no_response e) c = (err (codes "http: " ++ e), c)
on_reply api (cut_off e) c = (err (codes "read: " ++ e), c)
on_reply api (response code body) c =
    if code == 401
    then (err (codes "auth failed (401): " ++ body), record c { cached_token = [] })
    else if code == 200
    then (read_answer (api.unmarshal body), c)
    else (err (codes "status " ++ (decimal code ++ (codes ": " ++ body))), c)

abbrev pub send_request :
    Api → Bytes → AnthropicClient → Result AnthRequest → Result Message × AnthropicClient
send_request api key c (err e) = (err (codes "convert messages: " ++ e), c)
send_request api key c (ok req) = on_reply api (api.post c.url key req) c

abbrev pub with_key :
    Api
    → List Message
    → List Tool
    → Result Bytes × AnthropicClient
    → Result Message × AnthropicClient
with_key api messages tools (err e, c) = (err e, c)
with_key api messages tools (ok key, c) = send_request api key c (anth_request api c messages tools)

-- `Complete`
unfoldable pub anth_complete :
    Api → Host → List Message → List Tool → AnthropicClient → Result Message × AnthropicClient
unfolding anth_request on_reply
anth_complete api h messages tools c = with_key api messages tools (token h c)
