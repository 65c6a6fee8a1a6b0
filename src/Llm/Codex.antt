-- ===== src/Llm/Codex.antt =====
-- bridge/llm/openai_codex.go: the body of a request, and the message of a response.
pub mod RoundTrip
pub mod Stream
pub mod Creds
pub mod Login
use claw.Prelude.{
  ℕ, ◌+◌, Bool, true, false, ◌&&◌, not, Option, none, some, List, [], ◌∷◌, ◌++◌, Bytes, codes,
  if◌then◌else◌, is_nil, contains_rune, before, behind,
}
use claw.Relay.Events.{decimal}
use claw.Relay.History.{ToolName, ToolCall, Role, system, user, tool, assistant, Message}
use claw.Llm.Anthropic.{add_line, or_empty_object, no_message}
use claw.Llm.Tools.{Parameters, Tool}

-- An entry of the request's `input`.
pub data Input : Type 0 where
  user_input : Bytes → Input
  -- The item's ID, the call's ID, the name and the arguments.
  function_call : Bytes → Bytes → ToolName → Bytes → Input
  -- The item's ID and the text.
  output_message : Bytes → Bytes → Input
  -- The call's ID and the output.
  function_call_output : Bytes → Bytes → Input

pub record CodexTool : Type 0 where
  pub name : ToolName
  pub description : Bytes
  pub parameters : Parameters

-- The fields that vary; `tools` is absent where no tool is offered.
pub record CodexBody : Type 0 where
  pub model : Bytes
  pub instructions : Bytes
  pub input : List Input
  pub tools : Option (List CodexTool)

-- `fmt.Sprintf("%s_%d_%d", …)`
abbrev numbered_id : Bytes → ℕ → ℕ → Bytes
numbered_id label i j = label ++ (b'_' ∷ (decimal i ++ (b'_' ∷ decimal j)))

-- The call's ID and the item's.
unfoldable pub split_openai_codex_tool_call_id : Bytes → ℕ → ℕ → Bytes × Bytes
split_openai_codex_tool_call_id id msg_index call_index =
    if not (is_nil id) && contains_rune id b'|' then (before id b'|', behind id b'|') else (
      if is_nil id then numbered_id (codes "call") msg_index call_index else id,
      numbered_id (codes "fc") msg_index call_index,
    )

-- The calls of one message, from the one with this index on.
unfoldable pub call_inputs : ℕ → ℕ → List ToolCall → List Input
unfolding split_openai_codex_tool_call_id
call_inputs msg_index i [] = []
call_inputs msg_index i (tc ∷ tcs) =
    let (call_id, item_id) = split_openai_codex_tool_call_id tc.id msg_index i in
    function_call item_id call_id tc.name tc.arguments ∷ call_inputs msg_index (i + 1) tcs

abbrev pub text_input : ℕ → Bytes → List Input
text_input msg_index t =
    if is_nil t then [] else output_message (codes "msg_" ++ decimal msg_index) t ∷ []

-- The `switch` of `buildOpenAICodexBody`.
abbrev pub inputs_by_role : ℕ → Role → Message → List Input
inputs_by_role msg_index system m = []
inputs_by_role msg_index user m = user_input m.content ∷ []
inputs_by_role msg_index assistant m =
    call_inputs msg_index 0 m.tool_calls ++ text_input msg_index m.content
inputs_by_role msg_index tool m = function_call_output (before m.tool_call_id b'|') m.content ∷ []

unfoldable pub codex_inputs : ℕ → List Message → List Input
unfolding call_inputs
codex_inputs msg_index [] = []
codex_inputs msg_index (m ∷ ms) =
    inputs_by_role msg_index m.role m ++ codex_inputs (msg_index + 1) ms

abbrev pub instructions_of : Role → Message → Bytes → Bytes
instructions_of system m s = m.content
instructions_of user m s = s
instructions_of assistant m s = s
instructions_of tool m s = s

unfoldable pub codex_instructions : List Message → Bytes → Bytes
codex_instructions [] s = s
codex_instructions (m ∷ ms) s = codex_instructions ms (instructions_of m.role m s)

unfoldable pub convert_openai_codex_tools : List Tool → List CodexTool
convert_openai_codex_tools [] = []
convert_openai_codex_tools (t ∷ ts) =
    (record { name = t.name; description = t.description; parameters = t.parameters })
    ∷ convert_openai_codex_tools ts

unfoldable pub build_openai_codex_body : Bytes → List Message → List Tool → CodexBody
unfolding codex_inputs codex_instructions convert_openai_codex_tools
build_openai_codex_body model messages tools = record {
  model = model;
  instructions = codex_instructions messages [];
  input = codex_inputs 0 messages;
  tools = if is_nil tools then none else some (convert_openai_codex_tools tools);
}

-- A part of a message, by its type.
pub data CodexContent : Type 0 where
  output_text : Bytes → CodexContent
  other_part : CodexContent

-- An item of a response, by its type; a call has the call's ID, the item's, the name and the
-- arguments.
pub data CodexItem : Type 0 where
  message : List CodexContent → CodexItem
  function_call : Bytes → Bytes → ToolName → Bytes → CodexItem
  other_item : CodexItem

abbrev pub add_part : CodexContent → Message → Message
add_part (output_text t) msg =
    if is_nil t then msg else record msg { content = add_line msg.content t }
add_part other_part msg = msg

unfoldable pub add_parts : List CodexContent → Message → Message
add_parts [] msg = msg
add_parts (p ∷ ps) msg = add_parts ps (add_part p msg)

unfoldable pub add_item : CodexItem → Message → Message
unfolding add_parts
add_item (message parts) msg = add_parts parts msg
add_item (function_call call_id id name args) msg = record msg {
  tool_calls =
      msg.tool_calls
      ++ ((record { id = call_id ++ (b'|' ∷ id); name = name; arguments = or_empty_object args })
          ∷ []);
}
add_item other_item msg = msg

unfoldable pub add_items : List CodexItem → Message → Message
unfolding add_item
add_items [] msg = msg
add_items (item ∷ items) msg = add_items items (add_item item msg)

-- `codexResponseToMessage` of the response's output
unfoldable pub codex_response_to_message : List CodexItem → Message
unfolding add_items
codex_response_to_message output = add_items output no_message
