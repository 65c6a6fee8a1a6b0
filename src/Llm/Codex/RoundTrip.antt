-- ===== src/Llm/Codex/RoundTrip.antt =====
-- A response of bridge/llm/openai_codex.go, kept in the history and sent back with its answers.
use claw.Prelude.{
  ℕ, ◌+◌, true, false, List, [], ◌∷◌, ◌++◌, append_assoc, append-nil, ◌≡◌, refl, sym, ap, ◌∙◌,
  arith, Bytes, is_nil, All, All-append, join, contains_rune,
}
use claw.Prelude.Text.Trims.{Lacks, before-append, behind-append}
use claw.Relay.History.{ToolCall, tool, Message}
use claw.Llm.Anthropic.{add_line, or_empty_object, no_message}
use claw.Llm.Anthropic.Turns.{newline, join-add_line}
use claw.Llm.Codex.{
  Input, function_call_output, CodexContent, output_text, other_part, CodexItem, message,
  other_item, add_part, add_parts, add_item, add_items, codex_response_to_message, call_inputs,
  text_input, codex_inputs, split_openai_codex_tool_call_id,
}

-- The texts of a response that are not empty.
abbrev pub part_texts : List CodexContent → List Bytes
part_texts [] = []
part_texts (output_text [] ∷ ps) = part_texts ps
part_texts (output_text (c ∷ t) ∷ ps) = (c ∷ t) ∷ part_texts ps
part_texts (other_part ∷ ps) = part_texts ps

abbrev pub item_texts : List CodexItem → List Bytes
item_texts [] = []
item_texts (message parts ∷ items) = part_texts parts ++ item_texts items
item_texts (CodexItem.function_call call_id id name args ∷ items) = item_texts items
item_texts (other_item ∷ items) = item_texts items

abbrev pub item_calls : List CodexItem → List ToolCall
item_calls [] = []
item_calls (message parts ∷ items) = item_calls items
item_calls (CodexItem.function_call call_id id name args ∷ items) =
    (record { id = call_id ++ (b'|' ∷ id); name = name; arguments = or_empty_object args })
    ∷ item_calls items
item_calls (other_item ∷ items) = item_calls items

-- The calls of a response, as entries of a request, and the entries that answer them.
abbrev pub call_entries : List CodexItem → List Input
call_entries [] = []
call_entries (message parts ∷ items) = call_entries items
call_entries (CodexItem.function_call call_id id name args ∷ items) =
    Input.function_call id call_id name (or_empty_object args) ∷ call_entries items
call_entries (other_item ∷ items) = call_entries items

-- The results go to the calls in order.
abbrev pub answer_entries : List Bytes → List CodexItem → List Input
answer_entries results [] = []
answer_entries results (message parts ∷ items) = answer_entries results items
answer_entries [] (CodexItem.function_call call_id id name args ∷ items) = []
answer_entries (result ∷ results) (CodexItem.function_call call_id id name args ∷ items) =
    function_call_output call_id result ∷ answer_entries results items
answer_entries results (other_item ∷ items) = answer_entries results items

-- The calls' IDs hold no bar.
abbrev pub IsBarless : CodexItem → Type 0
IsBarless (message parts) = Unit {0}
IsBarless (CodexItem.function_call call_id id name args) = Lacks b'|' call_id
IsBarless other_item = Unit {0}

abbrev add_lines : Bytes → List Bytes → Bytes
add_lines said [] = said
add_lines said (t ∷ ts) = add_lines (add_line said t) ts

add_lines-append :
    (said : Bytes) (ts us : List Bytes)
    → add_lines said (ts ++ us) ≡ add_lines (add_lines said ts) us
add_lines-append said [] us = refl
add_lines-append said (t ∷ ts) us = add_lines-append (add_line said t) ts us

add_lines-join :
    (c : ℕ) (s : Bytes) (ts : List Bytes) → add_lines (c ∷ s) ts ≡ join ((c ∷ s) ∷ ts) newline
unfolding join
add_lines-join c s [] = refl
add_lines-join c s (t ∷ ts) =
    add_lines-join c ((s ++ newline) ++ t) ts
    ∙ (ap (λ x. join ((c ∷ x) ∷ ts) newline) (append_assoc s newline t)
        ∙ join-add_line (c ∷ s) t ts)

add_parts-content :
    (ps : List CodexContent) (msg : Message)
    → (add_parts ps msg).content ≡ add_lines msg.content (part_texts ps)
unfolding add_parts
add_parts-content [] msg = refl
add_parts-content (output_text [] ∷ ps) msg = add_parts-content ps msg
add_parts-content (output_text (c ∷ t) ∷ ps) msg =
    add_parts-content ps (add_part (output_text (c ∷ t)) msg)
add_parts-content (other_part ∷ ps) msg = add_parts-content ps msg

-- The parts of a message leave the rest of it alone.
add_parts-rest :
    (ps : List CodexContent) (msg : Message)
    → ((add_parts ps msg).tool_calls ≡ msg.tool_calls) × ((add_parts ps msg).role ≡ msg.role)
unfolding add_parts
add_parts-rest [] msg = (refl, refl)
add_parts-rest (output_text [] ∷ ps) msg = add_parts-rest ps msg
add_parts-rest (output_text (c ∷ t) ∷ ps) msg =
    add_parts-rest ps (add_part (output_text (c ∷ t)) msg)
add_parts-rest (other_part ∷ ps) msg = add_parts-rest ps msg

add_items-content :
    (items : List CodexItem) (msg : Message)
    → (add_items items msg).content ≡ add_lines msg.content (item_texts items)
unfolding add_items add_item
add_items-content [] msg = refl
add_items-content (message parts ∷ items) msg =
    add_items-content items (add_parts parts msg)
    ∙ rw
        (
          add_parts-content parts msg,
          add_lines-append msg.content (part_texts parts) (item_texts items),
        )
        refl
add_items-content (CodexItem.function_call call_id id name args ∷ items) msg =
    add_items-content items (add_item (CodexItem.function_call call_id id name args) msg)
add_items-content (other_item ∷ items) msg = add_items-content items msg

add_items-rest :
    (items : List CodexItem) (msg : Message)
    → ((add_items items msg).tool_calls ≡ msg.tool_calls ++ item_calls items)
      × ((add_items items msg).role ≡ msg.role)
unfolding add_items add_item
add_items-rest [] msg = (sym (append-nil msg.tool_calls), refl)
add_items-rest (message parts ∷ items) msg =
    let later = add_items-rest items (add_parts parts msg) in
    let kept = add_parts-rest parts msg in (later.0 ∙ rw kept.0 refl, later.1 ∙ kept.1)
add_items-rest (CodexItem.function_call call_id id name args ∷ items) msg =
    let later =
      add_items-rest items (add_item (CodexItem.function_call call_id id name args) msg) in
    (later.0 ∙ append_assoc msg.tool_calls _ (item_calls items), later.1)
add_items-rest (other_item ∷ items) msg = add_items-rest items msg

abbrev Nonempty : List Bytes → Type 0
Nonempty ts = All (λ (t : Bytes). is_nil t ≡ false) ts

part_texts-Nonempty : (ps : List CodexContent) → Nonempty (part_texts ps)
part_texts-Nonempty [] = tt
part_texts-Nonempty (output_text [] ∷ ps) = part_texts-Nonempty ps
part_texts-Nonempty (output_text (c ∷ t) ∷ ps) = (refl, part_texts-Nonempty ps)
part_texts-Nonempty (other_part ∷ ps) = part_texts-Nonempty ps

item_texts-Nonempty : (items : List CodexItem) → Nonempty (item_texts items)
item_texts-Nonempty [] = tt
item_texts-Nonempty (message parts ∷ items) =
    All-append (λ (t : Bytes). is_nil t ≡ false) (part_texts parts) (item_texts items)
      (part_texts-Nonempty parts) (item_texts-Nonempty items)
item_texts-Nonempty (CodexItem.function_call call_id id name args ∷ items) =
    item_texts-Nonempty items
item_texts-Nonempty (other_item ∷ items) = item_texts-Nonempty items

add_lines-join_all : (ts : List Bytes) → Nonempty ts → add_lines [] ts ≡ join ts newline
add_lines-join_all [] h = unfold join in refl
add_lines-join_all ([] ∷ ts) h = absurd cc
add_lines-join_all ((c ∷ t) ∷ ts) h = add_lines-join c t ts

has_bar : (s t : Bytes) → contains_rune (s ++ (b'|' ∷ t)) b'|' ≡ true
unfolding contains_rune
has_bar [] t = refl
has_bar (c ∷ s) t = ground (arith, has_bar s t)

not_nil : (s t : Bytes) → is_nil (s ++ (b'|' ∷ t)) ≡ false
not_nil [] t = refl
not_nil (c ∷ s) t = refl

split-joined :
    (call_id id : Bytes) (i j : ℕ)
    → Lacks b'|' call_id
    → split_openai_codex_tool_call_id (call_id ++ (b'|' ∷ id)) i j ≡ (call_id, id)
unfolding split_openai_codex_tool_call_id
split-joined call_id id i j h = rw (
  not_nil call_id id,
  has_bar call_id id,
  before-append call_id id b'|' h,
  behind-append call_id id b'|' h,
)

call_inputs-entries :
    (items : List CodexItem) (i j : ℕ)
    → All IsBarless items
    → call_inputs i j (item_calls items) ≡ call_entries items
unfolding call_inputs
call_inputs-entries [] i j h = refl
call_inputs-entries (message parts ∷ items) i j h = call_inputs-entries items i j h.1
call_inputs-entries (CodexItem.function_call call_id id name args ∷ items) i j h =
    rw (split-joined call_id id i j h.0, call_inputs-entries items i (j + 1) h.1)
call_inputs-entries (other_item ∷ items) i j h = call_inputs-entries items i j h.1

-- The results of tool calls, as `appendToolResult` writes them.
abbrev pub tool_results : List Bytes → List ToolCall → List Message
tool_results results [] = []
tool_results [] (tc ∷ tcs) = []
tool_results (result ∷ results) (tc ∷ tcs) =
    (record { role = tool; content = result; tool_calls = []; tool_call_id = tc.id })
    ∷ tool_results results tcs

codex_inputs-answers :
    (results : List Bytes) (items : List CodexItem) (n : ℕ)
    → All IsBarless items
    → codex_inputs n (tool_results results (item_calls items)) ≡ answer_entries results items
unfolding codex_inputs
codex_inputs-answers results [] n h = refl
codex_inputs-answers results (message parts ∷ items) n h = codex_inputs-answers results items n h.1
codex_inputs-answers [] (CodexItem.function_call call_id id name args ∷ items) n h = refl
codex_inputs-answers (result ∷ results) (CodexItem.function_call call_id id name args ∷ items) n h =
    rw (before-append call_id id b'|' h.0, codex_inputs-answers results items (n + 1) h.1)
codex_inputs-answers results (other_item ∷ items) n h = codex_inputs-answers results items n h.1

-- A response whose calls' IDs hold no bar, followed by results for its calls, one for each in order
-- or for the first of them, goes back in the next request as its calls, in order, each with its
-- item's ID, its own ID, its name and its arguments, `{}` for empty ones; then its texts that are
-- not empty, with newlines between them; then each result, with the ID of its own call.
pub codex_inputs-codex_response_to_message :
    (n : ℕ) (items : List CodexItem) (results : List Bytes)
    → All IsBarless items
    → (let m = codex_response_to_message items in
        codex_inputs n (m ∷ tool_results results m.tool_calls))
      ≡ (call_entries items ++ text_input n (join (item_texts items) newline))
        ++ answer_entries results items
unfolding codex_inputs codex_response_to_message
codex_inputs-codex_response_to_message n items results h =
    let rest = add_items-rest items no_message in
    rw (
      rest.1,
      rest.0,
      call_inputs-entries items n 0 h,
      codex_inputs-answers results items (n + 1) h,
      add_items-content items no_message,
      add_lines-join_all (item_texts items) (item_texts-Nonempty items),
    )
