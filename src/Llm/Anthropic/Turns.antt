-- ===== src/Llm/Anthropic/Turns.antt =====
-- A response of the Messages API, kept in the history and sent back: bridge/llm/anthropic.go.
use claw.Prelude.{
  ℕ, false, List, [], ◌∷◌, ◌++◌, append_assoc, append-nil, ◌≡◌, refl, sym, ap, ◌∙◌, Bytes, is_nil,
  All, join,
}
use claw.Relay.History.{ToolCall, assistant, Message}
use claw.Llm.Host.{Result, ok}
use claw.Llm.Anthropic.{
  Block, blocks, AnthContent, other, AnthResponse, or_empty_object, add_block, add_blocks,
  no_message, from_anth_response, tool_use_blocks, text_part, to_anth_messages, assistant_message,
}

abbrev pub newline : Bytes
newline = b'\n' ∷ []

-- The texts of a response, without the empty ones that come first.
abbrev pub texts : List AnthContent → List Bytes
texts [] = []
texts (AnthContent.text t ∷ bs) = t ∷ texts bs
texts (AnthContent.tool_use id name input ∷ bs) = texts bs
texts (other ∷ bs) = texts bs

abbrev pub from_first : List Bytes → List Bytes
from_first [] = []
from_first ([] ∷ ts) = from_first ts
from_first ((c ∷ t) ∷ ts) = (c ∷ t) ∷ ts

abbrev pub calls : List AnthContent → List ToolCall
calls [] = []
calls (AnthContent.text t ∷ bs) = calls bs
calls (AnthContent.tool_use id name input ∷ bs) =
    (record { id = id; name = name; arguments = or_empty_object input }) ∷ calls bs
calls (other ∷ bs) = calls bs

pub join-add_line :
    (p q : Bytes) (ps : List Bytes)
    → join ((p ++ (newline ++ q)) ∷ ps) newline ≡ join (p ∷ q ∷ ps) newline
unfolding join
join-add_line p q [] = refl
join-add_line p q (r ∷ ps) = simp append_assoc

-- What stays of a text that is there already, and of none.
started :
    (bs : List AnthContent) (msg : Message) (c : ℕ) (t : Bytes)
    → msg.content ≡ c ∷ t
    → (add_blocks bs msg).content ≡ join ((c ∷ t) ∷ texts bs) newline
unfolding add_blocks add_block
started [] msg c t e = e ∙ unfold join in refl
started (AnthContent.text u ∷ bs) msg c t e =
    started bs (add_block (AnthContent.text u) msg) c (t ++ (newline ++ u))
      (unfold add_block in rw e (ap (λ s. c ∷ s) (append_assoc t newline u)))
    ∙ join-add_line (c ∷ t) u (texts bs)
started (AnthContent.tool_use id name input ∷ bs) msg c t e =
    started bs (add_block (AnthContent.tool_use id name input) msg) c t e
started (other ∷ bs) msg c t e = started bs msg c t e

pub add_blocks-content :
    (bs : List AnthContent) (msg : Message)
    → msg.content ≡ []
    → (add_blocks bs msg).content ≡ join (from_first (texts bs)) newline
unfolding add_blocks add_block join
add_blocks-content [] msg e = e
add_blocks-content (AnthContent.text [] ∷ bs) msg e =
    add_blocks-content bs (add_block (AnthContent.text []) msg) (rw e)
add_blocks-content (AnthContent.text (c ∷ t) ∷ bs) msg e =
    started bs (add_block (AnthContent.text (c ∷ t)) msg) c t (rw e)
add_blocks-content (AnthContent.tool_use id name input ∷ bs) msg e =
    add_blocks-content bs (add_block (AnthContent.tool_use id name input) msg) e
add_blocks-content (other ∷ bs) msg e = add_blocks-content bs msg e

add_blocks-tool_calls :
    (bs : List AnthContent) (msg : Message)
    → (add_blocks bs msg).tool_calls ≡ msg.tool_calls ++ calls bs
unfolding add_blocks add_block
add_blocks-tool_calls [] msg = sym (append-nil msg.tool_calls)
add_blocks-tool_calls (AnthContent.text t ∷ bs) msg =
    add_blocks-tool_calls bs (add_block (AnthContent.text t) msg)
add_blocks-tool_calls (AnthContent.tool_use id name input ∷ bs) msg =
    add_blocks-tool_calls bs (add_block (AnthContent.tool_use id name input) msg)
    ∙ append_assoc msg.tool_calls _ (calls bs)
add_blocks-tool_calls (other ∷ bs) msg = add_blocks-tool_calls bs msg

-- The blocks that a response's tool calls become in the next request.
module _ (squeeze : Bytes → Bytes) where
  abbrev pub uses : List AnthContent → List Block
  uses [] = []
  uses (AnthContent.text t ∷ bs) = uses bs
  uses (AnthContent.tool_use id name input ∷ bs) =
      Block.tool_use id name (squeeze (or_empty_object input)) ∷ uses bs
  uses (other ∷ bs) = uses bs

  -- `json.Marshal` takes the arguments of each call.
  abbrev pub Accepts : (Bytes → Result Bytes) → List ToolCall → Type 0
  Accepts compact tcs =
      All (λ (tc : ToolCall). compact (or_empty_object tc.arguments) ≡ ok (squeeze tc.arguments))
        tcs

  tool_use_blocks-calls :
      (compact : Bytes → Result Bytes) (bs : List AnthContent)
      → Accepts compact (calls bs)
      → tool_use_blocks compact (calls bs) ≡ ok (uses bs)
  unfolding tool_use_blocks
  tool_use_blocks-calls compact [] h = refl
  tool_use_blocks-calls compact (AnthContent.text t ∷ bs) h = tool_use_blocks-calls compact bs h
  tool_use_blocks-calls compact (AnthContent.tool_use id name input ∷ bs) h =
      rw (h.0, tool_use_blocks-calls compact bs h.1)
  tool_use_blocks-calls compact (other ∷ bs) h = tool_use_blocks-calls compact bs h

  assistant-calls :
      (compact : Bytes → Result Bytes) (tcs : List ToolCall) (m : Message) (bs : List Block)
      → is_nil tcs ≡ false
      → tool_use_blocks compact tcs ≡ ok bs
      → assistant_message compact tcs m
        ≡ ok (record { role = assistant; content = blocks (text_part m.content ++ bs) })
  assistant-calls compact [] m bs some e = absurd cc
  assistant-calls compact (tc ∷ tcs) m bs some e = rw e

add_blocks-role : (bs : List AnthContent) (msg : Message) → (add_blocks bs msg).role ≡ msg.role
unfolding add_blocks add_block
add_blocks-role [] msg = refl
add_blocks-role (AnthContent.text t ∷ bs) msg =
    add_blocks-role bs (add_block (AnthContent.text t) msg)
add_blocks-role (AnthContent.tool_use id name input ∷ bs) msg =
    add_blocks-role bs (add_block (AnthContent.tool_use id name input) msg)
add_blocks-role (other ∷ bs) msg = add_blocks-role bs msg

-- A response with tool calls goes back, in the next request, as one assistant message: its texts,
-- with newlines between them and without the empty ones that come first, then each of its tool
-- calls, in order, with its ID, its name and its input, `{}` for an empty one, as `json.Marshal`
-- writes it.
pub to_anth_messages-from_anth_response :
    (compact : Bytes → Result Bytes) (squeeze : Bytes → Bytes) (resp : AnthResponse)
    → is_nil (calls resp.content) ≡ false
    → Accepts squeeze compact (calls resp.content)
    → to_anth_messages compact (from_anth_response resp ∷ [])
      ≡ ok (
          record {
            role = assistant;
            content = blocks (
                text_part (join (from_first (texts resp.content)) newline)
                ++ uses squeeze resp.content);
          }
          ∷ [])
unfolding to_anth_messages from_anth_response
to_anth_messages-from_anth_response compact squeeze resp some h = rw (
  add_blocks-role resp.content no_message,
  add_blocks-tool_calls resp.content no_message,
  assistant-calls squeeze compact (calls resp.content) (add_blocks resp.content no_message)
      (uses squeeze resp.content) some (tool_use_blocks-calls squeeze compact resp.content h),
  add_blocks-content resp.content no_message refl,
)
