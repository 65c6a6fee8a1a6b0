-- ===== src/Llm/Codex/Stream.antt =====
-- bridge/llm/openai_codex.go: `parseOpenAICodexSSE`, on the lines that the scanner gives.
pub mod Framing
use claw.Prelude.{
  Bool, true, false, Option, none, some, List, [], ◌∷◌, ◌++◌, Bytes, codes, if◌then◌else◌, is_nil,
  join, has_prefix, trim_prefix, trim_space,
}
use claw.Relay.History.{Message}
use claw.Llm.Host.{Result, ok, err}
use claw.Llm.Codex.{CodexItem, codex_response_to_message}

-- An envelope, by its type: an error with its message and code, a finished item, a failure with
-- the error's message, an end with the response's output, or any other.
pub data Envelope : Type 0 where
  error : Bytes → Bytes → Envelope
  item_done : Option CodexItem → Envelope
  failed : Option Bytes → Envelope
  completed : Option (List CodexItem) → Envelope
  other : Envelope

-- `firstNonEmpty`
unfoldable pub first_non_empty : List Bytes → Bytes
first_non_empty [] = []
first_non_empty (v ∷ vs) =
    let rest = first_non_empty vs in if is_nil (trim_space v) then rest else v

abbrev pub failure : Option Bytes → Bytes
failure none = codes "Codex response failed"
failure (some e) = codes "Codex response failed: " ++ e

abbrev pub finish : Option (List CodexItem) → List CodexItem → Result Message
finish none items = err (codes "Codex response missing payload")
finish (some output) items =
    ok (codex_response_to_message (if is_nil output then items else output))

-- The `switch` on an event: it ends the loop, or the loop goes on with the items so far.
abbrev pub on_event :
    Option Envelope → List CodexItem → (List CodexItem → Result Message) → Result Message
on_event none items go_on = go_on items
on_event (some (error message code)) items go_on =
    err (codes "Codex error: " ++ first_non_empty (message ∷ code ∷ []))
on_event (some (item_done none)) items go_on = go_on items
on_event (some (item_done (some item))) items go_on = go_on (items ++ (item ∷ []))
on_event (some (failed e)) items go_on = err (failure e)
on_event (some (completed output)) items go_on = finish output items
on_event (some other) items go_on = go_on items

-- `scanner.Err()`, or the end of the stream.
abbrev pub at_end : Option Bytes → Result Message
at_end none = err (codes "Codex stream ended without completion event")
at_end (some e) = err e

abbrev pub data_prefix : Bytes
data_prefix = codes "data:"

-- The data lines behind one more line.
abbrev pub note_line : Bytes → List Bytes → List Bytes
note_line line data_lines =
    if has_prefix line data_prefix
    then data_lines ++ (trim_space (trim_prefix line data_prefix) ∷ [])
    else data_lines

-- The loop; `unmarshal` is `json.Unmarshal` into an envelope, and `none` its error.
module _ (unmarshal : Bytes → Option Envelope) (scan_error : Option Bytes) where
  unfoldable pub scan_lines : List Bytes → List Bytes → List CodexItem → Result Message
  scan_lines [] data_lines items = at_end scan_error
  scan_lines (line ∷ lines) data_lines items =
      let go_on : List CodexItem → Result Message = λ more. scan_lines lines [] more in
      let noted = scan_lines lines (note_line line data_lines) items in
      if is_nil line
      then if is_nil data_lines
        then go_on items
        else on_event (unmarshal (join data_lines (b'\n' ∷ []))) items go_on
      else noted

  unfoldable pub parse_openai_codex_sse : List Bytes → Result Message
  unfolding scan_lines first_non_empty
  parse_openai_codex_sse lines = scan_lines lines [] []
