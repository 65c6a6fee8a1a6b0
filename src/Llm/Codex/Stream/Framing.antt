-- ===== src/Llm/Codex/Stream/Framing.antt =====
-- The stream of server-sent events, as whole events: bridge/llm/openai_codex.go.
use claw.Prelude.{
  Option, none, some, List, [], ◌∷◌, ◌++◌, ◌≡◌, refl, ◌∙◌, append-nil, append_assoc, Bytes, codes,
  if◌then◌else◌, is_nil, join, has_prefix, trim_prefix, trim_space, Bool-cases, inl, inr,
}
use mathlib.Core.Path.{fun_ext}
use claw.Relay.History.{Message}
use claw.Llm.Host.{Result, err}
use claw.Llm.Codex.{CodexItem}
use claw.Llm.Codex.Stream.{
  Envelope, error, item_done, failed, completed, other, first_non_empty, failure, finish, on_event,
  at_end, data_prefix, note_line, scan_lines, parse_openai_codex_sse,
}

-- The lines of each event: those before each empty line. What follows the last empty line is none.
abbrev pub with_line : Bytes → List (List Bytes) → List (List Bytes)
with_line line [] = []
with_line line (event ∷ events) = (line ∷ event) ∷ events

abbrev pub events : List Bytes → List (List Bytes)
events [] = []
events (line ∷ lines) = if is_nil line then [] ∷ events lines else with_line line (events lines)

-- The data of an event: what stands behind `data:` in its lines.
abbrev pub data_of : List Bytes → List Bytes
data_of [] = []
data_of (line ∷ lines) =
    if has_prefix line data_prefix
    then trim_space (trim_prefix line data_prefix) ∷ data_of lines
    else data_of lines

module _ (unmarshal : Bytes → Option Envelope) where
  abbrev pub read_data : Option Envelope → List Envelope
  read_data none = []
  read_data (some e) = e ∷ []

  -- The envelope of an event's data, where there is data that JSON reads.
  abbrev pub envelope : List Bytes → List Envelope
  envelope data_lines =
      if is_nil data_lines then [] else read_data (unmarshal (join data_lines (b'\n' ∷ [])))

  abbrev pub envelopes : List (List Bytes) → List Envelope
  envelopes [] = []
  envelopes (event ∷ events) = envelope (data_of event) ++ envelopes events

  -- As `envelopes`, with data that the first event has already.
  abbrev envelopes_from : List Bytes → List (List Bytes) → List Envelope
  envelopes_from data_lines [] = []
  envelopes_from data_lines (event ∷ events) =
      envelope (data_lines ++ data_of event) ++ envelopes events

-- The items of the envelopes up to the first that ends the response, and what that one says.
abbrev pub outcome : Option Bytes → List Envelope → List CodexItem → Result Message
outcome scan_error [] items = at_end scan_error
outcome scan_error (error message code ∷ es) items =
    err (codes "Codex error: " ++ first_non_empty (message ∷ code ∷ []))
outcome scan_error (item_done none ∷ es) items = outcome scan_error es items
outcome scan_error (item_done (some item) ∷ es) items = outcome scan_error es (items ++ (item ∷ []))
outcome scan_error (failed e ∷ es) items = err (failure e)
outcome scan_error (completed output ∷ es) items = finish output items
outcome scan_error (other ∷ es) items = outcome scan_error es items

module _ (unmarshal : Bytes → Option Envelope) (scan_error : Option Bytes) where
  on_event-outcome :
      (o : Option Envelope) (items : List CodexItem) (es : List Envelope)
      → on_event o items (λ more. outcome scan_error es more)
        ≡ outcome scan_error (read_data unmarshal o ++ es) items
  on_event-outcome none items es = refl
  on_event-outcome (some (error message code)) items es = refl
  on_event-outcome (some (item_done none)) items es = refl
  on_event-outcome (some (item_done (some item))) items es = refl
  on_event-outcome (some (failed e)) items es = refl
  on_event-outcome (some (completed output)) items es = refl
  on_event-outcome (some other) items es = refl

  no_data : (es : List (List Bytes)) → envelopes_from unmarshal [] es ≡ envelopes unmarshal es
  no_data [] = refl
  no_data (event ∷ es) = refl

  one_line :
      (line : Bytes) (data_lines : List Bytes) (es : List (List Bytes))
      → envelopes_from unmarshal (note_line line data_lines) es
        ≡ envelopes_from unmarshal data_lines (with_line line es)
  one_line line data_lines [] = refl
  one_line line data_lines (event ∷ es) = elim (Bool-cases (has_prefix line data_prefix)) [
    | inl e ↦ rw (
      e,
      append_assoc data_lines (trim_space (trim_prefix line data_prefix) ∷ []) (data_of event),
    )
    | inr e ↦ rw e
  ]

  -- What an empty line ends.
  ended :
      (lines : List Bytes) (data_lines : List Bytes) (items : List CodexItem)
      → ((more : List CodexItem)
          → scan_lines unmarshal scan_error lines [] more
            ≡ outcome scan_error (envelopes_from unmarshal [] (events lines)) more)
      → scan_lines unmarshal scan_error ([] ∷ lines) data_lines items
        ≡ outcome scan_error (envelopes_from unmarshal data_lines ([] ∷ events lines)) items
  unfolding scan_lines
  ended lines [] items later = later items ∙ rw (no_data (events lines)) refl
  ended lines (d ∷ ds) items later =
      rw (append-nil ds, fun_ext later, no_data (events lines))
        (on_event-outcome (unmarshal (join (d ∷ ds) (b'\n' ∷ []))) items
          (envelopes unmarshal (events lines)))

  scan_lines-outcome :
      (lines : List Bytes) (data_lines : List Bytes) (items : List CodexItem)
      → scan_lines unmarshal scan_error lines data_lines items
        ≡ outcome scan_error (envelopes_from unmarshal data_lines (events lines)) items
  unfolding scan_lines
  scan_lines-outcome [] data_lines items = refl
  scan_lines-outcome ([] ∷ lines) data_lines items =
      ended lines data_lines items (scan_lines-outcome lines [])
  scan_lines-outcome ((c ∷ line) ∷ lines) data_lines items =
      rw
        (
          scan_lines-outcome lines (note_line (c ∷ line) data_lines) items,
          one_line (c ∷ line) data_lines (events lines),
        )
        refl

  -- The line loop does to the stream what the `switch` does to its envelopes in turn: the data
  -- between two empty lines is one envelope, unless there is none or JSON refuses it, and what
  -- follows the last empty line counts for nothing.
  pub parse_openai_codex_sse-outcome :
      (lines : List Bytes)
      → parse_openai_codex_sse unmarshal scan_error lines
        ≡ outcome scan_error (envelopes unmarshal (events lines)) []
  unfolding parse_openai_codex_sse
  parse_openai_codex_sse-outcome lines =
      scan_lines-outcome lines [] [] ∙ rw (no_data (events lines)) refl
