-- ===== src/Relay/History.antt =====
-- bridge/llm/llm.go, the chat messages, and bridge/relay/history.go, the histories by user.
-- The mutex makes each operation one step; `Get` copies, and so returns a value.
use Prim.Native.String.{String}
use text.Mathlib.Text.{◌==◌ as str_eq}
use text.Mathlib.TextEquality.{eq_iff}
use claw.Prelude.{List, [], ◌∷◌, ◌++◌, ◌≡◌, arith, Bytes, if◌then◌else◌}

-- The tool names that `callAndDispatch` tells apart.
pub data ToolName : Type 0 where
  exec screen stop status : ToolName
  unknown_tool : Bytes → ToolName

pub record ToolCall : Type 0 where
  pub id : Bytes
  pub name : ToolName
  pub arguments : Bytes

pub data Role : Type 0 where
  system user tool assistant : Role

-- `Content` is the list of the text's runes.
pub record Message : Type 0 where
  pub role : Role
  pub content : Bytes
  pub tool_calls : List ToolCall
  pub tool_call_id : Bytes

-- The map of `History`, newest binding alone: one entry for each user.
abbrev pub History : Type 0
History = List (String × List Message)

-- `append(h.convs[userID], msg)`, where a missing key reads as nil.
unfoldable pub append : History → String → Message → History
append [] user_id msg = (user_id, msg ∷ []) ∷ []
append ((k, msgs) ∷ h) user_id msg =
    if str_eq k user_id then (k, msgs ++ (msg ∷ [])) ∷ h else (k, msgs) ∷ append h user_id msg

unfoldable pub get : History → String → List Message
get [] user_id = []
get ((k, msgs) ∷ h) user_id = if str_eq k user_id then msgs else get h user_id

-- `delete(h.convs, userID)`
unfoldable pub clear : History → String → History
clear [] user_id = []
clear ((k, msgs) ∷ h) user_id =
    if str_eq k user_id then clear h user_id else (k, msgs) ∷ clear h user_id

-- An appended message ends the history of its user, and no other history changes.
pub get-append :
    (h : History) (u v : String) (m : Message)
    → get (append h u m) v ≡ (if str_eq u v then get h v ++ (m ∷ []) else get h v)
unfolding get append
get-append [] u v m = ground arith
get-append ((k, ms) ∷ h) u v m =
    ground (arith, eq_iff k u, eq_iff k v, eq_iff u v, get-append h u v m)

-- `Clear` empties the history of its user, and no other history changes.
pub get-clear :
    (h : History) (u v : String) → get (clear h u) v ≡ (if str_eq u v then [] else get h v)
unfolding get clear
get-clear [] u v = ground arith
get-clear ((k, ms) ∷ h) u v = ground (arith, eq_iff k u, eq_iff k v, eq_iff u v, get-clear h u v)
