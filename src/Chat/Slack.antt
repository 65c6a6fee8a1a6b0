-- ===== src/Chat/Slack.antt =====
-- bridge/chat/slack.go: targets, workspaces, credentials and messages. Texts are lists of bytes.
pub mod Targets
use claw.Prelude.{
  ℕ, ◌+◌, ◌-◌, Bool, true, false, ◌||◌, ◌&&◌, not, ltb, leb, ◌==◌, Option, none, some, List, [],
  ◌∷◌, ◌++◌, Bytes, codes, if◌then◌else◌, is_nil, same_text, has_prefix, trim_prefix, trim_suffix,
  contains, contains_rune, before, split, length, take, drop, trim_space,
}
use claw.Llm.Host.{Result, ok, err, ◌>>=◌}
use claw.Chat.Trigger.{strip_slack_joystick_trigger, format_slack_joystick_quote}

unfoldable pub workspace_key : Bytes → Bytes
workspace_key url =
    trim_suffix (trim_prefix (trim_prefix url (codes "https://")) (codes "http://")) (codes "/")

-- `if idx := strings.Index(u, "/"); idx >= 0 { return u[:idx] }`
unfoldable pub workspace_from_url : Bytes → Bytes
workspace_from_url u =
    let host = trim_prefix (trim_prefix u (codes "https://")) (codes "http://") in
    if contains_rune host b'/' then before host b'/' else []

-- `if idx := strings.LastIndex(value, c); idx >= 0 { value = value[:idx] }`
unfoldable pub before_last : Bytes → ℕ → Bytes
before_last [] c = []
before_last (d ∷ s) c =
    let rest = before_last s c in
    if contains_rune s c then d ∷ rest else if d == c then [] else d ∷ rest

abbrev pub timestamp : Bytes → Bytes
timestamp raw =
    let n = length raw in if ltb 6 n then take (n - 6) raw ++ (b'.' ∷ drop (n - 6) raw) else raw

-- `tsRaw`, cut at a question mark, without its "p"; `before` leaves a text without the mark alone.
abbrev pub thread_ts : Bytes → Bytes
thread_ts raw =
    let ts = trim_prefix (before raw b'?') (codes "p") in if is_nil ts then [] else timestamp ts

-- What stands behind "archives": the channel and the thread.
abbrev pub archived : Bytes → List Bytes → Bytes × Bytes
archived ch [] = (ch, [])
archived ch (raw ∷ parts) = (ch, thread_ts raw)

-- The loop over the parts.
unfoldable pub find_archives : List Bytes → Bytes × Bytes
find_archives [] = ([], [])
find_archives (p ∷ []) = ([], [])
find_archives (p ∷ ch ∷ parts) =
    let rest = find_archives (ch ∷ parts) in
    if same_text p (codes "archives") then archived ch parts else rest

unfoldable pub parse_thread_target : Bytes → Bytes × Bytes
unfolding before_last find_archives
parse_thread_target value =
    if is_nil value || not (contains value (codes "/archives/"))
    then ([], [])
    else find_archives (split (before_last value b'#') b'/')

abbrev pub is_id_char : ℕ → Bool
is_id_char c = (leb b'0' c && leb c b'9') || (leb b'A' c && leb c b'Z')

unfoldable pub all_id_chars : Bytes → Bool
all_id_chars [] = true
all_id_chars (c ∷ s) = is_id_char c && all_id_chars s

unfoldable pub is_slack_id : Bytes → Bool
unfolding all_id_chars
is_slack_id [] = false
is_slack_id (c ∷ []) = false
is_slack_id (c ∷ d ∷ s) = (c == b'C' || c == b'D' || c == b'G') && all_id_chars (d ∷ s)

-- The resolver of the Slack library: a user's channel and a channel by its name.
pub record Resolver : Type 0 where
  pub resolve_user_channel : Bytes → Result Bytes
  pub resolve_channel_by_name : Bytes → Result Bytes

pub record Resolved : Type 0 where
  pub id : Bytes
  pub thread_ts : Bytes
  pub display : Bytes

abbrev pub with_hash : Bytes → Bytes
with_hash target = if not (has_prefix target (codes "#")) then b'#' ∷ target else target

abbrev pub resolve_name : Resolver → Bytes → Result Resolved
resolve_name resolver target =
    if has_prefix target (codes "@")
    then (resolver.resolve_user_channel (trim_prefix target (codes "@")) >>= λ id.
        ok (record { id = id; thread_ts = []; display = target }))
    else if is_slack_id target
    then ok (record { id = target; thread_ts = []; display = target })
    else (resolver.resolve_channel_by_name target >>= λ id.
        ok (record { id = id; thread_ts = []; display = with_hash target }))

unfoldable pub resolve_slack_target : Resolver → Bytes → Result Resolved
unfolding parse_thread_target is_slack_id
resolve_slack_target resolver target =
    let (ch, ts) = parse_thread_target target in
    if not (is_nil ch)
    then ok (record { id = ch; thread_ts = ts; display = target })
    else resolve_name resolver target

unfoldable pub workspace_label : Bytes → Bytes
workspace_label workspace = if is_nil workspace then codes "default" else workspace

-- A `Workspace` of the local Slack app.
pub record Workspace : Type 0 where
  pub url : Bytes
  pub token : Bytes

-- The credential store: what is stored under which key, and the default workspace.
pub record Credentials : Type 0 where
  pub stored : List (Bytes × Bytes)
  pub default_name : Bytes

-- The library's functions on the store: `Load` (whether it finds credentials), `Save` and
-- `SetDefault` (the store behind it, or an error), `ListWorkspaces`; and `Extract`.
pub record CredentialApi : Type 0 where
  pub load : Credentials → Bytes → Bool
  pub save : Credentials → Bytes → Bytes → Result Credentials
  pub set_default : Credentials → Bytes → Result Credentials
  pub names : Credentials → List Bytes
  pub extract : Result (List Workspace)

module _ (api : CredentialApi) where
  abbrev pub save_error : Bytes → Result Credentials → Result Credentials
  save_error key (ok s) = ok s
  save_error key (err e) = err (codes "slack credentials: save " ++ (key ++ (codes ": " ++ e)))

  -- The loop: the store and whether the workspace was among those saved.
  unfoldable pub save_workspaces :
      Bytes → List Workspace → Bool → Credentials → Result (Bool × Credentials)
  save_workspaces workspace [] found s = ok (found, s)
  save_workspaces workspace (ws ∷ wss) found s =
      let key = workspace_key ws.url in
      save_error key (api.save s key ws.token) >>= λ s'.
      save_workspaces workspace wss (found || (not (is_nil workspace) && same_text key workspace))
        s'

  abbrev pub default_error : Result Credentials → Result Credentials
  default_error (ok s) = ok s
  default_error (err e) = err (codes "slack credentials: set default: " ++ e)

  abbrev pub choose_default : Bytes → List Bytes → Credentials → Result Credentials
  choose_default workspace (name ∷ []) s =
      if is_nil workspace && is_nil s.default_name
      then default_error (api.set_default s name)
      else ok s
  choose_default workspace names s = ok s

  -- The verb `%q` of a name of printable bytes without a quote or a backslash.
  abbrev pub saved : Bytes → Bool × Credentials → Result Credentials
  saved workspace (found, s) =
      if not found
      then err
          (codes "slack workspace \"" ++ (workspace ++ codes "\" not found in local Slack app"))
      else choose_default workspace (api.names s) s

  abbrev pub extract_error : Result (List Workspace) → Result (List Workspace)
  extract_error (ok ws) = ok ws
  extract_error (err e) = err (codes "slack credentials: " ++ e)

  unfoldable pub ensure_slack_credentials : Bytes → Credentials → Result Credentials
  unfolding save_workspaces
  ensure_slack_credentials workspace s =
      if api.load s workspace
      then ok s
      else (extract_error api.extract >>= λ wss.
          save_workspaces workspace wss (is_nil workspace) s >>= λ r. saved workspace r)

-- The messages of a poll: a text, with whether it is only observed, and a command; or another.
pub data SlackMessage : Type 0 where
  text_message : Bool → Bytes → Bytes → SlackMessage
  command_message : Bytes → Bytes → SlackMessage
  other_message : SlackMessage

-- `handleSlackMessage`: what the handler is given, and what is posted if it ends with this error.
pub record Handled : Type 0 where
  pub user_id : Bytes
  pub text : Bytes

abbrev pub handled_as : Bytes → Option Bytes → Option Handled
handled_as user_id none = none
handled_as user_id (some text) = some (record { user_id = user_id; text = text })

unfoldable pub handle_slack_message : Bytes → Bytes → Option Handled
handle_slack_message user_id text = handled_as user_id (strip_slack_joystick_trigger text)

unfoldable pub error_post : Bytes → Bytes
error_post e = format_slack_joystick_quote (codes "error: " ++ e)

-- The `switch` of `Start` on a message of a poll.
unfoldable pub slack_on_message : SlackMessage → Option Handled
unfolding handle_slack_message
slack_on_message (text_message observe user_id text) =
    if observe then none else handle_slack_message user_id text
slack_on_message (command_message user_id command) = handle_slack_message user_id command
slack_on_message other_message = none
