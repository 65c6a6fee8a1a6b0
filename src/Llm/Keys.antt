-- ===== src/Llm/Keys.antt =====
-- bridge/llm/auth.go and the credentials of bridge/llm/anthropic.go.
pub mod Settled
use claw.Prelude.{
  Bool, true, false, Option, none, some, List, [], ◌∷◌, ◌++◌, Bytes, codes, ◌||◌, not,
  if◌then◌else◌, is_nil, has_prefix, trim_space,
}
use claw.Llm.Host.{
  Result, ok, err, ConfigFile, anthropic_token, File, absent, unreadable, holds, anthropic_api_key,
  Host, if_home, write_file,
}

pub record AnthropicClient : Type 0 where
  pub url : Bytes
  pub model : Bytes
  pub cached_token : Bytes

unfoldable pub new_anthropic : Bytes → Bytes → AnthropicClient
new_anthropic api_key model = record {
  url = codes "https://api.anthropic.com/v1/messages";
  model = if is_nil model then codes "claude-sonnet-4-6" else model;
  cached_token = api_key;
}

-- `none` is the nil error.
unfoldable pub validate_anthropic_api_key : Bytes → Option Bytes
validate_anthropic_api_key tok =
    if is_nil tok
    then some (codes "empty Anthropic API key")
    else if has_prefix tok (codes "sk-ant-oat")
    then some (codes "Claude subscription tokens are not supported; use a real Anthropic API key")
    else if not (has_prefix tok (codes "sk-ant-"))
    then some (codes "invalid Anthropic API key format")
    else none

-- The result of `os.ReadFile`; the text is trimmed.
abbrev pub stored : File → Result Bytes
stored absent = ok []
stored (unreadable e) = err e
stored (holds raw) = ok (trim_space raw)

unfoldable pub load_anthropic_stored_token : Host → Result Bytes
load_anthropic_stored_token h = if_home h.home_error (stored (h.file anthropic_token))

abbrev pub if_writable : Option Bytes → Host → Result (Unit {0}) × Host → Result (Unit {0}) × Host
if_writable none h run = run
if_writable (some e) h run = (err e, h)

unfoldable pub save_anthropic_stored_token : Host → Bytes → Result (Unit {0}) × Host
save_anthropic_stored_token h token =
    if_writable h.home_error h (write_file h anthropic_token (trim_space token ++ (b'\n' ∷ [])))

unfoldable pub save_anthropic_token : Host → Bytes → Result (Unit {0}) × Host
unfolding save_anthropic_stored_token
save_anthropic_token h token =
    let tok = trim_space token in
    if is_nil tok
    then (err (codes "empty token"), h)
    else if not (has_prefix tok (codes "sk-ant-")) || has_prefix tok (codes "sk-ant-oat")
    then (err (codes "expected a real Anthropic API key, not a Claude subscription token"), h)
    else save_anthropic_stored_token h tok

-- The key, or the error of its validation; a key that is new to the client is cached.
abbrev pub checked : Option Bytes → Bytes → AnthropicClient → Result Bytes × AnthropicClient
checked none tok c = (ok tok, record c { cached_token = tok })
checked (some e) tok c = (err e, c)

abbrev pub from_stored : Result Bytes → AnthropicClient → Result Bytes × AnthropicClient
from_stored (ok tok) c =
    if is_nil tok
    then (
      err (
          codes
            "no Anthropic API key found; pass --llm-key, set ANTHROPIC_API_KEY, or run `claw64-bridge auth set-key`"),
      c,
    )
    else checked (validate_anthropic_api_key tok) tok c
from_stored (err e) c = (err (codes "load stored token: " ++ e), c)

-- `token`: the cached key, the environment's, the stored one.
unfoldable pub token : Host → AnthropicClient → Result Bytes × AnthropicClient
unfolding load_anthropic_stored_token
token h c =
    let tok = trim_space (h.env anthropic_api_key) in
    if not (is_nil c.cached_token)
    then checked (validate_anthropic_api_key c.cached_token) c.cached_token c
    else if not (is_nil tok)
    then checked (validate_anthropic_api_key tok) tok c
    else from_stored (load_anthropic_stored_token h) c

abbrev pub no_error : Result Bytes → Option Bytes
no_error (ok tok) = none
no_error (err e) = some e

-- `Preflight`
unfoldable pub preflight : Host → AnthropicClient → Option Bytes × AnthropicClient
preflight h c = let r = token h c in (no_error r.0, r.1)
