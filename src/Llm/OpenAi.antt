-- ===== src/Llm/OpenAi.antt =====
-- bridge/llm/openai.go, and the calls that `completeCodex` of bridge/llm/openai_codex.go makes.
pub mod Ready
use claw.Prelude.{
  ℕ, Bool, true, false, ◌&&◌, ◌||◌, not, ◌==◌, Option, none, some, List, [], ◌∷◌, ◌++◌, Bytes,
  codes, if◌then◌else◌, is_nil, same_text, contains, trim_space,
}
use claw.Relay.Events.{decimal}
use claw.Relay.History.{Message}
use claw.Llm.Host.{
  Result, ok, err, ◌>>=◌, ConfigFile, codex_auth, File, absent, unreadable, holds, openai_api_key,
  Host, if_home,
}
use claw.Llm.Tools.{Tool}
use claw.Llm.Anthropic.{Reply, no_request, no_response, cut_off, response, wrap}
use claw.Llm.Codex.{CodexBody, build_openai_codex_body}
use claw.Llm.Codex.Stream.{Envelope, parse_openai_codex_sse}
use claw.Llm.Codex.Creds.{
  OpenAiCodexCreds, OAuth, Ensured, parse_error, load_openai_codex_creds,
  refresh_openai_codex_creds, save_openai_codex_creds, ensure_fresh_openai_codex_creds,
}

pub record OpenAiClient : Type 0 where
  pub url : Bytes
  pub api_key : Bytes
  pub model : Bytes
  pub codex : Option OpenAiCodexCreds

pub record OaiRequest : Type 0 where
  pub model : Bytes
  pub messages : List Message
  pub tools : List Tool

-- JSON, the OAuth service, the scanner of a body, which may have broken off with an error, and
-- HTTP: `post` is given the URL, the key and the request, `post_codex` the number of the attempt.
pub record Services : Type 0 where
  pub oauth : OAuth
  pub unmarshal_auth : Bytes → Result (Option Bytes)
  pub unmarshal_choices : Bytes → Result (List Message)
  pub unmarshal_envelope : Bytes → Option Envelope
  pub scan : Bytes → List Bytes × Option Bytes
  pub post : Bytes → Bytes → OaiRequest → Reply
  pub post_codex : ℕ → OpenAiCodexCreds → CodexBody → Reply

unfoldable pub uses_openai_public_api : Bytes → Bool
uses_openai_public_api url = contains url (codes "api.openai.com")

abbrev pub auth_required : Bytes
auth_required = codes "openai codex oauth login required"

module _ (api : Services) where
  abbrev pub key_of : Option Bytes → Result Bytes
  key_of none = ok []
  key_of (some key) = ok (trim_space key)

  abbrev pub auth_key : File → Result Bytes
  auth_key absent = ok []
  auth_key (unreadable e) = err e
  auth_key (holds raw) =
      parse_error api.oauth (codes "~/.codex/auth.json") (api.unmarshal_auth raw) >>= key_of

  unfoldable pub load_codex_openai_api_key : Host → Result Bytes
  load_codex_openai_api_key h = if_home h.home_error (auth_key (h.file codex_auth))

  -- `none` is the nil error.
  abbrev pub with_creds :
      OpenAiClient → Result (Option OpenAiCodexCreds) → Option Bytes × OpenAiClient
  with_creds c (err e) = (some e, c)
  with_creds c (ok none) = (some auth_required, c)
  with_creds c (ok (some creds)) = (
    none,
    record c {
      codex = some creds;
      model =
          if is_nil c.model || same_text c.model (codes "gpt-4o") then codes "gpt-5.5" else c.model;
    },
  )

  abbrev pub from_env : Host → OpenAiClient → Bytes → Option Bytes × OpenAiClient
  from_env h c key =
      if is_nil key
      then with_creds c (load_openai_codex_creds api.oauth h)
      else (none, record c { api_key = key })

  abbrev pub from_auth : Host → OpenAiClient → Result Bytes → Option Bytes × OpenAiClient
  from_auth h c (err e) = (some e, c)
  from_auth h c (ok key) =
      if is_nil key
      then from_env h c (trim_space (h.env openai_api_key))
      else (none, record c { api_key = key })

  -- `Preflight`
  unfoldable pub openai_preflight : Host → OpenAiClient → Option Bytes × OpenAiClient
  unfolding load_codex_openai_api_key uses_openai_public_api
  openai_preflight h c =
      if not (is_nil c.api_key) || not (uses_openai_public_api c.url)
      then (none, c)
      else from_auth h c (load_codex_openai_api_key h)

  abbrev pub read_stream : List Bytes × Option Bytes → Result Message
  read_stream (lines, e) = parse_openai_codex_sse api.unmarshal_envelope e lines

  abbrev pub codex_reply : Reply → Result Message
  codex_reply (no_request e) = err e
  codex_reply (no_response e) = err e
  codex_reply (cut_off e) = err e
  codex_reply (response code body) =
      if code == 200
      then read_stream (api.scan body)
      else err (codes "status " ++ (decimal code ++ (codes ": " ++ trim_space body)))

  -- `completeCodexOnce`, on this attempt.
  unfoldable pub complete_codex_once :
      ℕ → Bytes → List Message → List Tool → OpenAiCodexCreds → Result Message
  complete_codex_once attempt model messages tools creds =
      codex_reply (api.post_codex attempt creds (build_openai_codex_body model messages tools))

  -- A run of a completion: its result, the host, the client and the attempts made.
  pub record Completed : Type 0 where
    pub result : Result Message
    pub host : Host
    pub client : OpenAiClient
    pub attempts : ℕ

  abbrev pub try_again :
      Host → OpenAiClient → List Message → List Tool → Result OpenAiCodexCreds × Host → Completed
  try_again h c messages tools (err e, h') = record {
    result = err e;
    host = h';
    client = c;
    attempts = 1;
  }
  try_again h c messages tools (ok creds, h') = record {
    result = complete_codex_once 1 c.model messages tools creds;
    host = (save_openai_codex_creds api.oauth h' creds).1;
    client = record c { codex = some creds };
    attempts = 2;
  }

  abbrev pub first_reply :
      Host → OpenAiClient → OpenAiCodexCreds → List Message → List Tool → Result Message → Completed
  first_reply h c creds messages tools (ok m) = record {
    result = ok m;
    host = h;
    client = c;
    attempts = 1;
  }
  first_reply h c creds messages tools (err e) =
      if not (contains e (codes "401"))
      then record { result = err e; host = h; client = c; attempts = 1 }
      else try_again h c messages tools (refresh_openai_codex_creds api.oauth h creds.refresh_token)

  abbrev pub on_ensured :
      Result OpenAiCodexCreds
      → Ensured api.oauth
      → OpenAiClient
      → List Message
      → List Tool
      → Completed
  on_ensured (err e) s c messages tools = record {
    result = err e;
    host = s.host;
    client = record c { codex = some s.pointed };
    attempts = 0;
  }
  on_ensured (ok creds) s c messages tools =
      first_reply s.host (record c { codex = some creds }) creds messages tools
        (complete_codex_once 0 c.model messages tools creds)

  abbrev pub with_ensured : OpenAiClient → List Message → List Tool → Ensured api.oauth → Completed
  with_ensured c messages tools s = on_ensured s.result s c messages tools

  -- `completeCodex`, by `c.codex`
  abbrev pub complete_by_creds :
      Option OpenAiCodexCreds → Host → OpenAiClient → List Message → List Tool → Completed
  complete_by_creds none h c messages tools = record {
    result = err (codes "missing Codex OAuth credentials");
    host = h;
    client = c;
    attempts = 0;
  }
  complete_by_creds (some creds) h c messages tools =
      with_ensured c messages tools (ensure_fresh_openai_codex_creds api.oauth h creds)

  unfoldable pub complete_codex : Host → OpenAiClient → List Message → List Tool → Completed
  unfolding complete_codex_once
  complete_codex h c messages tools = complete_by_creds c.codex h c messages tools

  abbrev pub first_choice : List Message → Result Message
  first_choice [] = err (codes "no choices in response")
  first_choice (m ∷ choices) = ok m

  abbrev pub openai_reply : Reply → Result Message
  openai_reply (no_request e) = err (codes "request: " ++ e)
  openai_reply (no_response e) = err (codes "http: " ++ e)
  openai_reply (cut_off e) = err (codes "read: " ++ e)
  openai_reply (response code body) =
      if code == 200
      then (wrap (codes "unmarshal: ") (api.unmarshal_choices body) >>= first_choice)
      else err (codes "status " ++ (decimal code ++ (codes ": " ++ body)))

  abbrev pub uses_codex : Option OpenAiCodexCreds → OpenAiClient → Bool
  uses_codex none c = false
  uses_codex (some creds) c = is_nil c.api_key && uses_openai_public_api c.url

  abbrev pub after_preflight :
      Host → List Message → List Tool → Option Bytes × OpenAiClient → Completed
  after_preflight h messages tools (some e, c) = record {
    result = err e;
    host = h;
    client = c;
    attempts = 0;
  }
  after_preflight h messages tools (none, c) =
      if uses_codex c.codex c then complete_codex h c messages tools else record {
        result = openai_reply (
            api.post c.url c.api_key
              (record { model = c.model; messages = messages; tools = tools }));
        host = h;
        client = c;
        attempts = 1;
      }

  -- `Complete`
  unfoldable pub openai_complete : Host → OpenAiClient → List Message → List Tool → Completed
  unfolding openai_preflight complete_codex uses_openai_public_api
  openai_complete h c messages tools = after_preflight h messages tools (openai_preflight h c)

  -- What `DescribeRequest` shows.
  pub data Described : Type 0 where
    codex_request : Bytes → CodexBody → Described
    oai_request : Bytes → OaiRequest → Described

  unfoldable pub describe_request : OpenAiClient → List Message → List Tool → Described
  unfolding uses_openai_public_api
  describe_request c messages tools =
      if uses_codex c.codex c
      then codex_request (codes "https://chatgpt.com/backend-api/codex/responses")
          (build_openai_codex_body c.model messages tools)
      else oai_request c.url (record { model = c.model; messages = messages; tools = tools })
