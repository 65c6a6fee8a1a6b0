-- ===== src/Llm/Codex/Creds.antt =====
-- bridge/llm/openai_codex.go: the OAuth credentials, from the files, from a token, and refreshed.
pub mod Fresh
use claw.Prelude.{
  ℕ, ◌+◌, ◌*◌, Bool, true, false, ◌&&◌, ◌||◌, not, ltb, ◌==◌, Option, none, some, List, [], ◌∷◌,
  ◌++◌, Bytes, codes, if◌then◌else◌, is_nil, split, trim_space,
}
use claw.Llm.Host.{
  Result, ok, err, ◌>>=◌, ConfigFile, openai_codex_oauth, codex_auth, File, absent, unreadable,
  holds, Host, if_home, write_file,
}

pub record OpenAiCodexCreds : Type 0 where
  pub access_token : Bytes
  pub refresh_token : Bytes
  pub id_token : Bytes
  pub account_id : Bytes
  pub expires_at : ℕ

-- `Tokens` of `codexStoredAuth`
pub record CodexStoredAuth : Type 0 where
  pub id_token : Bytes
  pub access_token : Bytes
  pub refresh_token : Bytes
  pub account_id : Bytes

pub record CodexTokenResponse : Type 0 where
  pub access_token : Bytes
  pub refresh_token : Bytes
  pub id_token : Bytes
  pub expires_in : ℕ

-- The claim `exp`: whether the number is 0, and the whole milliseconds in it.
pub record Expiry : Type 0 where
  pub is_zero : Bool
  pub ms : ℕ

-- The payload of a token: the account claim, if it is an object, with its account ID, empty where
-- that is no text; and the expiry, if it is a number.
pub record Payload : Type 0 where
  pub account : Option Bytes
  pub exp : Option Expiry

-- What the token endpoint gives: no response, or a status and a body.
pub data TokenReply : Type 0 where
  no_reply : Bytes → TokenReply
  reply : ℕ → Bytes → TokenReply

-- JSON, base64 and the token endpoint.
pub record OAuth : Type 0 where
  pub unmarshal_payload : Bytes → Result Payload
  pub unmarshal_creds : Bytes → Result OpenAiCodexCreds
  pub unmarshal_stored : Bytes → Result CodexStoredAuth
  pub unmarshal_token : Bytes → Result CodexTokenResponse
  pub marshal_creds : OpenAiCodexCreds → Bytes
  pub post_refresh : Bytes → TokenReply

-- The middle one of three parts.
abbrev pub middle : List Bytes → Result Bytes
middle (a ∷ b ∷ c ∷ []) = ok b
middle _ = err (codes "invalid token")

module _ (api : OAuth) where
  unfoldable pub decode_openai_jwt : Bytes → Result Payload
  decode_openai_jwt token = middle (split token b'.') >>= api.unmarshal_payload

  abbrev pub no_account : Bytes
  no_account = codes "failed to extract accountId from token"

  abbrev pub account_of : Option Bytes → Result Bytes
  account_of none = err no_account
  account_of (some id) = if is_nil id then err no_account else ok id

  unfoldable pub extract_codex_account_id : Bytes → Result Bytes
  unfolding decode_openai_jwt
  extract_codex_account_id token = decode_openai_jwt token >>= λ p. account_of p.account

  abbrev pub expiry_of : Option Expiry → Result ℕ
  expiry_of none = err (codes "token missing exp")
  expiry_of (some e) = if e.is_zero then err (codes "token missing exp") else ok e.ms

  unfoldable pub extract_jwt_expiry : Bytes → Result ℕ
  unfolding decode_openai_jwt
  extract_jwt_expiry token = decode_openai_jwt token >>= λ p. expiry_of p.exp

  -- `if creds.AccountID == "" { … }`
  unfoldable pub fill_account : OpenAiCodexCreds → Result OpenAiCodexCreds
  unfolding extract_codex_account_id
  fill_account creds =
      if is_nil creds.account_id
      then (extract_codex_account_id creds.access_token >>= λ id.
          ok (record creds { account_id = id }))
      else ok creds

  -- `if creds.ExpiresAt == 0 { … }`
  unfoldable pub fill_expiry : OpenAiCodexCreds → Result OpenAiCodexCreds
  unfolding extract_jwt_expiry
  fill_expiry creds =
      if creds.expires_at == 0
      then (extract_jwt_expiry creds.access_token >>= λ ms. ok (record creds { expires_at = ms }))
      else ok creds

  abbrev pub complete_creds : OpenAiCodexCreds → Result (Option OpenAiCodexCreds)
  complete_creds creds =
      if is_nil creds.access_token || is_nil creds.refresh_token
      then ok none
      else fill_account creds >>= λ c. ok (some c)

  abbrev pub parse_error : {A : Type 0} → Bytes → Result A → Result A
  parse_error name (ok a) = ok a
  parse_error name (err e) = err (codes "parse " ++ (name ++ (codes ": " ++ e)))

  abbrev pub saved_creds : Bytes → File → Result (Option OpenAiCodexCreds)
  saved_creds name absent = ok none
  saved_creds name (unreadable e) = err e
  saved_creds name (holds raw) = parse_error name (api.unmarshal_creds raw) >>= complete_creds

  unfoldable pub load_saved_openai_codex_creds : Host → Result (Option OpenAiCodexCreds)
  unfolding fill_account
  load_saved_openai_codex_creds h =
      if_home h.home_error (saved_creds (h.path openai_codex_oauth) (h.file openai_codex_oauth))

  abbrev pub or_zero : Result ℕ → ℕ
  or_zero (ok n) = n
  or_zero (err e) = 0

  abbrev pub cli_account : CodexStoredAuth → Result Bytes
  cli_account auth =
      let id = trim_space auth.account_id in
      if is_nil id then extract_codex_account_id auth.access_token else ok id

  abbrev pub cli_creds : CodexStoredAuth → Result (Option OpenAiCodexCreds)
  cli_creds auth =
      if is_nil auth.access_token || is_nil auth.refresh_token
      then ok none
      else cli_account auth >>= λ account_id. ok (
          some (record {
            access_token = trim_space auth.access_token;
            refresh_token = trim_space auth.refresh_token;
            id_token = trim_space auth.id_token;
            account_id = account_id;
            expires_at = or_zero (extract_jwt_expiry auth.access_token);
          }))

  abbrev pub cli_auth : File → Result (Option OpenAiCodexCreds)
  cli_auth absent = ok none
  cli_auth (unreadable e) = err e
  cli_auth (holds raw) =
      parse_error (codes "~/.codex/auth.json") (api.unmarshal_stored raw) >>= cli_creds

  unfoldable pub load_codex_cli_auth : Host → Result (Option OpenAiCodexCreds)
  unfolding extract_codex_account_id extract_jwt_expiry
  load_codex_cli_auth h = if_home h.home_error (cli_auth (h.file codex_auth))

  abbrev pub or_load :
      Option OpenAiCodexCreds → Result (Option OpenAiCodexCreds) → Result (Option OpenAiCodexCreds)
  or_load none r = r
  or_load (some creds) r = ok (some creds)

  unfoldable pub load_openai_codex_creds : Host → Result (Option OpenAiCodexCreds)
  unfolding load_saved_openai_codex_creds load_codex_cli_auth
  load_openai_codex_creds h =
      load_saved_openai_codex_creds h >>= λ saved. or_load saved (load_codex_cli_auth h)

  abbrev pub save_to : Option Bytes → Host → OpenAiCodexCreds → Result (Unit {0}) × Host
  save_to none h creds = write_file h openai_codex_oauth (api.marshal_creds creds ++ (b'\n' ∷ []))
  save_to (some e) h creds = (err e, h)

  unfoldable pub save_openai_codex_creds : Host → OpenAiCodexCreds → Result (Unit {0}) × Host
  save_openai_codex_creds h creds = save_to h.home_error h creds

  -- The credentials in the body of the token endpoint.
  abbrev pub creds_of : ℕ → CodexTokenResponse → Result OpenAiCodexCreds
  creds_of now_ms tok = extract_codex_account_id tok.access_token >>= λ account_id. ok (record {
    access_token = tok.access_token;
    refresh_token = tok.refresh_token;
    id_token = tok.id_token;
    account_id = account_id;
    expires_at = now_ms + tok.expires_in * 1000;
  })

  unfoldable pub read_token : ℕ → TokenReply → Result OpenAiCodexCreds
  unfolding extract_codex_account_id
  read_token now_ms (no_reply e) = err e
  read_token now_ms (reply code raw) =
      if code == 200
      then (api.unmarshal_token raw >>= creds_of now_ms)
      else err (codes "OpenAI token refresh failed: " ++ trim_space raw)

  -- The error of saving is dropped.
  abbrev pub keep : Host → Result OpenAiCodexCreds → Result OpenAiCodexCreds × Host
  keep h (ok creds) = (ok creds, (save_openai_codex_creds h creds).1)
  keep h (err e) = (err e, h)

  unfoldable pub refresh_openai_codex_creds : Host → Bytes → Result OpenAiCodexCreds × Host
  unfolding read_token save_openai_codex_creds
  refresh_openai_codex_creds h refresh_token =
      keep h (read_token h.now_ms (api.post_refresh refresh_token))

  -- A run of `ensureFreshOpenAICodexCreds`: its result, the credentials that its argument points to
  -- at the end, and the host.
  pub record Ensured : Type 0 where
    pub result : Result OpenAiCodexCreds
    pub pointed : OpenAiCodexCreds
    pub host : Host

  abbrev pub refreshed : OpenAiCodexCreds → Result OpenAiCodexCreds × Host → Ensured
  refreshed creds (r, h) = record { result = r; pointed = creds; host = h }

  abbrev pub check_expiry : Host → OpenAiCodexCreds → Ensured
  check_expiry h creds =
      if ltb (h.now_ms + 300000) creds.expires_at
      then record { result = ok creds; pointed = creds; host = h }
      else refreshed creds (refresh_openai_codex_creds h creds.refresh_token)

  abbrev pub check_filled : Host → OpenAiCodexCreds → Result OpenAiCodexCreds → Ensured
  check_filled h creds (ok filled) = check_expiry h filled
  check_filled h creds (err e) = record { result = err e; pointed = creds; host = h }

  abbrev pub check_account : Host → OpenAiCodexCreds → Result OpenAiCodexCreds → Ensured
  check_account h creds (ok filled) = check_filled h filled (fill_expiry filled)
  check_account h creds (err e) = record { result = err e; pointed = creds; host = h }

  -- `ensureFreshOpenAICodexCreds` of credentials that are not nil, as `completeCodex` calls it.
  unfoldable pub ensure_fresh_openai_codex_creds : Host → OpenAiCodexCreds → Ensured
  unfolding fill_account fill_expiry refresh_openai_codex_creds
  ensure_fresh_openai_codex_creds h creds = check_account h creds (fill_account creds)
