-- ===== src/Llm/Codex/Login.antt =====
-- bridge/llm/openai_codex.go: the login in the browser.
use claw.Prelude.{
  ℕ, Bool, ◌||◌, not, ◌==◌, Option, none, some, List, [], ◌∷◌, ◌++◌, ◌≡◌, inl, inr, refl, arith,
  ◌∙◌, Bytes, codes, if◌then◌else◌, is_nil, same_text, trim_space, Bool-cases,
}
use claw.Prelude.Text.Trims.{same_text_iff}
use claw.Llm.Host.{Result, err, ◌>>=◌}
use claw.Llm.Codex.Creds.{
  OpenAiCodexCreds, OAuth, TokenReply, no_reply, reply, creds_of, extract_codex_account_id,
}

-- `strings.ToLower` of the answer is a parameter; an error of reading is left to the caller.
unfoldable pub confirm_openai_codex_auth : (Bytes → Bytes) → Bytes → Bool
confirm_openai_codex_auth to_lower line =
    let answer = trim_space (to_lower line) in
    is_nil answer || same_text answer (codes "y") || same_text answer (codes "yes")

-- The query of a request to the callback.
pub record Callback : Type 0 where
  pub state : Bytes
  pub code : Bytes

pub data Response : Type 0 where
  state_mismatch missing_code completed : Response

-- The handler: its response, and the code where it sends one.
unfoldable pub on_callback : Bytes → Callback → Response × Option Bytes
on_callback state r =
    if not (same_text r.state state)
    then (state_mismatch, none)
    else if is_nil r.code
    then (missing_code, none)
    else (completed, some r.code)

abbrev pub first_some : Option Bytes → Option Bytes → Option Bytes
first_some none o = o
first_some (some c) o = some c

-- The channel `codeCh` holds the first code; the others are dropped.
unfoldable pub received_code : Bytes → List Callback → Option Bytes
unfolding on_callback
received_code state [] = none
received_code state (r ∷ rs) = first_some (on_callback state r).1 (received_code state rs)

-- `exchangeOpenAICodexCode`, on what the token endpoint gives at this time.
unfoldable pub exchange_openai_codex_code : OAuth → ℕ → TokenReply → Result OpenAiCodexCreds
unfolding extract_codex_account_id
exchange_openai_codex_code api now_ms (no_reply e) = err e
exchange_openai_codex_code api now_ms (reply code raw) =
    if code == 200
    then (api.unmarshal_token raw >>= creds_of api now_ms)
    else err (codes "OpenAI token exchange failed: " ++ trim_space raw)

-- A code is exchanged only if a request brought it together with the state of this login.
pub data Brought (state code : Bytes) : List Callback → Type 0 where
  now :
      (r : Callback) (rs : List Callback)
      → r.state ≡ state
      → r.code ≡ code
      → Brought state code (r ∷ rs)
  before : (r : Callback) (rs : List Callback) → Brought state code rs → Brought state code (r ∷ rs)

first_some-Brought :
    (state code : Bytes) (r : Callback) (rs : List Callback) (o : Option Bytes)
    → ((c : Bytes) → o ≡ some c → (r.state ≡ state) × (r.code ≡ c))
    → (received_code state rs ≡ some code → Brought state code rs)
    → first_some o (received_code state rs) ≡ some code
    → Brought state code (r ∷ rs)
first_some-Brought state code r rs none k later e = before r rs (later e)
first_some-Brought state code r rs (some c) k later e =
    let (same_state, same_code) = k c refl in now r rs same_state (same_code ∙ cc)

on_callback-code :
    (state : Bytes) (r : Callback) (c : Bytes)
    → (on_callback state r).1 ≡ some c
    → (r.state ≡ state) × (r.code ≡ c)
unfolding on_callback
on_callback-code state r c e = elim (Bool-cases (same_text r.state state)) [
  | inr other ↦ absurd ground arith
  | inl same ↦ elim (Bool-cases (is_nil r.code)) [
    | inl none_ ↦ absurd ground arith
    | inr there ↦ ((same_text_iff r.state state).0 same, ground arith)
  ]
]

-- The code that the login exchanges came in a request that named the state of this login.
pub received_code-Brought :
    (state code : Bytes) (rs : List Callback)
    → received_code state rs ≡ some code
    → Brought state code rs
unfolding received_code
received_code-Brought state code [] e = absurd cc
received_code-Brought state code (r ∷ rs) e =
    first_some-Brought state code r rs (on_callback state r).1 (on_callback-code state r)
      (received_code-Brought state code rs) e
