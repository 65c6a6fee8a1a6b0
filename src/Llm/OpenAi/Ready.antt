-- ===== src/Llm/OpenAi/Ready.antt =====
-- What `Preflight` of bridge/llm/openai.go finds, and when `completeCodex` tries again.
use claw.Prelude.{
  ◌≤◌, true, false, Option, none, some, List, ◌≡◌, ◌⊎◌, inl, inr, refl, subst, arith, Bytes, codes,
  is_nil, contains, trim_space, Bool-cases,
}
use claw.Relay.History.{Message}
use claw.Llm.Host.{Result, ok, err, openai_api_key, Host}
use claw.Llm.Tools.{Tool}
use claw.Llm.Codex.Creds.{
  OpenAiCodexCreds, load_openai_codex_creds, refresh_openai_codex_creds,
  ensure_fresh_openai_codex_creds,
}
use claw.Llm.OpenAi.{
  OpenAiClient, Services, uses_openai_public_api, load_codex_openai_api_key, with_creds, from_env,
  from_auth, openai_preflight, complete_codex_once, Completed, try_again, first_reply, on_ensured,
  complete_by_creds, complete_codex,
}

-- There is a key, or the server is not OpenAI's and needs none, or there are credentials.
pub data IsReady (c : OpenAiClient) : Type 0 where
  keyed : is_nil c.api_key ≡ false → IsReady c
  elsewhere : uses_openai_public_api c.url ≡ false → IsReady c
  authorised : (creds : OpenAiCodexCreds) → c.codex ≡ some creds → IsReady c

abbrev Passes : Option Bytes × OpenAiClient → Type 0
Passes (none, c) = IsReady c
Passes (some e, c) = Unit {0}

module _ (api : Services) where
  with_creds-Passes :
      (c : OpenAiClient) (r : Result (Option OpenAiCodexCreds)) → Passes (with_creds api c r)
  with_creds-Passes c (err e) = tt
  with_creds-Passes c (ok none) = tt
  with_creds-Passes c (ok (some creds)) = authorised creds refl

  from_env-Passes : (h : Host) (c : OpenAiClient) (key : Bytes) → Passes (from_env api h c key)
  from_env-Passes h c key = elim (Bool-cases (is_nil key)) [
    | inl e ↦ rw e (with_creds-Passes c (load_openai_codex_creds api.oauth h))
    | inr e ↦ rw e (keyed e)
  ]

  from_auth-Passes : (h : Host) (c : OpenAiClient) (r : Result Bytes) → Passes (from_auth api h c r)
  from_auth-Passes h c (err e) = tt
  from_auth-Passes h c (ok key) = elim (Bool-cases (is_nil key)) [
    | inl e ↦ rw e (from_env-Passes h c (trim_space (h.env openai_api_key)))
    | inr e ↦ rw e (keyed e)
  ]

  preflight-Passes : (h : Host) (c : OpenAiClient) → Passes (openai_preflight api h c)
  unfolding openai_preflight
  preflight-Passes h c = elim (Bool-cases (is_nil c.api_key)) [
    | inr e ↦ rw e (keyed e)
    | inl e ↦ elim (Bool-cases (uses_openai_public_api c.url)) [
      | inr f ↦ rw (e, f) (elsewhere f)
      | inl f ↦ rw (e, f) (from_auth-Passes h c (load_codex_openai_api_key api h))
    ]
  ]

  -- A client that Preflight passes has a key, talks to another server than OpenAI's, or has OAuth
  -- credentials.
  pub openai_preflight-IsReady :
      (h : Host) (c c' : OpenAiClient) → openai_preflight api h c ≡ (none, c') → IsReady c'
  openai_preflight-IsReady h c c' e = subst Passes e (preflight-Passes h c)

  -- The credentials were fresh enough to be tried, the first reply is an error whose text holds
  -- "401", and new credentials are asked for.
  pub record Retried (h : Host) (c : OpenAiClient) (messages : List Message) (tools : List Tool)
      : Type 0 where
    pub old : OpenAiCodexCreds
    pub creds : OpenAiCodexCreds
    pub error : Bytes
    pub held : c.codex ≡ some old
    pub ensured : (ensure_fresh_openai_codex_creds api.oauth h old).result ≡ ok creds
    pub failed : complete_codex_once api 0 c.model messages tools creds ≡ err error
    pub unauthorised : contains error (codes "401") ≡ true

  -- One attempt at most, or two of which the first was refused.
  abbrev pub Tries : Completed api → Type 0 → Type 0
  Tries s P = (s.attempts ≤ 1) ⊎ ((s.attempts ≡ 2) × P)

  try_again-Tries :
      (h : Host) (c : OpenAiClient) (messages : List Message) (tools : List Tool)
      (r : Result OpenAiCodexCreds × Host) (P : Type 0)
      → P
      → Tries (try_again api h c messages tools r) P
  try_again-Tries h c messages tools (ok creds, h') P p = inr (refl, p)
  try_again-Tries h c messages tools (err e, h') P p = inl (omega arith)

  first_reply-Tries :
      (h : Host) (c : OpenAiClient) (creds : OpenAiCodexCreds) (messages : List Message)
      (tools : List Tool) (r : Result Message) (P : Type 0)
      → ((e : Bytes) → r ≡ err e → contains e (codes "401") ≡ true → P)
      → Tries (first_reply api h c creds messages tools r) P
  first_reply-Tries h c creds messages tools (ok m) P k = inl (omega arith)
  first_reply-Tries h c creds messages tools (err e) P k =
      elim (Bool-cases (contains e (codes "401"))) [
        | inl yes401 ↦ rw yes401 (
            try_again-Tries h c messages tools
              (refresh_openai_codex_creds api.oauth h creds.refresh_token) P (k e refl yes401))
        | inr no401 ↦ rw no401 (inl (omega arith))
      ]

  on_ensured-Tries :
      (h : Host) (old : OpenAiCodexCreds) (c : OpenAiClient) (messages : List Message)
      (tools : List Tool) (r : Result OpenAiCodexCreds)
      → c.codex ≡ some old
      → (ensure_fresh_openai_codex_creds api.oauth h old).result ≡ r
      → Tries
          (on_ensured api r (ensure_fresh_openai_codex_creds api.oauth h old) c messages tools)
          (Retried h c messages tools)
  on_ensured-Tries h old c messages tools (err e) held en = inl (omega arith)
  on_ensured-Tries h old c messages tools (ok creds) held en =
      first_reply-Tries (ensure_fresh_openai_codex_creds api.oauth h old).host
        (record c { codex = some creds }) creds messages tools
        (complete_codex_once api 0 c.model messages tools creds) (Retried h c messages tools)
        (λ e refused holds401. record {
          old = old;
          creds = creds;
          error = e;
          held = held;
          ensured = en;
          failed = refused;
          unauthorised = holds401;
        })

  by_creds-Tries :
      (h : Host) (c : OpenAiClient) (messages : List Message) (tools : List Tool)
      (o : Option OpenAiCodexCreds)
      → c.codex ≡ o
      → Tries (complete_by_creds api o h c messages tools) (Retried h c messages tools)
  by_creds-Tries h c messages tools none e = inl (omega arith)
  by_creds-Tries h c messages tools (some old) e =
      on_ensured-Tries h old c messages tools
        (ensure_fresh_openai_codex_creds api.oauth h old).result e refl

  -- A completion makes one attempt at most, or it makes two, and then the client's credentials were
  -- fresh and the first attempt ended in an error whose text holds "401".
  pub complete_codex-Retried :
      (h : Host) (c : OpenAiClient) (messages : List Message) (tools : List Tool)
      → Tries (complete_codex api h c messages tools) (Retried h c messages tools)
  unfolding complete_codex
  complete_codex-Retried h c messages tools = by_creds-Tries h c messages tools c.codex refl
