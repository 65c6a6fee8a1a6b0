-- ===== src/Llm/Codex/Creds/Fresh.antt =====
-- Credentials that the calls of bridge/llm/openai_codex.go go out with.
use claw.Prelude.{
  ℕ, ◌+◌, ◌<◌, Bool, true, false, ltb, ltb→lt, Option, none, some, ◌≡◌, ◌⊎◌, inl, inr, refl, sym,
  subst, ap, ◌∙◌, Bytes, is_nil, Bool-cases, ◌==◌, if◌then◌else◌,
}
use claw.Llm.Host.{Result, ok, err, ◌>>=◌, Host}
use claw.Llm.Codex.Creds.{
  OpenAiCodexCreds, CodexTokenResponse, Payload, OAuth, TokenReply, no_reply, reply,
  decode_openai_jwt, account_of, extract_codex_account_id, extract_jwt_expiry, fill_account,
  fill_expiry, creds_of, read_token, keep, refresh_openai_codex_creds, check_expiry, check_filled,
  check_account, ensure_fresh_openai_codex_creds,
}

-- What a chain of results gives comes from what its parts give.
abbrev Gives : {A : Type 0} → (A → Type 0) → Result A → Type 0
Gives P (ok a) = P a
Gives P (err e) = Unit {0}

bind-Gives :
    {A B : Type 0} (P : A → Type 0) (Q : B → Type 0) (r : Result A) (f : A → Result B)
    → Gives P r
    → ((a : A) → P a → Gives Q (f a))
    → Gives Q (r >>= f)
bind-Gives P Q (ok a) f h k = k a h
bind-Gives P Q (err e) f h k = tt

anything : {A : Type 0} (r : Result A) → Gives (λ a. Unit {0}) r
anything (ok a) = tt
anything (err e) = tt

if-Gives :
    {A : Type 0} (P : A → Type 0) (b : Bool) (x y : Result A)
    → (b ≡ true → Gives P x)
    → (b ≡ false → Gives P y)
    → Gives P (if b then x else y)
if-Gives P true x y h k = h refl
if-Gives P false x y h k = k refl

abbrev pub HasAccount : OpenAiCodexCreds → Type 0
HasAccount c = is_nil c.account_id ≡ false

abbrev IsName : Bytes → Type 0
IsName id = is_nil id ≡ false

module _ (api : OAuth) where
  account_of-IsName : (o : Option Bytes) → Gives IsName (account_of api o)
  account_of-IsName none = tt
  account_of-IsName (some id) = if-Gives IsName (is_nil id) _ _ (λ e. tt) (λ e. e)

  extract-IsName : (token : Bytes) → Gives IsName (extract_codex_account_id api token)
  unfolding extract_codex_account_id
  extract-IsName token =
      bind-Gives (λ (p : Payload). Unit {0}) IsName (decode_openai_jwt api token)
        (λ p. account_of api p.account) (anything (decode_openai_jwt api token))
        (λ p any. account_of-IsName p.account)

  -- The account is filled in, and the refresh token stays.
  abbrev Filled : OpenAiCodexCreds → OpenAiCodexCreds → Type 0
  Filled c c' = HasAccount c' × (c'.refresh_token ≡ c.refresh_token)

  fill_account-Filled : (c : OpenAiCodexCreds) → Gives (Filled c) (fill_account api c)
  unfolding fill_account
  fill_account-Filled c =
      if-Gives (Filled c) (is_nil c.account_id) _ _
        (λ e.
          bind-Gives IsName (Filled c) (extract_codex_account_id api c.access_token) _
            (extract-IsName c.access_token) (λ id h. (h, refl)))
        (λ e. (e, refl))

  fill_expiry-Filled : (c : OpenAiCodexCreds) → HasAccount c → Gives (Filled c) (fill_expiry api c)
  unfolding fill_expiry
  fill_expiry-Filled c h =
      if-Gives (Filled c) (c.expires_at == 0) _ _
        (λ e.
          bind-Gives (λ (ms : ℕ). Unit {0}) (Filled c) (extract_jwt_expiry api c.access_token) _
            (anything (extract_jwt_expiry api c.access_token)) (λ ms any. (h, refl)))
        (λ e. (h, refl))

  read_token-HasAccount : (now_ms : ℕ) (r : TokenReply) → Gives HasAccount (read_token api now_ms r)
  unfolding read_token
  read_token-HasAccount now_ms (no_reply e) = tt
  read_token-HasAccount now_ms (reply code raw) =
      if-Gives HasAccount (code == 200) _ _
        (λ e.
          bind-Gives (λ (t : CodexTokenResponse). Unit {0}) HasAccount (api.unmarshal_token raw)
            (creds_of api now_ms) (anything (api.unmarshal_token raw))
            (λ t any.
              bind-Gives IsName HasAccount (extract_codex_account_id api t.access_token) _
                (extract-IsName t.access_token) (λ id h. h)))
        (λ e. tt)

  keep-result : (h : Host) (r : Result OpenAiCodexCreds) → (keep api h r).0 ≡ r
  keep-result h (ok c) = refl
  keep-result h (err e) = refl

  -- Good for five minutes more, or what the token endpoint has just given for the refresh token.
  pub IsFresh : Host → OpenAiCodexCreds → OpenAiCodexCreds → Type 0
  IsFresh h old c =
      (h.now_ms + 300000 < c.expires_at)
      ⊎ (read_token api h.now_ms (api.post_refresh old.refresh_token) ≡ ok c)

  abbrev Usable : Host → OpenAiCodexCreds → OpenAiCodexCreds → Type 0
  Usable h old c = HasAccount c × IsFresh h old c

  Gives-known :
      (P : OpenAiCodexCreds → Type 0) (r : Result OpenAiCodexCreds)
      → Gives P r
      → Gives (λ c. P c × (r ≡ ok c)) r
  Gives-known P (ok c) h = (h, refl)
  Gives-known P (err e) h = tt

  Gives-map :
      (P Q : OpenAiCodexCreds → Type 0) (r : Result OpenAiCodexCreds)
      → Gives P r
      → ((c : OpenAiCodexCreds) → P c → Q c)
      → Gives Q r
  Gives-map P Q (ok c) h k = k c h
  Gives-map P Q (err e) h k = tt

  refresh-Usable :
      (h : Host) (old filled : OpenAiCodexCreds)
      → filled.refresh_token ≡ old.refresh_token
      → Gives (Usable h old) (refresh_openai_codex_creds api h filled.refresh_token).0
  unfolding refresh_openai_codex_creds IsFresh
  refresh-Usable h old filled same =
      let r : Result OpenAiCodexCreds =
        read_token api h.now_ms (api.post_refresh filled.refresh_token) in
      subst (Gives (Usable h old)) (sym (keep-result h r)) (
        Gives-map (λ c. HasAccount c × (r ≡ ok c)) (Usable h old) r
          (Gives-known HasAccount r
            (read_token-HasAccount h.now_ms (api.post_refresh filled.refresh_token)))
          (λ c k.
            (k.0, inr (ap (λ t. read_token api h.now_ms (api.post_refresh t)) (sym same) ∙ k.1))))

  check_expiry-Usable :
      (h : Host) (old filled : OpenAiCodexCreds)
      → Filled old filled
      → Gives (Usable h old) (check_expiry api h filled).result
  unfolding IsFresh
  check_expiry-Usable h old filled k =
      elim (Bool-cases (ltb (h.now_ms + 300000) filled.expires_at)) [
        | inl e ↦ rw e (k.0, inl (ltb→lt (h.now_ms + 300000) filled.expires_at e))
        | inr e ↦ rw e (refresh-Usable h old filled k.1)
      ]

  check_filled-Usable :
      (h : Host) (old creds : OpenAiCodexCreds) (r : Result OpenAiCodexCreds)
      → Gives (Filled old) r
      → Gives (Usable h old) (check_filled api h creds r).result
  check_filled-Usable h old creds (ok filled) k = check_expiry-Usable h old filled k
  check_filled-Usable h old creds (err e) k = tt

  check_account-Usable :
      (h : Host) (old : OpenAiCodexCreds) (r : Result OpenAiCodexCreds)
      → Gives (Filled old) r
      → Gives (Usable h old) (check_account api h old r).result
  check_account-Usable h old (ok c) k = check_filled-Usable h old c (fill_expiry api c) (
      Gives-map (Filled c) (Filled old) (fill_expiry api c) (fill_expiry-Filled c k.0)
        (λ c' m. (m.0, m.1 ∙ k.1)))
  check_account-Usable h old (err e) k = tt

  -- The credentials that a call goes out with name an account, and they are good for five minutes
  -- more or were given by the token endpoint in this call for the refresh token.
  pub ensure_fresh_openai_codex_creds-IsFresh :
      (h : Host) (old c : OpenAiCodexCreds)
      → (ensure_fresh_openai_codex_creds api h old).result ≡ ok c
      → HasAccount c × IsFresh h old c
  unfolding ensure_fresh_openai_codex_creds
  ensure_fresh_openai_codex_creds-IsFresh h old c e =
      subst (Gives (Usable h old)) e
        (check_account-Usable h old (fill_account api old) (fill_account-Filled old))
