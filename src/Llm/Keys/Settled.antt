-- ===== src/Llm/Keys/Settled.antt =====
-- Which keys the client of bridge/llm/anthropic.go uses, and what `auth set-key` stores.
use claw.Prelude.{
  false, Option, none, some, ◌≡◌, ◌↔◌, refl, inl, inr, ap, sym, subst, ◌∙◌, [], ◌∷◌, ◌++◌, arith,
  Bytes, is_nil, trim_space, Bool-cases,
}
use claw.Prelude.Text.Trims.{trim_space-newline, trim_space_idem}
use claw.Llm.Host.{
  Result, ok, err, anthropic_token, holds, anthropic_api_key, Host, write_file, put_file,
}
use claw.Llm.Keys.{
  AnthropicClient, validate_anthropic_api_key, checked, from_stored, token,
  load_anthropic_stored_token, save_anthropic_token, save_anthropic_stored_token,
}

-- A client that holds a valid key, and gives it whatever the host says.
pub IsSettled : Bytes → AnthropicClient → Type 0
IsSettled tok c =
    (validate_anthropic_api_key tok ≡ none)
    × (c.cached_token ≡ tok)
    × ((h : Host) → token h c ≡ (ok tok, c))

valid_not_nil : (tok : Bytes) → validate_anthropic_api_key tok ≡ none → is_nil tok ≡ false
unfolding validate_anthropic_api_key
valid_not_nil tok e = ground arith

cached-token :
    (tok : Bytes) (c : AnthropicClient)
    → validate_anthropic_api_key tok ≡ none
    → c.cached_token ≡ tok
    → IsSettled tok c
unfolding IsSettled token
cached-token tok c valid e = (valid, e, λ h. ground (arith, valid_not_nil tok valid))

checked-IsSettled :
    (tok : Bytes) (o : Option Bytes) (c c' : AnthropicClient) (key : Bytes)
    → validate_anthropic_api_key tok ≡ o
    → checked o tok c ≡ (ok key, c')
    → IsSettled key c'
checked-IsSettled tok none c c' key e h =
    let same : tok ≡ key = cc in
    cached-token key c' (subst (λ k. validate_anthropic_api_key k ≡ none) same e)
      (ap (λ (x : Result Bytes × AnthropicClient). x.1.cached_token) (sym h) ∙ same)
checked-IsSettled tok (some e') c c' key e h = absurd cc

from_stored-IsSettled :
    (r : Result Bytes) (c c' : AnthropicClient) (key : Bytes)
    → from_stored r c ≡ (ok key, c')
    → IsSettled key c'
from_stored-IsSettled (err e) c c' key h = absurd cc
from_stored-IsSettled (ok tok) c c' key h = elim (Bool-cases (is_nil tok)) [
  | inl e ↦ absurd ground arith
  | inr e ↦ checked-IsSettled tok (validate_anthropic_api_key tok) c c' key refl (ground arith)
]

-- A key that the client gives is valid, and the client then holds it: a later call on that
-- client gives the same key, whatever the environment and the stored file then are.
pub token-IsSettled :
    (h : Host) (c c' : AnthropicClient) (key : Bytes) → token h c ≡ (ok key, c') → IsSettled key c'
unfolding token
token-IsSettled h c c' key e = elim (Bool-cases (is_nil c.cached_token)) [
  | inr held ↦
      checked-IsSettled c.cached_token (validate_anthropic_api_key c.cached_token) c c' key refl
        (ground arith)
  | inl free ↦ elim (Bool-cases (is_nil (trim_space (h.env anthropic_api_key)))) [
    | inr set ↦
        checked-IsSettled (trim_space (h.env anthropic_api_key))
          (validate_anthropic_api_key (trim_space (h.env anthropic_api_key))) c c' key refl
          (ground arith)
    | inl unset ↦ from_stored-IsSettled (load_anthropic_stored_token h) c c' key (ground arith)
  ]
]

-- On a host that can write, `auth set-key` stores a text exactly if the client accepts it, trimmed.
pub save_anthropic_token-validate :
    (h : Host) (t : Bytes)
    → h.home_error ≡ none
    → h.write_error anthropic_token ≡ none
    → ((save_anthropic_token h t).0 ≡ ok tt) ↔ (validate_anthropic_api_key (trim_space t) ≡ none)
unfolding save_anthropic_token save_anthropic_stored_token validate_anthropic_api_key write_file
save_anthropic_token-validate h t home write = ground arith

saved :
    (h : Host) (t : Bytes)
    → h.home_error ≡ none
    → h.write_error anthropic_token ≡ none
    → validate_anthropic_api_key (trim_space t) ≡ none
    → save_anthropic_token h t
      ≡ (ok tt, put_file h anthropic_token (holds (trim_space (trim_space t) ++ (b'\n' ∷ []))))
unfolding save_anthropic_token save_anthropic_stored_token validate_anthropic_api_key write_file
saved h t home write valid = ground arith

found :
    (h : Host) (s : Bytes)
    → h.home_error ≡ none
    → load_anthropic_stored_token
        (put_file h anthropic_token (holds (trim_space s ++ (b'\n' ∷ []))))
      ≡ ok (trim_space s)
unfolding load_anthropic_stored_token
found h s home = rw (home, trim_space-newline s)

-- A key that `auth set-key` stores is the one that a client without another key gives, trimmed.
pub token-save_anthropic_token :
    (h : Host) (t : Bytes) (c : AnthropicClient)
    → h.home_error ≡ none
    → h.write_error anthropic_token ≡ none
    → validate_anthropic_api_key (trim_space t) ≡ none
    → trim_space (h.env anthropic_api_key) ≡ []
    → c.cached_token ≡ []
    → token (save_anthropic_token h t).1 c
      ≡ (ok (trim_space t), record c { cached_token = trim_space t })
unfolding token
token-save_anthropic_token h t c home write valid unset free = rw (
  saved h t home write valid,
  unset,
  free,
  found h (trim_space t) home,
  trim_space_idem t,
  valid_not_nil (trim_space t) valid,
  valid,
)
