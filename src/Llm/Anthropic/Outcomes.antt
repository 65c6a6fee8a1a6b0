-- ===== src/Llm/Anthropic/Outcomes.antt =====
-- What `Complete` of bridge/llm/anthropic.go gives, and what it leaves in the client.
use claw.Prelude.{
  Bool, true, false, Option, none, some, List, ◌≡◌, inl, inr, refl, arith, Bytes, Bool-cases, [],
  ap, subst, ◌∙◌, ◌==◌, ==_iff,
}
use claw.Relay.History.{Message}
use claw.Llm.Host.{Result, ok, err, Host}
use claw.Llm.Keys.{AnthropicClient, token}
use claw.Llm.Tools.{Tool}
use claw.Llm.Anthropic.{
  AnthRequest, AnthError, AnthResponse, Api, no_request, no_response, cut_off, Reply, response,
  anth_request, anth_complete, from_anth_response, on_reply, send_request, with_key, read_answer,
  answer,
}

-- How a completion succeeds: with a key, a request that JSON takes, status 200 and a body without
-- an error; the message is that of the body, and the client holds the key.
pub record Succeeded (api : Api) (h : Host) (messages : List Message) (tools : List Tool)
    (c c' : AnthropicClient) (m : Message) : Type 0 where
  pub key : Bytes
  pub request : AnthRequest
  pub body : Bytes
  pub parsed : AnthResponse
  pub keyed : token h c ≡ (ok key, c')
  pub requested : anth_request api c' messages tools ≡ ok request
  pub posted : api.post c'.url key request ≡ response 200 body
  pub read : api.unmarshal body ≡ ok parsed
  pub no_error : parsed.error ≡ none
  pub message : m ≡ from_anth_response parsed

answer-ok :
    (e : Option AnthError) (resp : AnthResponse) (m : Message)
    → answer e resp ≡ ok m
    → (e ≡ none) × (m ≡ from_anth_response resp)
answer-ok none resp m h = (refl, cc)
answer-ok (some e) resp m h = absurd cc

read_answer-ok :
    (r : Result AnthResponse) (m : Message)
    → read_answer r ≡ ok m
    → (resp : AnthResponse) × (r ≡ ok resp) × (resp.error ≡ none) × (m ≡ from_anth_response resp)
read_answer-ok (ok resp) m h =
    let (e, said) = answer-ok resp.error resp m h in (resp, refl, e, said)
read_answer-ok (err e) m h = absurd cc

on_reply-ok :
    (api : Api) (rep : Reply) (c c' : AnthropicClient) (m : Message)
    → on_reply api rep c ≡ (ok m, c')
    → (body : Bytes) × (rep ≡ response 200 body)
      × (c ≡ c')
      × (read_answer (api.unmarshal body) ≡ ok m)
unfolding on_reply
on_reply-ok api (no_request e) c c' m h = absurd cc
on_reply-ok api (no_response e) c c' m h = absurd cc
on_reply-ok api (cut_off e) c c' m h = absurd cc
on_reply-ok api (response code body) c c' m h = elim (Bool-cases (code == 401)) [
  | inl refused ↦ absurd ground arith
  | inr else_ ↦ elim (Bool-cases (code == 200)) [
    | inr bad ↦ absurd ground arith
    | inl good ↦
        let same : code ≡ 200 = (==_iff code 200).0 good in
        let e : (read_answer (api.unmarshal body), c) ≡ (ok m, c') = ground arith in
        (
          body,
          rw same refl,
          ap (λ (p : Result Message × AnthropicClient). p.1) e,
          ap (λ (p : Result Message × AnthropicClient). p.0) e,
        )
  ]
]

send_request-ok :
    (api : Api) (key : Bytes) (c c' : AnthropicClient) (r : Result AnthRequest) (m : Message)
    → send_request api key c r ≡ (ok m, c')
    → (req : AnthRequest) × (r ≡ ok req) × (on_reply api (api.post c.url key req) c ≡ (ok m, c'))
send_request-ok api key c c' (ok req) m h = (req, refl, h)
send_request-ok api key c c' (err e) m h = absurd cc

module _ (api : Api) (h : Host) (messages : List Message) (tools : List Tool)
    (c : AnthropicClient) where
  with_key-ok :
      (t : Result Bytes × AnthropicClient) (c' : AnthropicClient) (m : Message)
      → token h c ≡ t
      → with_key api messages tools t ≡ (ok m, c')
      → Succeeded api h messages tools c c' m
  with_key-ok (err e, c1) c' m et e' = absurd cc
  with_key-ok (ok key, c1) c' m et e =
      let (req, er, replied) =
        send_request-ok api key c1 c' (anth_request api c1 messages tools) m e in
      let (body, posted, same, read) = on_reply-ok api (api.post c1.url key req) c1 c' m replied in
      let (resp, eb, ne, said) = read_answer-ok (api.unmarshal body) m read in
      record {
        key = key;
        request = req;
        body = body;
        parsed = resp;
        keyed = et ∙ ap (λ x. (ok key, x)) same;
        requested =
            subst (λ (x : AnthropicClient). anth_request api x messages tools ≡ ok req) same er;
        posted =
            subst (λ (x : AnthropicClient). api.post x.url key req ≡ response 200 body) same posted;
        read = eb;
        no_error = ne;
        message = said;
      }

  -- A completion succeeds only with a key, a request that JSON takes, status 200 and a body without
  -- an error; its message is that of the body.
  pub anth_complete-Succeeded :
      (c' : AnthropicClient) (m : Message)
      → anth_complete api h messages tools c ≡ (ok m, c')
      → Succeeded api h messages tools c c' m
  unfolding anth_complete
  anth_complete-Succeeded c' m e = with_key-ok (token h c) c' m refl e

-- The server says that the key is no good.
abbrev pub is_refused : Reply → Bool
is_refused (response code body) = code == 401
is_refused (no_request e) = false
is_refused (no_response e) = false
is_refused (cut_off e) = false

abbrev pub is_err : {A : Type 0} → Result A → Bool
is_err (ok a) = false
is_err (err e) = true

abbrev pub forget : Bool → AnthropicClient → AnthropicClient
forget true c = record c { cached_token = [] }
forget false c = c
