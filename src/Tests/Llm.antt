-- ===== src/Tests/Llm.antt =====
-- Runs of the theorems on bridge/llm at concrete clients.
use claw.Prelude.{
  Option, none, some, List, [], ◌∷◌, ◌++◌, ◌≡◌, refl, arith, Bytes, codes, join, has_prefix,
}
use claw.Relay.History.{Role, exec}
use claw.Llm.Host.{ok, err, Host, absent}
use claw.Llm.Keys.{AnthropicClient, validate_anthropic_api_key, token}
use claw.Llm.Keys.Settled.{IsSettled, token-IsSettled}
use claw.Llm.Anthropic.{
  AnthContent, AnthResponse, blocks, AnthRequest, Api, response, text_part, from_anth_response,
  to_anth_messages,
}
use claw.Llm.Anthropic.Turns.{texts, from_first, uses, newline, to_anth_messages-from_anth_response}
use claw.Llm.Codex.{
  CodexItem, message, output_text, codex_response_to_message, codex_inputs, text_input,
}
use claw.Llm.Codex.RoundTrip.{
  call_entries, answer_entries, item_texts, tool_results, codex_inputs-codex_response_to_message,
}
use claw.Llm.Codex.Stream.{Envelope, parse_openai_codex_sse}
use claw.Llm.Codex.Stream.Framing.{outcome, envelopes, events, parse_openai_codex_sse-outcome}
use claw.Llm.Codex.Creds.{
  OpenAiCodexCreds, OAuth, no_reply, ensure_fresh_openai_codex_creds, fill_account, fill_expiry,
}
use claw.Llm.Codex.Creds.Fresh.{HasAccount, IsFresh, ensure_fresh_openai_codex_creds-IsFresh}

-- A host without keys that can write.
abbrev bare : Host
bare = record {
  env = λ v. [];
  home_error = none;
  path = λ f. codes "token";
  file = λ f. absent;
  write_error = λ f. none;
  now_ms = 1000;
}

abbrev key : Bytes
key = codes "sk-ant-api"

abbrev keyed : AnthropicClient
keyed = record { url = codes "u"; model = codes "m"; cached_token = key }

keyed-token : token bare keyed ≡ (ok key, keyed)
unfolding token validate_anthropic_api_key has_prefix
keyed-token = refl

token-IsSettled_example : IsSettled key keyed
token-IsSettled_example = token-IsSettled bare keyed keyed key keyed-token

-- Two texts and a call without input.
abbrev two_texts : AnthResponse
two_texts = record {
  content =
      AnthContent.text (codes "a")
      ∷ AnthContent.text (codes "b")
      ∷ AnthContent.tool_use (codes "1") exec []
      ∷ [];
  error = none;
}

to_anth_messages-from_anth_response_example :
    to_anth_messages ok (from_anth_response two_texts ∷ [])
    ≡ ok (
        record {
          role = Role.assistant;
          content = blocks (
              text_part (join (from_first (texts two_texts.content)) newline)
              ++ uses (λ t. t) two_texts.content);
        }
        ∷ [])
to_anth_messages-from_anth_response_example =
    to_anth_messages-from_anth_response ok (λ t. t) two_texts refl (refl, tt)

-- A server that refuses every key.
abbrev refusing : Api
refusing = record {
  compact = ok;
  unmarshal = λ body. err [];
  post = λ url k req. response 401 (codes "no");
}

abbrev empty_request : AnthRequest
empty_request = record { model = codes "m"; system_blocks = []; messages = []; tools = [] }

-- A call and a text.
abbrev call_and_text : List CodexItem
call_and_text =
    CodexItem.function_call (codes "c") (codes "f") exec []
    ∷ message (output_text (codes "hi") ∷ [])
    ∷ []

codex_inputs-codex_response_to_message_example :
    (let m = codex_response_to_message call_and_text in
      codex_inputs 1 (m ∷ tool_results (codes "done" ∷ []) m.tool_calls))
    ≡ (call_entries call_and_text ++ text_input 1 (join (item_texts call_and_text) newline))
      ++ answer_entries (codes "done" ∷ []) call_and_text
codex_inputs-codex_response_to_message_example =
    codex_inputs-codex_response_to_message 1 call_and_text (codes "done" ∷ [])
      ((λ p. omega (arith, p), tt), (tt, tt))

abbrev always_completed : Bytes → Option Envelope
always_completed text = some (Envelope.completed (some call_and_text))

abbrev one_event : List Bytes
one_event = codes "data: {}" ∷ [] ∷ []

parse_openai_codex_sse-outcome_example :
    parse_openai_codex_sse always_completed none one_event
    ≡ outcome none (envelopes always_completed (events one_event)) []
parse_openai_codex_sse-outcome_example =
    parse_openai_codex_sse-outcome always_completed none one_event

abbrev no_oauth : OAuth
no_oauth = record {
  unmarshal_payload = λ raw. err [];
  unmarshal_creds = λ raw. err [];
  unmarshal_stored = λ raw. err [];
  unmarshal_token = λ raw. err [];
  marshal_creds = λ c. [];
  post_refresh = λ t. no_reply [];
}

abbrev good_creds : OpenAiCodexCreds
good_creds = record {
  access_token = codes "a";
  refresh_token = codes "r";
  id_token = [];
  account_id = codes "acc";
  expires_at = 400000;
}

good-ensured : (ensure_fresh_openai_codex_creds no_oauth bare good_creds).result ≡ ok good_creds
unfolding ensure_fresh_openai_codex_creds fill_account fill_expiry
good-ensured = refl

ensure_fresh_openai_codex_creds-IsFresh_example :
    HasAccount good_creds × IsFresh no_oauth bare good_creds good_creds
ensure_fresh_openai_codex_creds-IsFresh_example =
    ensure_fresh_openai_codex_creds-IsFresh no_oauth bare good_creds good_creds good-ensured
