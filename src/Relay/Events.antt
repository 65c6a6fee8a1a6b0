-- ===== src/Relay/Events.antt =====
-- bridge/relay/relay.go: the texts of the events that the Commodore raises for the LLM.
use claw.Prelude.{
  ℕ, zero, suc, ◌+◌, ◌/◌, ◌%◌, List, [], ◌∷◌, ◌++◌, ◌==◌, ltb, if◌then◌else◌, Bytes, codes,
}

-- The verb `%d`, on fuel above the number.
abbrev decimal_from : ℕ → ℕ → Bytes
decimal_from zero n = []
decimal_from (suc fuel) n =
    let more = decimal_from fuel (n / 10) in
    if ltb n 10 then (b'0' + n) ∷ [] else more ++ ((b'0' + n % 10) ∷ [])

unfoldable pub decimal : ℕ → Bytes
decimal n = decimal_from (suc n) n

-- The `switch` of `parseC64LLMEvent`.
event_label : ℕ → Bytes
event_label tag =
    if tag == 1
    then codes "user"
    else if tag == 2
    then codes "heartbeat"
    else if tag == 3
    then codes "status"
    else if tag == 4
    then codes "result"
    else if tag == 5
    then codes "error"
    else codes "event"

unfoldable pub parse_c64_llm_event : Bytes → Bytes × Bytes
unfolding event_label
parse_c64_llm_event [] = (codes "event", [])
parse_c64_llm_event (tag ∷ body) = (event_label tag, body)

unfoldable pub format_c64_llm_event : Bytes → Bytes
unfolding parse_c64_llm_event
format_c64_llm_event payload =
    let (label, body) = parse_c64_llm_event payload in
    codes "[C64 " ++ (label ++ (codes "]\n" ++ body))

-- The loop of `formatC64LLMEvents`, from the event with this index on.
format_batch : ℕ → List Bytes → Bytes
format_batch i [] = []
format_batch i (payload ∷ payloads) =
    let (label, body) = parse_c64_llm_event payload in
    codes "\n["
    ++ (decimal (i + 1)
        ++ (codes ":" ++ (label ++ (codes "] " ++ (body ++ format_batch (i + 1) payloads)))))

unfoldable pub format_c64_llm_events : List Bytes → Bytes
unfolding format_batch decimal format_c64_llm_event
format_c64_llm_events (payload ∷ []) = format_c64_llm_event payload
format_c64_llm_events payloads = codes "[C64 event batch]" ++ format_batch 0 payloads
