-- ===== src/Cmd/Typing.antt =====
-- cmd/claw64-bridge/main.go: the handler of `runChatBridge` with its typing indicator, and
-- `sendBackendMessage`. The ticker, which says again that the bridge types, is left out.
use claw.Prelude.{
  Bool, true, false, List, [], ◌∷◌, ◌++◌, append_assoc, ◌≡◌, refl, if◌then◌else◌, Bytes, is_nil,
  trim_space, not, ◌&&◌, ap, sym, ◌∙◌, append-nil, Bool-cases, inl, inr,
}

-- What goes out: typing on or off, a text spoken aloud, a message.
pub data TypingAct : Type 0 where
  typing : Bool → TypingAct
  spoken sent : Bytes → TypingAct

-- `typingSession`: whether there is an indicator, and whether `stop` has run.
pub record TypingSession : Type 0 where
  pub has_indicator : Bool
  pub stopped : Bool
  pub acts : List TypingAct

abbrev pub act : TypingAct → TypingSession → TypingSession
act a t = record t { acts = t.acts ++ (a ∷ []) }

unfoldable pub start_typing_indicator : Bool → TypingSession
start_typing_indicator has_indicator = record {
  has_indicator = has_indicator;
  stopped = false;
  acts = if has_indicator then typing true ∷ [] else [];
}

-- `Stop`, whose body runs once.
unfoldable pub stop_typing : TypingSession → TypingSession
stop_typing t =
    if t.has_indicator
    then if t.stopped then t else act (typing false) (record t { stopped = true })
    else t

unfoldable pub send_backend_message : Bool → Bytes → TypingSession → TypingSession
send_backend_message say message t =
    act (sent message)
      (if say && not (is_nil (trim_space message)) then act (spoken message) t else t)

-- The callback that `HandleMessageStream` calls for each text, and the deferred stop.
unfoldable pub emit_all : Bool → List Bytes → TypingSession → TypingSession
emit_all say [] t = t
emit_all say (m ∷ ms) t = emit_all say ms (send_backend_message say m (stop_typing t))

unfoldable pub handle_chat : Bool → Bool → List Bytes → TypingSession
handle_chat has_indicator say messages =
    stop_typing (emit_all say messages (start_typing_indicator has_indicator))

-- The messages as they go out.
abbrev pub outgoing : Bool → List Bytes → List TypingAct
outgoing say [] = []
outgoing say (m ∷ ms) =
    (if say && not (is_nil (trim_space m)) then spoken m ∷ sent m ∷ [] else sent m ∷ [])
    ++ outgoing say ms

send_backend_message-acts :
    (say : Bool) (m : Bytes) (t : TypingSession)
    → send_backend_message say m t ≡ record t {
      acts =
          t.acts
          ++ (if say && not (is_nil (trim_space m)) then spoken m ∷ sent m ∷ [] else sent m ∷ []);
    }
unfolding send_backend_message
send_backend_message-acts say m t = elim (Bool-cases (say && not (is_nil (trim_space m)))) [
  | inl e ↦ rw (e, append_assoc)
  | inr e ↦ rw e
]

-- Once stopped, a session is stopped.
stop_typing-stopped : (t : TypingSession) → t.stopped ≡ true → stop_typing t ≡ t
unfolding stop_typing
stop_typing-stopped t h = elim (Bool-cases t.has_indicator) [ inl e ↦ simp (e, h) | inr e ↦ simp e ]

stop_typing-none : (t : TypingSession) → t.has_indicator ≡ false → stop_typing t ≡ t
unfolding stop_typing
stop_typing-none t h = simp h

emit_all-acts :
    (say : Bool) (ms : List Bytes) (t : TypingSession)
    → ((acts : List TypingAct) → stop_typing (record t { acts = acts }) ≡ record t { acts = acts })
    → emit_all say ms t ≡ record t { acts = t.acts ++ outgoing say ms }
unfolding emit_all
emit_all-acts say [] t h = ap (λ a. record t { acts = a }) (sym (append-nil t.acts))
emit_all-acts say (m ∷ ms) t h =
    ap (λ s. emit_all say ms (send_backend_message say m s)) (h t.acts)
    ∙ ap (emit_all say ms) (send_backend_message-acts say m t)
    ∙ emit_all-acts say ms _ h
    ∙ ap (λ a. record t { acts = a }) (append_assoc t.acts _ (outgoing say ms))

-- Where the channel shows typing, it is told so once before the LLM is asked and told once that it
-- is over, in front of the first message or, without one, at the end; each message goes out in
-- order behind that, spoken first where that is wanted and it is not blank.
pub handle_chat-acts :
    (say : Bool) (messages : List Bytes)
    → ((handle_chat true say messages).acts ≡ typing true ∷ typing false ∷ outgoing say messages)
      × ((handle_chat false say messages).acts ≡ outgoing say messages)
unfolding handle_chat start_typing_indicator
handle_chat-acts say messages = (with_indicator messages, without)
  where
    stopped : List TypingAct → TypingSession
    stopped acts = record { has_indicator = true; stopped = true; acts = acts }

    none_there : List TypingAct → TypingSession
    none_there acts = record { has_indicator = false; stopped = false; acts = acts }

    still : (acts : List TypingAct) → stop_typing (stopped acts) ≡ stopped acts
    still acts = stop_typing-stopped (stopped acts) refl

    -- The first message stops the indicator.
    same :
        (m : Bytes) (ms : List Bytes)
        → emit_all say (m ∷ ms) (start_typing_indicator true)
          ≡ emit_all say (m ∷ ms) (stopped (typing true ∷ typing false ∷ []))
    same m ms = unfold emit_all stop_typing in refl

    with_indicator :
        (ms : List Bytes)
        → (stop_typing (emit_all say ms (start_typing_indicator true))).acts
          ≡ typing true ∷ typing false ∷ outgoing say ms
    with_indicator [] = unfold emit_all stop_typing in refl
    with_indicator (m ∷ ms) =
        ap (λ s. (stop_typing s).acts)
          (same m ms ∙ emit_all-acts say (m ∷ ms) (stopped (typing true ∷ typing false ∷ [])) still)
        ∙ ap (λ s. s.acts) (still (typing true ∷ typing false ∷ outgoing say (m ∷ ms)))

    without :
        (stop_typing (emit_all say messages (start_typing_indicator false))).acts
        ≡ outgoing say messages
    without =
        ap (λ s. (stop_typing s).acts)
          (emit_all-acts say messages (none_there [])
            (λ acts. stop_typing-none (none_there acts) refl))
        ∙ ap (λ s. s.acts) (stop_typing-none (none_there (outgoing say messages)) refl)
