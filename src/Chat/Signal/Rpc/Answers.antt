-- ===== src/Chat/Signal/Rpc/Answers.antt =====
-- No call of bridge/chat/signal.go is answered twice.
use claw.Prelude.{
  ℕ, ◌+◌, ◌≤◌, Bool, true, false, Option, none, some, List, [], ◌∷◌, ◌++◌, ◌≡◌, refl, arith, Bytes,
  ◌==◌, ==_iff, same_text, Bool-cases, inl, inr,
}
use claw.Prelude.Text.Trims.{same_text_iff}
use claw.Relay.Events.{decimal}
use claw.Chat.Signal.Rpc.{
  SignalRpc, delete_pending, find_pending, next_of, start_call, remove_pending, text, number,
  decode_jsonrpc_id, sent_to, respond, dispatch_response, channels, close_pending, new_rpc, RpcStep,
  starts, gives_up, reads, closes, RpcReach, start, later,
}

abbrev one_if : Bool → ℕ
one_if true = 1
one_if false = 0

-- How often a channel stands in a list.
abbrev pub times : ℕ → List ℕ → ℕ
times ch [] = 0
times ch (d ∷ chs) = one_if (d == ch) + times ch chs

times-append : (ch : ℕ) (xs ys : List ℕ) → times ch (xs ++ ys) ≡ times ch xs + times ch ys
times-append ch [] ys = omega arith
times-append ch (x ∷ xs) ys = omega (arith, times-append ch xs ys)

abbrev held : ℕ → List (Bytes × ℕ) → ℕ
held ch p = times ch (channels p)

-- What is deleted is no longer held, and what was found under the ID is what is deleted.
held-delete :
    (ch : ℕ) (id : Bytes) (p : List (Bytes × ℕ))
    → times ch (sent_to (find_pending id p) []) + held ch (delete_pending id p) ≤ held ch p
unfolding find_pending delete_pending
held-delete ch id [] = omega arith
held-delete ch id ((k, d) ∷ p) = elim (Bool-cases (same_text k id)) [
  | inl e ↦ rw e (omega (arith, held-delete ch id p))
  | inr e ↦ rw e (omega (arith, held-delete ch id p))
]

times-sent_to :
    (ch : ℕ) (o : Option ℕ) (chs : List ℕ)
    → times ch (sent_to o chs) ≡ times ch (sent_to o []) + times ch chs
times-sent_to ch none chs = omega arith
times-sent_to ch (some d) chs = omega arith

-- Each channel that was made stands once at most among those that wait and those that were
-- answered; others do not stand there.
pub IsAnsweredOnce : SignalRpc → Type 0
IsAnsweredOnce s =
    ((ch : ℕ) → times ch (channels s.pending) + times ch s.answered ≤ 1)
    × ((ch : ℕ) → s.opened ≤ ch → times ch (channels s.pending) + times ch s.answered ≡ 0)

-- The case of a step that moves channels, drops them or does nothing with them.
moved :
    (s t : SignalRpc)
    → s.opened ≡ t.opened
    → ((ch : ℕ)
        → times ch (channels t.pending) + times ch t.answered
          ≤ times ch (channels s.pending) + times ch s.answered)
    → IsAnsweredOnce s
    → IsAnsweredOnce t
unfolding IsAnsweredOnce
moved s t same less inv = (
  (λ ch. omega (arith, less ch, inv.0 ch)),
  (λ ch h. omega (arith, less ch, inv.1 ch (omega (arith, same, h)))),
)

-- The new channel is none of the old ones.
fresh-le :
    (s : SignalRpc) (ch : ℕ)
    → IsAnsweredOnce s
    → one_if (s.opened == ch) + (times ch (channels s.pending) + times ch s.answered) ≤ 1
unfolding IsAnsweredOnce
fresh-le s ch inv = elim (Bool-cases (s.opened == ch)) [
  | inl e ↦ rw e (omega (arith, inv.1 ch (ground (arith, ==_iff s.opened ch, e))))
  | inr e ↦ rw e (omega (arith, inv.0 ch))
]

fresh-eq :
    (s : SignalRpc) (ch : ℕ)
    → IsAnsweredOnce s
    → s.opened + 1 ≤ ch
    → one_if (s.opened == ch) + (times ch (channels s.pending) + times ch s.answered) ≡ 0
unfolding IsAnsweredOnce
fresh-eq s ch inv h = elim (Bool-cases (s.opened == ch)) [
  | inl e ↦ absurd ground (arith, ==_iff s.opened ch)
  | inr e ↦ rw e (omega (arith, inv.1 ch (omega (arith, h))))
]

made : (s : SignalRpc) (written : Bool) → IsAnsweredOnce s → IsAnsweredOnce (start_call written s)
unfolding IsAnsweredOnce start_call
made s true inv =
    let id : Bytes = decimal (next_of s) in
    (
      (λ ch. omega (arith, held-delete ch id s.pending, fresh-le s ch inv)),
      (λ ch h. omega (arith, held-delete ch id s.pending, fresh-eq s ch inv h)),
    )
made s false inv =
    let id : Bytes = decimal (next_of s) in
    (
      (λ ch. omega (arith, held-delete ch id s.pending, inv.0 ch)),
      (λ ch h. omega (arith, held-delete ch id s.pending, inv.1 ch (omega (arith, h)))),
    )

responded : (s : SignalRpc) (o : Option Bytes) → IsAnsweredOnce s → IsAnsweredOnce (respond o s).1
responded s none inv = inv
responded s (some id) inv =
    moved s (respond (some id) s).1 refl
      (λ ch. omega (
        arith,
        held-delete ch id s.pending,
        times-sent_to ch (find_pending id s.pending) s.answered,
      ))
      inv

-- Every operation keeps the invariant.
RpcStep-IsAnsweredOnce : {s t : SignalRpc} → RpcStep s t → IsAnsweredOnce s → IsAnsweredOnce t
unfolding remove_pending dispatch_response close_pending
RpcStep-IsAnsweredOnce (starts written s) inv = made s written inv
RpcStep-IsAnsweredOnce (gives_up id s) inv =
    moved s (remove_pending id s) refl (λ ch. omega (arith, held-delete ch id s.pending)) inv
RpcStep-IsAnsweredOnce (reads raw s) inv = responded s (decode_jsonrpc_id raw) inv
RpcStep-IsAnsweredOnce (closes s) inv =
    moved s (close_pending s) refl
      (λ ch. omega (arith, times-append ch (channels s.pending) s.answered)) inv

new-IsAnsweredOnce : IsAnsweredOnce new_rpc
unfolding IsAnsweredOnce
new-IsAnsweredOnce = ((λ ch. omega arith), (λ ch h. refl))

-- Whatever calls start, end, are answered and closed, and in whatever order: a channel is sent one
-- response at most, so that the channel's capacity of one is enough, and a call that still waits
-- was sent none.
pub RpcReach-IsAnsweredOnce : {s : SignalRpc} → RpcReach s → IsAnsweredOnce s
RpcReach-IsAnsweredOnce start = new-IsAnsweredOnce
RpcReach-IsAnsweredOnce (later r st) = RpcStep-IsAnsweredOnce st (RpcReach-IsAnsweredOnce r)

same_refl : (id : Bytes) → same_text id id ≡ true
same_refl id = (same_text_iff id id).1 refl

gone : (id : Bytes) (p : List (Bytes × ℕ)) → find_pending id (delete_pending id p) ≡ none
unfolding find_pending delete_pending
gone id [] = refl
gone id ((k, d) ∷ p) = elim (Bool-cases (same_text k id)) [
  | inl e ↦ rw e (gone id p)
  | inr e ↦ rw (e, e) (gone id p)
]

-- The response to a call that was written is sent to that call's channel, whether its ID comes back
-- as a text or as a number, and is taken for a response; no other channel is sent anything.
pub dispatch_response-start_call :
    (s : SignalRpc)
    → (let t = start_call true s in
        let run = dispatch_response (text (decimal t.next_id)) t in
        (run.0 ≡ true)
        × (run.1.answered ≡ s.opened ∷ s.answered)
        × (find_pending (decimal t.next_id) run.1.pending ≡ none)
        × (dispatch_response (number t.next_id) t ≡ run))
unfolding start_call dispatch_response decode_jsonrpc_id find_pending
dispatch_response-start_call s =
    let id : Bytes = decimal (next_of s) in
    (refl, rw (same_refl id) refl, rw (same_refl id) (gone id (delete_pending id s.pending)), refl)
