-- ===== src/Relay/Chunks/Assembly.antt =====
-- A text that is cut into chunks and sent in order comes out whole, and not before its last chunk.
use claw.Prelude.{
  ℕ, zero, suc, ◌+◌, ◌<◌, true, false, Option, none, some, List, [], ◌∷◌, ◌++◌, ◌≡◌, refl, ap, sym,
  ◌∙◌, arith, ◌==◌, length, Bytes, append_assoc, length-append,
}
use claw.Relay.Chunks.{
  put, chunk_at, assemble, store_result, handle_system_frame, handle_result_frame,
}
use claw.Relay.State.{Relay, Chunks}

-- The texts under consecutive indices from `i` on.
abbrev numbered : ℕ → List Bytes → Chunks
numbered i [] = []
numbered i (t ∷ ts) = (i, t) ∷ numbered (i + 1) ts

abbrev pub concat : List Bytes → Bytes
concat [] = []
concat (t ∷ ts) = t ++ concat ts

put-numbered :
    (ts : List Bytes) (i k : ℕ) (t : Bytes)
    → k ≡ i + length ts
    → put k t (numbered i ts) ≡ numbered i (ts ++ (t ∷ []))
unfolding put
put-numbered [] i k t h = let e : k ≡ i = omega arith in rw e
put-numbered (s ∷ ts) i k t h =
    let e : (i == k) ≡ false = ground arith in
    rw e (ap (◌∷◌ (i, s)) (put-numbered ts (i + 1) k t (omega arith)))

length-numbered : (ts : List Bytes) (i : ℕ) → length (numbered i ts) ≡ length ts
length-numbered [] i = refl
length-numbered (t ∷ ts) i = ap suc (length-numbered ts (i + 1))

assemble_skip :
    (n i j : ℕ) (t : Bytes) (m : Chunks) → i < j → assemble n j ((i, t) ∷ m) ≡ assemble n j m
unfolding assemble chunk_at
assemble_skip zero i j t m h = refl
assemble_skip (suc n) i j t m h =
    let e : (i == j) ≡ false = ground arith in
    rw e (ap (◌++◌ (chunk_at j m)) (assemble_skip n i (j + 1) t m (omega arith)))

assemble-numbered : (ts : List Bytes) (i : ℕ) → assemble (length ts) i (numbered i ts) ≡ concat ts
unfolding assemble chunk_at
assemble-numbered [] i = refl
assemble-numbered (t ∷ ts) i =
    let e : (i == i) ≡ true = ground arith in
    rw e (
      ap (◌++◌ t) (
        assemble_skip (length ts) i (i + 1) t (numbered (i + 1) ts) (omega arith)
        ∙ assemble-numbered ts (i + 1)))

abbrev or_else : Option Bytes × Relay → (Relay → Option Bytes × Relay) → Option Bytes × Relay
or_else (some text, r) go_on = (some text, r)
or_else (none, r) go_on = go_on r

-- Feeds RESULT payloads with these texts, numbered from `i`, until one completes the text.
pub collect_result : ℕ → ℕ → List Bytes → Relay → Option Bytes × Relay
collect_result total i [] r = (none, r)
collect_result total i (t ∷ ts) r =
    or_else (handle_result_frame (i ∷ total ∷ t) r) (collect_result total (i + 1) ts)

-- Feeds SYSTEM payloads with these texts, numbered from `i`.
abbrev pub collect_system : ℕ → ℕ → List Bytes → Relay → Relay
collect_system total i [] r = r
collect_system total i (t ∷ ts) r =
    collect_system total (i + 1) ts (handle_system_frame (i ∷ total ∷ t) r)

-- The chunks so far are `past`; at the first chunk, whatever an earlier text has left.
abbrev Holds : List Bytes → Chunks → Type 0
Holds [] m = Unit
Holds (p ∷ ps) m = m ≡ numbered 0 (p ∷ ps)

store_result-numbered :
    (past : List Bytes) (t : Bytes) (m : Chunks)
    → Holds past m
    → store_result (length past) t m ≡ numbered 0 (past ++ (t ∷ []))
unfolding store_result put
store_result-numbered [] t m h = refl
store_result-numbered (p ∷ ps) t m h =
    let e : (suc (length ps) == 0) ≡ false = ground arith in
    rw h (rw e (put-numbered (p ∷ ps) 0 (suc (length ps)) t (omega arith)))

Holds-concat :
    (past : List Bytes) (t : Bytes) → Holds (past ++ (t ∷ [])) (numbered 0 (past ++ (t ∷ [])))
Holds-concat [] t = refl
Holds-concat (p ∷ ps) t = refl

length-concat : (past : List Bytes) (t : Bytes) → length (past ++ (t ∷ [])) ≡ length past + 1
length-concat past t = length-append past (t ∷ [])

-- The last chunk completes the text.
result_last :
    (past : List Bytes) (t : Bytes) (r : Relay)
    → Holds past r.result_chunks
    → handle_result_frame (length past ∷ (length past + 1) ∷ t) r
      ≡ (some (concat (past ++ (t ∷ []))), record r { result_chunks = [] })
unfolding handle_result_frame
result_last past t r h =
    let size = length-numbered (past ++ (t ∷ [])) 0 ∙ length-concat past t in
    let full : (length (numbered 0 (past ++ (t ∷ []))) == length past + 1) ≡ true = ground arith in
    rw (store_result-numbered past t r.result_chunks h) (
      rw full (
        ap (λ text. (some text, record r { result_chunks = [] }))
          (ap (λ n. assemble n 0 (numbered 0 (past ++ (t ∷ [])))) (sym (length-concat past t))
            ∙ assemble-numbered (past ++ (t ∷ [])) 0)))

-- A chunk that is not the last is kept.
result_more :
    (past : List Bytes) (t : Bytes) (total : ℕ) (r : Relay)
    → Holds past r.result_chunks
    → length past + 1 < total
    → handle_result_frame (length past ∷ total ∷ t) r
      ≡ (none, record r { result_chunks = numbered 0 (past ++ (t ∷ [])) })
unfolding handle_result_frame
result_more past t total r h l =
    let size = length-numbered (past ++ (t ∷ [])) 0 ∙ length-concat past t in
    let short : (length (numbered 0 (past ++ (t ∷ []))) == total) ≡ false = ground arith in
    rw (store_result-numbered past t r.result_chunks h) (rw short)

collect_result_more :
    (total i : ℕ) (t : Bytes) (ts : List Bytes) (r : Relay) {r' : Relay}
    → handle_result_frame (i ∷ total ∷ t) r ≡ (none, r')
    → collect_result total i (t ∷ ts) r ≡ collect_result total (i + 1) ts r'
unfolding collect_result
collect_result_more total i t ts r h = ap (λ p. or_else p (collect_result total (i + 1) ts)) h

collect_result_done :
    (total i : ℕ) (t text : Bytes) (ts : List Bytes) (r : Relay) {r' : Relay}
    → handle_result_frame (i ∷ total ∷ t) r ≡ (some text, r')
    → collect_result total i (t ∷ ts) r ≡ (some text, r')
unfolding collect_result
collect_result_done total i t text ts r h = ap (λ p. or_else p (collect_result total (i + 1) ts)) h

collect_result-concat :
    (ts past : List Bytes) (t : Bytes) (i total : ℕ) (r : Relay)
    → Holds past r.result_chunks
    → i ≡ length past
    → total ≡ length past + suc (length ts)
    → (collect_result total i (t ∷ ts) r).0 ≡ some (concat (past ++ (t ∷ ts)))
collect_result-concat [] past t i total r h ei e =
    let one : total ≡ length past + 1 = omega arith in
    rw ei (rw one (ap (λ p. p.0) (collect_result_done _ _ t _ [] r (result_last past t r h))))
collect_result-concat (u ∷ ts) past t i total r h ei e =
    let kept = result_more past t total r h (omega arith) in
    let next = record r { result_chunks = numbered 0 (past ++ (t ∷ [])) } in
    rw ei (
      ap (λ p. p.0) (collect_result_more total (length past) t (u ∷ ts) r kept)
      ∙ collect_result-concat ts (past ++ (t ∷ [])) u (length past + 1) total next
          (Holds-concat past t) (sym (length-concat past t)) (omega (arith, length-concat past t))
      ∙ ap (λ l. some (concat l)) (append_assoc past (t ∷ []) (u ∷ ts)))

-- RESULT frames that carry the chunks of a text in order, each with its index and their number,
-- complete a text, and the first that they complete is the whole one, whatever an earlier text left
-- behind.
pub collect_result_lem :
    (t : Bytes) (ts : List Bytes) (r : Relay)
    → (collect_result (suc (length ts)) 0 (t ∷ ts) r).0 ≡ some (concat (t ∷ ts))
collect_result_lem t ts r =
    collect_result-concat ts [] t 0 (suc (length ts)) r tt refl (omega arith)

system_last :
    (past : List Bytes) (t : Bytes) (r : Relay)
    → r.prompt_chunks ≡ numbered 0 past
    → handle_system_frame (length past ∷ (length past + 1) ∷ t) r
      ≡ record r { system_prompt = concat (past ++ (t ∷ [])); prompt_chunks = [] }
unfolding handle_system_frame
system_last past t r h =
    let size = length-numbered (past ++ (t ∷ [])) 0 ∙ length-concat past t in
    let full : (length (numbered 0 (past ++ (t ∷ []))) == length past + 1) ≡ true = ground arith in
    let stored = ap (put (length past) t) h ∙ put-numbered past 0 (length past) t (omega arith) in
    rw stored (
      rw full (
        ap (λ text. record r { system_prompt = text; prompt_chunks = [] })
          (ap (λ n. assemble n 0 (numbered 0 (past ++ (t ∷ [])))) (sym (length-concat past t))
            ∙ assemble-numbered (past ++ (t ∷ [])) 0)))

system_more :
    (past : List Bytes) (t : Bytes) (total : ℕ) (r : Relay)
    → r.prompt_chunks ≡ numbered 0 past
    → length past + 1 < total
    → handle_system_frame (length past ∷ total ∷ t) r
      ≡ record r { prompt_chunks = numbered 0 (past ++ (t ∷ [])) }
unfolding handle_system_frame
system_more past t total r h l =
    let size = length-numbered (past ++ (t ∷ [])) 0 ∙ length-concat past t in
    let short : (length (numbered 0 (past ++ (t ∷ []))) == total) ≡ false = ground arith in
    let stored = ap (put (length past) t) h ∙ put-numbered past 0 (length past) t (omega arith) in
    rw stored (rw short)

collect_system-concat :
    (ts past : List Bytes) (t : Bytes) (i total : ℕ) (r : Relay)
    → r.prompt_chunks ≡ numbered 0 past
    → i ≡ length past
    → total ≡ length past + suc (length ts)
    → collect_system total i (t ∷ ts) r
      ≡ record r { system_prompt = concat (past ++ (t ∷ ts)); prompt_chunks = [] }
collect_system-concat [] past t i total r h ei e =
    let one : total ≡ length past + 1 = omega arith in rw ei (rw one (system_last past t r h))
collect_system-concat (u ∷ ts) past t i total r h ei e =
    let kept = system_more past t total r h (omega arith) in
    rw ei (
      rw kept (
        collect_system-concat ts (past ++ (t ∷ [])) u (length past + 1) total _ refl
          (sym (length-concat past t)) (omega (arith, length-concat past t))
        ∙ ap (λ l. record r { system_prompt = concat l; prompt_chunks = [] })
            (append_assoc past (t ∷ []) (u ∷ ts))))

-- SYSTEM frames that carry the chunks of a prompt in order, with no other chunk pending, set the
-- system prompt to the whole text, leave no chunk pending and change nothing else.
pub collect_system_lem :
    (t : Bytes) (ts : List Bytes) (r : Relay)
    → r.prompt_chunks ≡ []
    → collect_system (suc (length ts)) 0 (t ∷ ts) r
      ≡ record r { system_prompt = concat (t ∷ ts); prompt_chunks = [] }
collect_system_lem t ts r h =
    collect_system-concat ts [] t 0 (suc (length ts)) r h refl (omega arith)
