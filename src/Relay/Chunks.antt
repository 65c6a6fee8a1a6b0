-- ===== src/Relay/Chunks.antt =====
-- bridge/relay/relay.go: chunked SYSTEM prompts and RESULT texts. Their payload is the index, the
-- total and the text. The log lines are not modelled.
pub mod Assembly
use claw.Prelude.{
  ℕ, zero, suc, ◌+◌, Bool, true, false, not, ◌||◌, Option, none, some, [], ◌∷◌, ◌++◌, ◌==◌,
  if◌then◌else◌, length, Bytes,
}
use claw.Relay.State.{Relay, Chunks}

-- `m[i] = text`
unfoldable pub put : ℕ → Bytes → Chunks → Chunks
put i text [] = (i, text) ∷ []
put i text ((j, t) ∷ m) = if j == i then (i, text) ∷ m else (j, t) ∷ put i text m

-- `m[i]`, which is "" for a missing key.
unfoldable pub chunk_at : ℕ → Chunks → Bytes
chunk_at i [] = []
chunk_at i ((j, t) ∷ m) = if j == i then t else chunk_at i m

-- `for i := 0; i < total; i++ { s += m[i] }`, with the rounds left and the index.
unfoldable pub assemble : ℕ → ℕ → Chunks → Bytes
assemble zero i m = []
assemble (suc n) i m = chunk_at i m ++ assemble n (i + 1) m

unfoldable pub handle_system_frame : Bytes → Relay → Relay
handle_system_frame (idx ∷ total ∷ text) r =
    let m = put idx text r.prompt_chunks in
    if length m == total
    then record r { system_prompt = assemble total 0 m; prompt_chunks = [] }
    else record r { prompt_chunks = m }
handle_system_frame _ r = r

abbrev is_empty : Chunks → Bool
is_empty [] = true
is_empty (c ∷ m) = false

-- A new map at index 0, or where there is none (`r.resultChunks == nil` holds of an empty map too,
-- which the new one equals), and then `r.resultChunks[idx] = text`.
unfoldable pub store_result : ℕ → Bytes → Chunks → Chunks
store_result idx text m = put idx text (if idx == 0 || is_empty m then [] else m)

-- `("", false)` is `none`.
unfoldable pub handle_result_frame : Bytes → Relay → Option Bytes × Relay
handle_result_frame (idx ∷ total ∷ text) r =
    let m = store_result idx text r.result_chunks in
    if not (length m == total)
    then (none, record r { result_chunks = m })
    else (some (assemble total 0 m), record r { result_chunks = [] })
handle_result_frame _ r = (none, r)
