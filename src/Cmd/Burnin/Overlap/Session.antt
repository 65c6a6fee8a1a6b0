-- ===== src/Cmd/Burnin/Overlap/Session.antt =====
-- `runOverlapBurnin` of cmd/claw64-bridge/burnin.go: the script's conversation from the request
-- for the program to the last run, and what the scenario waits for.
use claw.Prelude.{
  ℕ, zero, suc, ◌+◌, ◌≤◌, Bool, true, false, ◌||◌, Option, none, some, List, [], ◌∷◌, ◌++◌, ◌≡◌,
  refl, ap, ◌∙◌, arith, if◌then◌else◌, Bytes, codes, contains, same_text, length, append-nil,
  has_prefix, trim_prefix, trim_space, trim_left, trim_right, is_space,
}
use claw.Prelude.Text.Trims.{contains-append}
use claw.Relay.Events.{format_c64_llm_event}
use claw.Cmd.Burnin.{ScriptedBurnin, to_lower, text_message, simple_tool_call, exec_tool_call}
use claw.Cmd.Burnin.Moves.{then_exec, then_say, stored_then}
use claw.Cmd.Burnin.Results.{
  basic_status, screen_output, list_parts, tool_result_contains, overlap_run_complete_text,
}
use claw.Cmd.Burnin.Overlap.{first_run_step, store_step, overlap_turn}
use claw.Cmd.Burnin.Overlap.Runs.{
  drive, spoken, Way, IsClean, way_inputs, request, At, run_way, request-contains,
}

-- The check of `waitOne` on what one call of `HandleMessageStream` gave: an error, or its texts.
any_contains : Bytes → List Bytes → Bool
any_contains want [] = false
any_contains want (t ∷ ts) = contains t want || any_contains want ts

unfoldable pub wait_one : Bytes → Option (List Bytes) → Bool
unfolding any_contains
wait_one want none = false
wait_one want (some texts) = any_contains want texts

-- The texts of each run, from the run with this index on, and the checks of them.
abbrev pub runs : ℕ → ℕ → List Way → ScriptedBurnin → List (Option (List Bytes))
runs total j [] s = []
runs total j (w ∷ ws) s =
    let (s', answers) = drive total (way_inputs (request (j + 2)) w) s in
    spoken answers ∷ runs total (j + 1) ws s'

abbrev pub accepted : ℕ → List (Option (List Bytes)) → Bool
accepted j [] = true
accepted j (r ∷ rs) =
    if wait_one (overlap_run_complete_text (j + 2)) r then accepted (j + 1) rs else false

abbrev pub AllClean : List Way → Type 0
AllClean [] = Unit
AllClean (w ∷ ws) = IsClean w × AllClean ws

wait_one-same : (t : Bytes) → wait_one t (some (t ∷ [])) ≡ true
unfolding wait_one
wait_one-same t = simp (rw append-nil at (contains-append [] t []))

runs-accepted :
    (total : ℕ) (ws : List Way) (j : ℕ) (s : ScriptedBurnin)
    → j + 1 + length ws ≤ total
    → At j 0 s
    → AllClean ws
    → accepted j (runs total j ws s) ≡ true
runs-accepted total [] j s h a c = refl
runs-accepted total (w ∷ []) j s h a c =
    let (says, next) =
      run_way total j (omega arith) (request (j + 2)) w s a (request-contains (j + 2)) c.0 in
    rw (says, wait_one-same (overlap_run_complete_text (j + 2)))
runs-accepted total (w ∷ v ∷ ws) j s h a c =
    let (says, next) =
      run_way total j (omega arith) (request (j + 2)) w s a (request-contains (j + 2)) c.0 in
    rw (says, wait_one-same (overlap_run_complete_text (j + 2)))
      (runs-accepted total (v ∷ ws) (j + 1) _ (omega arith) (next (omega arith)) c.1)

-- The request for the program, and its lines stored one by one and listed.
abbrev stored : Bytes
stored = basic_status ++ codes "STORED"

abbrev program_request : Bytes
program_request = to_lower (format_c64_llm_event (1 ∷ codes "Can you program a tiny overlap demo?"))

abbrev pub stored_inputs : ℕ → Bytes → List (Bytes × Bytes)
stored_inputs zero listing = (program_request, listing) ∷ []
stored_inputs (suc n) listing = (program_request, stored) ∷ stored_inputs n listing

abbrev pub program_inputs : Bytes → List (Bytes × Bytes)
program_inputs listing = (program_request, []) ∷ stored_inputs 7 listing

abbrev pub fresh_script : Bytes → ScriptedBurnin
fresh_script scenario = record { scenario = scenario; step = 0; signals = [] }

program_stored :
    (scenario listing : Bytes) (total : ℕ)
    → tool_result_contains listing screen_output list_parts ≡ true
    → (drive total (program_inputs listing) (fresh_script scenario)).0.step ≡ first_run_step
unfolding overlap_turn store_step stored_then then_exec then_say contains to_lower has_prefix
    format_c64_llm_event same_text trim_prefix trim_space trim_left trim_right is_space
program_stored scenario listing total h = rw h

module _ (scenario : Bytes) (total : ℕ) where
  abbrev script : ℕ → ScriptedBurnin
  script k = record { scenario = scenario; step = k; signals = [] }

  -- A turn that sends a line says nothing.
  line_turn :
      (u t command : Bytes) (k : ℕ) (inputs : List (Bytes × Bytes)) (texts : List Bytes)
      → overlap_turn u t total (script k) ≡ then_exec command (script k)
      → spoken (drive total inputs (script (k + 1))).1 ≡ some texts
      → spoken (drive total ((u, t) ∷ inputs) (script k)).1 ≡ some texts
  unfolding then_exec exec_tool_call simple_tool_call
  line_turn u t command k inputs texts e h = rw (e, h) refl

  -- The turn that finds the listing.
  list_turn :
      (u listing : Bytes)
      → tool_result_contains listing screen_output list_parts ≡ true
      → spoken (drive total ((u, listing) ∷ []) (script 8)).1
        ≡ some (codes "FIRST PROGRAM STORED." ∷ [])
  unfolding overlap_turn store_step then_say text_message
  list_turn u listing h = rw h refl

  program_said :
      (listing : Bytes)
      → tool_result_contains listing screen_output list_parts ≡ true
      → spoken (drive total (program_inputs listing) (fresh_script scenario)).1
        ≡ some (codes "FIRST PROGRAM STORED." ∷ [])
  unfolding overlap_turn store_step stored_then contains to_lower has_prefix format_c64_llm_event
      same_text trim_prefix trim_space trim_left trim_right is_space
  program_said listing h =
      let u = program_request in
      let line = λ (t command : Bytes) (k : ℕ) (inputs : List (Bytes × Bytes)).
        line_turn u t command k inputs (codes "FIRST PROGRAM STORED." ∷ []) in
      line [] (codes "30") 0 (stored_inputs 7 listing) refl (
        line stored (codes "40") 1 (stored_inputs 6 listing) refl (
          line stored (codes "50") 2 (stored_inputs 5 listing) refl (
            line stored (codes "60") 3 (stored_inputs 4 listing) refl (
              line stored (codes "70") 4 (stored_inputs 3 listing) refl (
                line stored (codes "10 PRINT \"OVERLAP ONE\"") 5 (stored_inputs 2 listing) refl (
                  line stored (codes "20 PRINT \"OVERLAP TWO\"") 6 (stored_inputs 1 listing) refl (
                    line stored (codes "LIST") 7 (stored_inputs 0 listing) refl
                      (list_turn u listing h))))))))

-- The script of an overlap scenario with any number of runs, against a Commodore that stores the
-- lines of the program, lists it clean and carries the runs out, each at once or with any number
-- of polls while BASIC runs: no turn of the script fails, and each request gets the text for
-- which the scenario waits, the one for the program and the one for each run, up to the last run
-- of the scenario.
pub overlap_session-accepted :
    (scenario listing : Bytes) (ws : List Way) (total : ℕ)
    → tool_result_contains listing screen_output list_parts ≡ true
    → AllClean ws
    → length ws + 1 ≤ total
    → let after = drive total (program_inputs listing) (fresh_script scenario) in
      (wait_one (codes "FIRST PROGRAM STORED.") (spoken after.1) ≡ true)
      × (accepted 0 (runs total 0 ws after.0) ≡ true)
overlap_session-accepted scenario listing ws total h c fits = (
  ap (wait_one (codes "FIRST PROGRAM STORED.")) (program_said scenario total listing h)
      ∙ wait_one-same (codes "FIRST PROGRAM STORED."),
  runs-accepted total ws 0 _ (omega arith) (omega (arith, program_stored scenario listing total h))
      c,
)
