-- ===== src/Cmd/Burnin/Results.antt =====
-- cmd/claw64-bridge/burnin.go: the checks of tool results, and the texts of overlapping runs.
use claw.Prelude.{
  ℕ, zero, suc, Bool, true, false, not, ◌&&◌, ◌||◌, List, [], ◌∷◌, ◌++◌, ◌≡◌, arith, ◌==◌,
  if◌then◌else◌, Bytes, codes, same_text, has_prefix, trim_prefix, contains, split,
}
use claw.Prelude.Text.Trims.{contains-append}
use claw.Relay.Events.{decimal}
use claw.Cmd.Burnin.{to_lower}

abbrev pub screen_output : Bytes
screen_output = codes "[C64 screen output]: "

abbrev pub screenshot : Bytes
screenshot = codes "[C64 text screen screenshot]: "

abbrev pub basic_status : Bytes
basic_status = codes "[C64 BASIC status]: "

abbrev pub overlap_one : Bytes
overlap_one = codes "OVERLAP ONE"

abbrev pub overlap_two : Bytes
overlap_two = codes "OVERLAP TWO"

abbrev pub print_one : Bytes
print_one = codes "10 PRINT \"OVERLAP ONE\""

abbrev pub print_two : Bytes
print_two = codes "20 PRINT \"OVERLAP TWO\""

abbrev pub ready_prompt : Bytes
ready_prompt = codes "READY."

-- The loop over the lines of `overlapResultLooksClean`.
abbrev is_clean_line : Bytes → Bool
is_clean_line line =
    not (contains line (codes "OVERLAP"))
    || same_text line print_one
    || same_text line print_two
    || same_text line overlap_one
    || same_text line overlap_two

abbrev all_clean : List Bytes → Bool
all_clean [] = true
all_clean (l ∷ ls) = is_clean_line l && all_clean ls

clean_body : Bytes → Bool
clean_body body =
    contains body overlap_one
    && contains body overlap_two
    && contains body ready_prompt
    && all_clean (split body b'\n')

unfoldable pub overlap_result_looks_clean : Bytes → Bool
unfolding clean_body
overlap_result_looks_clean result =
    if has_prefix result screenshot
    then clean_body (trim_prefix result screenshot)
    else if has_prefix result screen_output
    then clean_body (trim_prefix result screen_output)
    else false

unfoldable pub overlap_direct_run_result_looks_clean : Bytes → Bool
overlap_direct_run_result_looks_clean result =
    let body = trim_prefix result screen_output in
    has_prefix result screen_output && contains body overlap_one && contains body overlap_two

same_parts : List Bytes → List Bytes → Bool
same_parts [] [] = true
same_parts (p ∷ ps) (q ∷ qs) = same_text p q && same_parts ps qs
same_parts _ _ = false

contains_all : Bytes → List Bytes → Bool
contains_all result [] = true
contains_all result (p ∷ ps) = contains result p && contains_all result ps

abbrev pub run_parts : List Bytes
run_parts = overlap_one ∷ overlap_two ∷ ready_prompt ∷ []

abbrev pub list_parts : List Bytes
list_parts = print_one ∷ print_two ∷ ready_prompt ∷ []

unfoldable pub tool_result_contains : Bytes → Bytes → List Bytes → Bool
unfolding same_parts contains_all
tool_result_contains result prefix parts =
    if not (has_prefix result prefix)
    then false
    else if same_parts parts run_parts
    then overlap_result_looks_clean result
    else if same_parts parts list_parts
    then overlap_result_looks_clean result
    else contains_all result parts

unfoldable pub slow_exec_result_looks_done : Bytes → Bool
slow_exec_result_looks_done result =
    tool_result_contains result screenshot (codes "SLOW DONE" ∷ ready_prompt ∷ [])
    || tool_result_contains result screen_output (codes "SLOW DONE" ∷ ready_prompt ∷ [])

abbrev ordinals : List Bytes
ordinals =
    codes "first"
    ∷ codes "second"
    ∷ codes "third"
    ∷ codes "fourth"
    ∷ codes "fifth"
    ∷ codes "sixth"
    ∷ codes "seventh"
    ∷ codes "eighth"
    ∷ codes "ninth"
    ∷ codes "tenth"
    ∷ codes "eleventh"
    ∷ codes "twelfth"
    ∷ codes "thirteenth"
    ∷ codes "fourteenth"
    ∷ codes "fifteenth"
    ∷ codes "sixteenth"
    ∷ codes "seventeenth"
    ∷ codes "eighteenth"
    ∷ codes "nineteenth"
    ∷ codes "twentieth"
    ∷ codes "twenty-first"
    ∷ codes "twenty-second"
    ∷ codes "twenty-third"
    ∷ codes "twenty-fourth"
    ∷ []

abbrev loud_ordinals : List Bytes
loud_ordinals =
    codes "FIRST"
    ∷ codes "SECOND"
    ∷ codes "THIRD"
    ∷ codes "FOURTH"
    ∷ codes "FIFTH"
    ∷ codes "SIXTH"
    ∷ codes "SEVENTH"
    ∷ codes "EIGHTH"
    ∷ codes "NINTH"
    ∷ codes "TENTH"
    ∷ codes "ELEVENTH"
    ∷ codes "TWELFTH"
    ∷ codes "THIRTEENTH"
    ∷ codes "FOURTEENTH"
    ∷ codes "FIFTEENTH"
    ∷ codes "SIXTEENTH"
    ∷ codes "SEVENTEENTH"
    ∷ codes "EIGHTEENTH"
    ∷ codes "NINETEENTH"
    ∷ codes "TWENTIETH"
    ∷ codes "TWENTY-FIRST"
    ∷ codes "TWENTY-SECOND"
    ∷ codes "TWENTY-THIRD"
    ∷ codes "TWENTY-FOURTH"
    ∷ []

-- `names[run]`, with the list from its index 1 on, or else the text for a run outside the table.
name_at : Bytes → List Bytes → ℕ → Bytes
name_at other names zero = other
name_at other [] (suc run) = other
name_at other (n ∷ names) (suc zero) = n
name_at other (n ∷ names) (suc (suc run)) = name_at other names (suc run)

append_to_all : Bytes → List Bytes → List Bytes
append_to_all t [] = []
append_to_all t (n ∷ names) = (n ++ t) ∷ append_to_all t names

unfoldable pub overlap_ordinal : ℕ → Bytes
unfolding name_at
overlap_ordinal run = name_at (decimal run ++ codes "th") ordinals run

unfoldable pub overlap_run_complete_text : ℕ → Bytes
unfolding name_at append_to_all
overlap_run_complete_text run =
    name_at (codes "RUN " ++ (decimal run ++ codes " COMPLETE."))
      (append_to_all (codes " RUN COMPLETE.") loud_ordinals) run

unfoldable pub overlap_run_prompt : ℕ → Bytes
overlap_run_prompt run =
    if run == 2
    then codes "run it"
    else if run == 3
    then codes "run it again"
    else if run == 4
    then codes "run it once more"
    else if run == 8 || run == 11 || run == 18
    then codes "run it an " ++ (overlap_ordinal run ++ codes " time")
    else codes "run it a " ++ (overlap_ordinal run ++ codes " time")

contains_run : (s : Bytes) → contains (to_lower (codes "run" ++ s)) (codes "run") ≡ true
unfolding to_lower
contains_run s = contains-append [] (codes "run") (to_lower s)

-- Every prompt asks for a run.
pub overlap_run_prompt-contains :
    (run : ℕ) → contains (to_lower (overlap_run_prompt run)) (codes "run") ≡ true
unfolding overlap_run_prompt
overlap_run_prompt-contains run = ground (
  arith,
  contains_run (codes " it"),
  contains_run (codes " it again"),
  contains_run (codes " it once more"),
  contains_run (codes " it an " ++ (overlap_ordinal run ++ codes " time")),
  contains_run (codes " it a " ++ (overlap_ordinal run ++ codes " time")),
)
