-- ===== src/Tests/Cmd.antt =====
-- Runs of the theorems on cmd/claw64-bridge.
use claw.Prelude.{
  ℕ, suc, true, false, none, some, List, [], ◌∷◌, ◌++◌, ◌≡◌, refl, arith, Bytes, codes, inl,
  contains, has_prefix, trim_prefix, same_text, split, trim_space, trim_left, trim_right, is_space,
}
use claw.Serial.Listen.{linked, accept_failed}
use claw.Serial.Listen.Start.{Course}
use claw.Cmd.Spawn.{start_spawned_serial_link, IsTidy, start_spawned_serial_link-IsTidy}
use claw.Cmd.Config.{default_port_addrs}
use claw.Cmd.Config.Ports.{IsPort, ports_file, default_port_addrs-ports_file}
use claw.Cmd.Burnin.Results.{
  screen_output, basic_status, list_parts, tool_result_contains, overlap_result_looks_clean,
  overlap_direct_run_result_looks_clean,
}
use claw.Cmd.Burnin.Overlap.{overlap_turn}
use claw.Cmd.Burnin.Overlap.Bounds.{Leaves, overlap_turn-Leaves}
use claw.Cmd.Burnin.Overlap.Runs.{drive, spoken, Way, direct, drained}
use claw.Cmd.Burnin.Overlap.Session.{
  wait_one, runs, accepted, AllClean, program_inputs, fresh_script, overlap_session-accepted,
}

-- Two attempts without a handshake, and then a link.
abbrev third_attempt : ℕ → Course
third_attempt (suc (suc (suc n))) = record {
  binds = true;
  start_fails = false;
  watched = true;
  outcome = linked 0;
  timer_fired = false;
  exit = none;
}
third_attempt n = record {
  binds = true;
  start_fails = false;
  watched = true;
  outcome = accept_failed;
  timer_fired = true;
  exit = none;
}

start_spawned_serial_link-IsTidy_example : IsTidy (start_spawned_serial_link true third_attempt)
start_spawned_serial_link-IsTidy_example = start_spawned_serial_link-IsTidy true third_attempt

digits-IsPort : IsPort (codes "25232")
unfolding trim_space trim_left trim_right is_space
digits-IsPort = record {
  one_line = ground arith;
  trimmed = refl;
  some_text = refl;
  fits = omega arith;
}

default_port_addrs-ports_file_example :
    default_port_addrs (some (ports_file (codes "25232") (codes "25232")))
    ≡ record { serial = codes "127.0.0.1:25232"; monitor = codes "127.0.0.1:25232" }
default_port_addrs-ports_file_example =
    default_port_addrs-ports_file (codes "25232") (codes "25232") digits-IsPort digits-IsPort

abbrev listing : Bytes
listing = screen_output ++ codes "10 PRINT \"OVERLAP ONE\"\n20 PRINT \"OVERLAP TWO\"\nREADY."

listing-contains : tool_result_contains listing screen_output list_parts ≡ true
unfolding tool_result_contains overlap_result_looks_clean contains has_prefix trim_prefix same_text
    split
listing-contains = refl

-- The output of a run passes for a listing.
run_output-contains :
    tool_result_contains
      (screen_output ++ codes "OVERLAP ONE\nOVERLAP TWO\nREADY.")
      screen_output
      list_parts
    ≡ true
unfolding tool_result_contains overlap_result_looks_clean contains has_prefix trim_prefix same_text
    split
run_output-contains = refl

-- A run at once, and one with a poll.
abbrev run_output : Bytes
run_output = screen_output ++ codes "OVERLAP ONE\nOVERLAP TWO\nREADY."

abbrev two_ways : List Way
two_ways =
    direct run_output
    ∷ drained ((basic_status ++ codes "RUNNING") ∷ []) (basic_status ++ codes "READY") run_output
    ∷ []

two_ways-AllClean : AllClean two_ways
unfolding tool_result_contains overlap_result_looks_clean overlap_direct_run_result_looks_clean
    contains has_prefix trim_prefix same_text split
two_ways-AllClean = (refl, (((inl refl, tt), inl refl, refl), tt))

overlap_session-accepted_example :
    let after = drive 3 (program_inputs listing) (fresh_script (codes "overlap-queue3")) in
    (wait_one (codes "FIRST PROGRAM STORED.") (spoken after.1) ≡ true)
    × (accepted 0 (runs 3 0 two_ways after.0) ≡ true)
overlap_session-accepted_example =
    overlap_session-accepted (codes "overlap-queue3") listing two_ways 3 listing-contains
      two_ways-AllClean (omega arith)

-- The first turn of a script for two runs.
overlap_turn-Leaves_example :
    Leaves 13
      (fresh_script (codes "overlap"))
      (overlap_turn (codes "hi") (codes "") 2 (fresh_script (codes "overlap")))
overlap_turn-Leaves_example =
    overlap_turn-Leaves (codes "hi") (codes "") 2 (fresh_script (codes "overlap")) (omega arith)
      (omega arith)
