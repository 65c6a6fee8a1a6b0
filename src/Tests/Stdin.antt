-- ===== src/Tests/Stdin.antt =====
-- Runs of the theorems on bridge/chat/stdin.go at concrete messages and texts.
use claw.Prelude.{
  ◌+◌, ◌*◌, true, false, List, [], ◌∷◌, ◌++◌, ◌≡◌, refl, arith, Bytes, codes, split, length,
}
use claw.Chat.Stdin.{no_line, Msg, settled, flush_scrollback, log_line, StdinChannel}
use claw.Chat.Stdin.Writers.{trim_returns}
use claw.Chat.Stdin.Writers.Lines.{
  concat, write_logs, send_lines, lines_of, rest_of, write_logs-lines_of,
}
use claw.Chat.Stdin.Writers.Dimmed.{IsLogLine, log_all, log_all-lines}
use claw.Chat.Stdin.Tui.{Host, Tui, print_stream, message}
use claw.Chat.Stdin.Tui.Shown.{Session, steps, waiting, last_shown, all_lines}
use claw.Chat.Stdin.Tui.Flushed.{run_cmd, run_cmd-steps}
use claw.Chat.Stdin.Tui.Live.{feed, write_streams, write_streams-print_stream}

-- A terminal that wraps nothing.
abbrev plain_host : Host
plain_host = record {
  hardwrap = λ text width. text;
  string_width = length;
  truncate = λ text width. text;
  colours = true;
  input_update = λ msg input. input;
  prompt = codes "you> ";
}

abbrev new_tui : Tui
new_tui = record {
  input = [];
  last_line = no_line;
  live = no_line;
  early_lines = [];
  is_ready = false;
  scrollback = [];
  width = 0;
  interrupted = false;
  busy = false;
  sig_count = 0;
  last_sig = 0;
}

abbrev new_session : Session
new_session = record { tui = new_tui; taken = [] }

-- A reply that is settled in two lines, and then a log line.
abbrev two_messages : List Msg
two_messages =
    settled (record { text = codes "c64> HI\nYOU"; dim = false } ∷ [])
    ∷ settled (record { text = codes "log"; dim = true } ∷ [])
    ∷ []

run_cmd-steps_example :
    let before_flush = steps plain_host two_messages new_session in
    let n = 2 * length before_flush.tui.scrollback + 2 in
    let after = run_cmd plain_host n (message flush_scrollback) before_flush in
    (after.taken ++ last_shown plain_host after.tui.last_line
      ≡ ([] ++ waiting plain_host new_tui) ++ all_lines plain_host new_session two_messages)
    × (after.tui.scrollback ≡ [])
run_cmd-steps_example =
    run_cmd-steps plain_host two_messages new_session
      (2 * length (steps plain_host two_messages new_session).tui.scrollback + 2) (omega arith)

abbrev running_channel : StdinChannel
running_channel = record { running = true; early = []; sent = [] }

-- Two lines in three writes.
abbrev three_writes : List Bytes
three_writes = codes "on" ∷ codes "e\r\ntw" ∷ codes "o\n" ∷ []

write_logs-lines_of_example :
    write_logs three_writes ([], running_channel)
    ≡ (rest_of (concat three_writes), send_lines (lines_of (concat three_writes)) running_channel)
unfolding split
write_logs-lines_of_example = write_logs-lines_of three_writes [] running_channel refl refl

write_streams-print_stream_example :
    feed plain_host (write_streams plain_host three_writes running_channel).sent new_tui
    ≡ print_stream (concat three_writes) true new_tui
write_streams-print_stream_example =
    write_streams-print_stream plain_host three_writes running_channel new_tui (ground arith) refl
      refl

ready-IsLogLine : IsLogLine (codes "serial: ready")
unfolding trim_returns
ready-IsLogLine = record { one_line = ground arith; plain = ground arith; no_return = refl }

log_all-lines_example :
    (log_all true (codes "serial: ready" ∷ codes "serial: ready" ∷ []) ([], running_channel)).1
    ≡ record running_channel {
      sent = log_line (codes "serial: ready") ∷ log_line (codes "serial: ready") ∷ [];
    }
log_all-lines_example =
    log_all-lines true (codes "serial: ready" ∷ codes "serial: ready" ∷ []) running_channel
      (ready-IsLogLine, (ready-IsLogLine, tt)) refl
