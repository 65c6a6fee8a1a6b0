-- ===== src/Chat/Stdin.antt =====
-- bridge/chat/stdin.go: the messages of the terminal channel and what sends them.
pub mod Ansi
pub mod Runes
pub mod Writers
pub mod Tui
use claw.Prelude.{ℕ, Bool, true, false, Option, List, [], ◌∷◌, ◌++◌, is_nil, if◌then◌else◌, Bytes}
use claw.Chat.Stdin.Ansi.{strip_ansi}

pub record ConsoleLine : Type 0 where
  pub text : Bytes
  pub dim : Bool

abbrev pub no_line : ConsoleLine
no_line = record { text = []; dim = false }

-- Keys, with the time in milliseconds for ctrl+c; `other_key` carries what `textinput` reads.
pub data Key : Type 0 where
  ctrl_c : ℕ → Key
  enter : Key
  other_key : ℕ → Key

-- The messages that `Update` tells apart.
pub data Msg : Type 0 where
  window_size : ℕ → Msg
  c64_reply log_line stream : Bytes → Msg
  stream_commit flush_scrollback flush_early redraw : Msg
  settled : List ConsoleLine → Msg
  handler_done : Option Bytes → Msg
  key_press : Key → Msg
  other_msg : Msg

-- `StdinChannel`: whether the program runs, the lines kept for it, and what was sent to it.
pub record StdinChannel : Type 0 where
  pub running : Bool
  pub early : List Bytes
  pub sent : List Msg

unfoldable pub new_stdin : StdinChannel
new_stdin = record { running = false; early = []; sent = [] }

-- `s.program.Send`
abbrev pub send_msg : Msg → StdinChannel → StdinChannel
send_msg m s = record s { sent = s.sent ++ (m ∷ []) }

unfoldable pub send_line : Bytes → StdinChannel → StdinChannel
send_line line s =
    if s.running
    then send_msg (log_line (strip_ansi line)) s
    else record s { early = s.early ++ (strip_ansi line ∷ []) }

unfoldable pub send_stream : Bytes → StdinChannel → StdinChannel
send_stream text s =
    if is_nil (strip_ansi text)
    then s
    else if s.running
    then send_msg (stream (strip_ansi text)) s
    else s

unfoldable pub commit_stream : StdinChannel → StdinChannel
commit_stream s = if s.running then send_msg stream_commit s else s

-- `Start` up to `Run`; the early lines are given to the model.
unfoldable pub start_stdin : StdinChannel → StdinChannel × List Bytes
start_stdin s = (record s { running = true; early = [] }, s.early)

unfoldable pub send_reply : Bytes → StdinChannel → StdinChannel
send_reply text s = if s.running then send_msg (c64_reply text) s else s
