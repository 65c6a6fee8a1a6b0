-- ===== src/Chat/Stdin/Writers.antt =====
-- bridge/chat/stdin.go: `tuiLogWriter` and `tuiStreamWriter`, and `dimWriter` of
-- bridge/termstyle/style.go in front of the former. Each `Write` holds its lock throughout.
pub mod Lines
pub mod Dimmed
use claw.Prelude.{
  ℕ, zero, suc, Bool, true, false, ◌&&◌, not, List, [], ◌∷◌, ◌++◌, ◌==◌, if◌then◌else◌, length,
  Bytes, is_nil, before, behind, contains_rune,
}
use claw.Termstyle.{dim}
use claw.Chat.Stdin.{StdinChannel, send_line, send_stream, commit_stream}

abbrev pub newline : ℕ
newline = b'\n'

-- `strings.TrimRight(s, "\r")`
unfoldable pub trim_returns : Bytes → Bytes
trim_returns [] = []
trim_returns (c ∷ s) =
    let rest = trim_returns s in if c == b'\r' && is_nil rest then [] else c ∷ rest

-- The loop of `tuiLogWriter.Write`, with the buffer and the channel, on fuel above the buffer's
-- length.
unfoldable pub log_loop : ℕ → Bytes → StdinChannel → Bytes × StdinChannel
log_loop zero buf ch = (buf, ch)
log_loop (suc n) buf ch =
    let rest = log_loop n (behind buf newline) (send_line (trim_returns (before buf newline)) ch) in
    if contains_rune buf newline then rest else (buf, ch)

unfoldable pub write_log : Bytes → Bytes × StdinChannel → Bytes × StdinChannel
write_log p (buf, ch) = log_loop (suc (length (buf ++ p))) (buf ++ p) ch

-- The loop of `tuiStreamWriter.Write`, over bytes, on fuel above the length of the text.
unfoldable pub stream_loop : ℕ → Bytes → StdinChannel → StdinChannel
stream_loop zero s ch = ch
stream_loop (suc n) s ch =
    let piece = before s newline in
    let shown = if is_nil piece then ch else send_stream piece ch in
    let rest = stream_loop n (behind s newline) (commit_stream shown) in
    if contains_rune s newline then rest else if is_nil s then ch else send_stream s ch

unfoldable pub write_stream : Bytes → StdinChannel → StdinChannel
write_stream p ch = stream_loop (suc (length p)) p ch

-- A log line through `dimWriter`, with whether colours are enabled.
unfoldable pub write_dim_log : Bool → Bytes → Bytes × StdinChannel → Bytes × StdinChannel
write_dim_log on p w = write_log (dim on p) w
