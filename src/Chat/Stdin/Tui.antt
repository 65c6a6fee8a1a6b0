-- ===== src/Chat/Stdin/Tui.antt =====
-- bridge/chat/stdin.go: `tuiModel`, its `Update` and `View`.
-- A command is what it does when the runtime runs it. What the libraries do with a text (wrapping,
-- its width, the input line) is a parameter.
pub mod Shown
pub mod Flushed
pub mod Live
use claw.Prelude.{
  ℕ, ◌+◌, ◌-◌, Bool, true, false, not, Option, none, some, List, [], ◌∷◌, ◌++◌, ◌==◌, ltb, leb,
  if◌then◌else◌, Bytes, codes, is_nil, same_text, split,
}
use claw.Termstyle.{dim}
use claw.Chat.Stdin.Runes.{runes_of}
use claw.Chat.Stdin.{
  ConsoleLine, no_line, Key, ctrl_c, enter, other_key, Msg, window_size, c64_reply, log_line,
  stream, stream_commit, flush_scrollback, flush_early, redraw, settled, handler_done, key_press,
  other_msg,
}

-- `xansi.Hardwrap`, `xansi.StringWidth`, `xansi.Truncate`, whether colours are enabled,
-- `textinput`'s `Update` and its rendered prompt.
pub record Host : Type 0 where
  pub hardwrap : Bytes → ℕ → Bytes
  pub string_width : Bytes → ℕ
  pub truncate : Bytes → ℕ → Bytes
  pub colours : Bool
  pub input_update : Msg → Bytes → Bytes
  pub prompt : Bytes

pub record Tui : Type 0 where
  pub input : Bytes
  pub last_line : ConsoleLine
  pub live : ConsoleLine
  pub early_lines : List Bytes
  pub is_ready : Bool
  pub scrollback : List Bytes
  pub width : ℕ
  pub interrupted : Bool
  pub busy : Bool
  pub sig_count : ℕ
  pub last_sig : ℕ

-- Nothing, a message, `tea.Println` followed by a message that depends on the scrollback then,
-- the farewell with `tea.Quit`, the echo with the handler's call, or what `textinput` gives.
pub data Cmd : Type 0 where
  nothing : Cmd
  message : Msg → Cmd
  print_and_go_on : Bytes → Cmd
  quit : List ConsoleLine → Cmd
  handle : List ConsoleLine → Bytes → Cmd
  input_cmd : Cmd

abbrev pub has_text : ConsoleLine → Bool
has_text l = not (is_nil l.text)

-- `settledMsg(lines)`, and no command where there are none.
unfoldable pub settle : List ConsoleLine → Cmd
settle [] = nothing
settle (l ∷ ls) = message (settled (l ∷ ls))

-- A line on its own, with its style.
abbrev pub plain_line : Bytes → List ConsoleLine
plain_line text = record { text = text; dim = false } ∷ []

abbrev pub with_live : ConsoleLine → Tui → Tui
with_live l t = record t { live = l }

-- One rune of `printStream`, in its bytes.
unfoldable pub print_rune : Bytes → Bool → Tui → List ConsoleLine × Tui
print_rune r is_dim t =
    if same_text r (b'\n' ∷ [])
    then if has_text t.live then (t.live ∷ [], with_live no_line t) else ([], t)
    else ([], with_live (record { text = t.live.text ++ r; dim = is_dim }) t)

unfoldable pub print_runes : List Bytes → Bool → Tui → List ConsoleLine × Tui
print_runes [] is_dim t = ([], t)
print_runes (r ∷ rs) is_dim t =
    let (lines, t') = print_rune r is_dim t in
    let (more, t'') = print_runes rs is_dim t' in (lines ++ more, t'')

unfoldable pub print_stream : Bytes → Bool → Tui → List ConsoleLine × Tui
print_stream s is_dim t = print_runes (runes_of s) is_dim t

unfoldable pub print_log : Bytes → List ConsoleLine
print_log line = if is_nil line then [] else record { text = line; dim = true } ∷ []

unfoldable pub commit_live : Tui → List ConsoleLine × Tui
commit_live t = if has_text t.live then (t.live ∷ [], with_live no_line t) else ([], t)

module _ (host : Host) where
  -- The loop over the parts of a wrapped line.
  unfoldable pub parts_of : Bool → List Bytes → List ConsoleLine
  parts_of is_dim [] = []
  parts_of is_dim (p ∷ ps) =
      let rest = parts_of is_dim ps in
      if is_nil p then rest else record { text = p; dim = is_dim } ∷ rest

  unfoldable pub wrapped_lines : ℕ → List ConsoleLine → List ConsoleLine
  wrapped_lines width [] = []
  wrapped_lines width (l ∷ ls) =
      let rest = wrapped_lines width ls in
      let text = if ltb 0 width then host.hardwrap l.text width else l.text in
      if is_nil l.text then rest else parts_of l.dim (split text b'\n') ++ rest

  unfoldable pub render : ConsoleLine → Bytes
  render l = if l.dim then dim host.colours l.text else l.text

  -- The lines before the last one go to the scrollback, and the last one is kept.
  unfoldable pub push_lines : List ConsoleLine → Tui → Tui
  push_lines [] t = t
  push_lines (l ∷ []) t = record t { last_line = l }
  push_lines (l ∷ m ∷ ls) t =
      push_lines (m ∷ ls) (record t { scrollback = t.scrollback ++ (render l ∷ []) })

  unfoldable pub release_last : Tui → Tui
  release_last t =
      if has_text t.last_line
      then record t { scrollback = t.scrollback ++ (render t.last_line ∷ []); last_line = no_line }
      else t

  unfoldable pub apply_settled : List ConsoleLine → Tui → Tui × Cmd
  apply_settled lines t =
      let wrapped = wrapped_lines t.width lines in
      if is_nil wrapped
      then (t, nothing)
      else (push_lines wrapped (release_last t), message flush_scrollback)

  unfoldable pub flush : List Bytes → Tui → Tui × Cmd
  flush [] t = (t, nothing)
  flush (out ∷ rest) t = (record t { scrollback = rest }, print_and_go_on out)

  -- The message that follows `tea.Println`.
  unfoldable pub go_on_msg : Tui → Msg
  go_on_msg t = if is_nil t.scrollback then redraw else flush_scrollback

  unfoldable pub early_shown : List Bytes → List ConsoleLine
  early_shown [] = []
  early_shown (l ∷ ls) =
      let rest = early_shown ls in
      if ltb 0 (host.string_width l) then record { text = l; dim = true } ∷ rest else rest

  -- A second ctrl+c within a second of the first.
  unfoldable pub handle_ctrl_c : ℕ → Tui → Tui × Cmd
  handle_ctrl_c now t =
      let count = (if ltb 1000 (now - t.last_sig) then 0 else t.sig_count) + 1 in
      let t' = record t { sig_count = count; last_sig = now } in
      if leb 2 count
      then (record t' { interrupted = true }, quit (plain_line (codes "bye.")))
      else (record t' { input = [] }, nothing)

  unfoldable pub handle_enter : Tui → Tui × Cmd
  handle_enter t =
      let t' = record t { input = [] } in
      if is_nil t.input
      then (t', nothing)
      else (record t' { busy = true }, handle (plain_line (host.prompt ++ t.input)) t.input)

  unfoldable pub on_key : Key → Tui → Tui × Cmd
  on_key (ctrl_c now) t = handle_ctrl_c now t
  on_key enter t = handle_enter t
  on_key (other_key k) t = (
    record t { sig_count = 0; input = host.input_update (key_press (other_key k)) t.input },
    input_cmd,
  )

  c64_prompt : Bytes
  c64_prompt = 0x1B ∷ codes "[1;92mc64>" ++ (0x1B ∷ codes "[0m ")

  error_text : Bytes → Bytes
  error_text err = (0x1B ∷ codes "[91merror: ") ++ (err ++ (0x1B ∷ codes "[0m"))

  abbrev pub settling : List ConsoleLine × Tui → Tui × Cmd
  settling (lines, t) = (t, settle lines)

  unfoldable pub update : Msg → Tui → Tui × Cmd
  unfolding c64_prompt error_text
  update (window_size w) t =
      let t' = record t { width = w; is_ready = true } in
      (t', if t.is_ready then nothing else message flush_early)
  update flush_scrollback t = flush t.scrollback t
  update redraw t = (t, nothing)
  update flush_early t = (record t { early_lines = [] }, settle (early_shown t.early_lines))
  update (settled lines) t = apply_settled lines t
  update (key_press k) t = on_key k t
  update (c64_reply text) t = (t, message (settled (plain_line (c64_prompt ++ text))))
  update (log_line line) t = (t, settle (print_log line))
  update (stream text) t = settling (print_stream text true t)
  update stream_commit t = settling (commit_live t)
  update (handler_done none) t = (record t { busy = false }, nothing)
  update (handler_done (some err)) t =
      (record t { busy = false }, message (settled (plain_line (error_text err))))
  update other_msg t = (record t { input = host.input_update other_msg t.input }, input_cmd)

  drop_breaks : Bytes → Bytes
  drop_breaks [] = []
  drop_breaks (c ∷ s) =
      let rest = drop_breaks s in if c == b'\r' then rest else if c == b'\n' then rest else c ∷ rest

  -- The line above the prompt in `View`: the live one or, without that, the last settled one.
  unfoldable pub display : Tui → Option Bytes
  unfolding drop_breaks
  display t =
      let l = if has_text t.live then t.live else t.last_line in
      let text = drop_breaks l.text in
      let cut = if ltb 0 t.width then host.truncate text t.width else text in
      if has_text l then some (if l.dim then dim host.colours cut else cut) else none
