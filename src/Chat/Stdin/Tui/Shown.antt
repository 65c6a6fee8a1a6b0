-- ===== src/Chat/Stdin/Tui/Shown.antt =====
-- What the terminal of bridge/chat/stdin.go has taken for printing after any messages.
use mathlib.Core.List.{map}
use claw.Prelude.{
  same_text, ℕ, ◌+◌, ◌-◌, Bool, true, none, some, List, [], ◌∷◌, ◌++◌, append_assoc, append-nil,
  ◌≡◌, refl, sym, ap, ◌∙◌, ltb, leb, if◌then◌else◌, Bytes, is_nil, All, All-append, Bool-cases, inl,
  inr,
}
use claw.Chat.Stdin.Runes.{runes_of}
use claw.Chat.Stdin.{
  ConsoleLine, Key, ctrl_c, enter, other_key, Msg, window_size, c64_reply, log_line, stream,
  stream_commit, flush_scrollback, flush_early, redraw, settled, handler_done, key_press, other_msg,
}
use claw.Chat.Stdin.Tui.{
  Host, Tui, Cmd, nothing, message, print_and_go_on, has_text, print_rune, print_runes,
  print_stream, commit_live, parts_of, wrapped_lines, render, push_lines, release_last,
  apply_settled, settle, flush, handle_ctrl_c, handle_enter, on_key, update,
}

-- The model beside the lines that its flushes have taken off the scrollback for `tea.Println`, in
-- the order of the flushes. Each flush prints in a goroutine of its own, so that where two are at
-- work their lines may be shown the other way round.
pub record Session : Type 0 where
  pub tui : Tui
  pub taken : List Bytes

abbrev pub taken_by : Cmd → List Bytes
taken_by (print_and_go_on out) = out ∷ []
taken_by _ = []

abbrev HasText : ConsoleLine → Type 0
HasText l = has_text l ≡ true

module _ (host : Host) where
  -- A message comes in, and a flush takes the line that its command will print.
  abbrev pub step : Msg → Session → Session
  step m s = record {
    tui = (update host m s.tui).0;
    taken = s.taken ++ taken_by (update host m s.tui).1;
  }

  abbrev pub steps : List Msg → Session → Session
  steps [] s = s
  steps (m ∷ ms) s = steps ms (step m s)

  abbrev pub last_shown : ConsoleLine → List Bytes
  last_shown l = if has_text l then render host l ∷ [] else []

  -- What is still to be taken, and the line above the prompt.
  abbrev pub waiting : Tui → List Bytes
  waiting t = t.scrollback ++ last_shown t.last_line

  -- The lines that a message settles, wrapped at the width of that time.
  abbrev pub lines_of_msg : Tui → Msg → List Bytes
  lines_of_msg t (settled lines) = map (render host) (wrapped_lines host t.width lines)
  lines_of_msg t _ = []

  abbrev pub all_lines : Session → List Msg → List Bytes
  all_lines s [] = []
  all_lines s (m ∷ ms) = lines_of_msg s.tui m ++ all_lines (step m s) ms

  parts_of-HasText : (d : Bool) (ps : List Bytes) → All HasText (parts_of host d ps)
  unfolding parts_of
  parts_of-HasText d [] = tt
  parts_of-HasText d ([] ∷ ps) = parts_of-HasText d ps
  parts_of-HasText d ((c ∷ p) ∷ ps) = (refl, parts_of-HasText d ps)

  wrapped_lines-HasText :
      (width : ℕ) (ls : List ConsoleLine) → All HasText (wrapped_lines host width ls)
  unfolding wrapped_lines
  wrapped_lines-HasText width [] = tt
  wrapped_lines-HasText width (l ∷ ls) = elim (Bool-cases (is_nil l.text)) [
    | inl e ↦ simp e (wrapped_lines-HasText width ls)
    | inr e ↦
        simp e (All-append HasText _ _ (parts_of-HasText l.dim _) (wrapped_lines-HasText width ls))
  ]

  waiting-push_lines :
      (l : ConsoleLine) (ls : List ConsoleLine) (t : Tui)
      → All HasText (l ∷ ls)
      → waiting (push_lines host (l ∷ ls) t) ≡ t.scrollback ++ map (render host) (l ∷ ls)
  unfolding push_lines
  waiting-push_lines l [] t h = simp h.0
  waiting-push_lines l (m ∷ ls) t h =
      waiting-push_lines m ls (record t { scrollback = t.scrollback ++ (render host l ∷ []) }) h.1
      ∙ append_assoc t.scrollback (render host l ∷ []) (map (render host) (m ∷ ls))

  release_last-waiting : (t : Tui) → (release_last host t).scrollback ≡ waiting t
  unfolding release_last
  release_last-waiting t = elim (Bool-cases (has_text t.last_line)) [
    | inl e ↦ simp e
    | inr e ↦ simp (e, append-nil)
  ]

  -- What an update prints and leaves to be taken is what was waiting, and the new lines.
  abbrev Adds : Tui → List Bytes → Tui × Cmd → Type 0
  Adds t lines (t', c) = taken_by c ++ waiting t' ≡ waiting t ++ lines

  apply_settled-Adds :
      (lines : List ConsoleLine) (t : Tui)
      → Adds t (map (render host) (wrapped_lines host t.width lines)) (apply_settled host lines t)
  unfolding apply_settled
  apply_settled-Adds lines t =
      go (wrapped_lines host t.width lines) (wrapped_lines-HasText t.width lines)
    where
      go :
          (w : List ConsoleLine)
          → All HasText w
          → Adds t (map (render host) w) (
              if is_nil w
              then (t, nothing)
              else (push_lines host w (release_last host t), message flush_scrollback))
      go [] h = rw append-nil
      go (l ∷ ls) h =
          waiting-push_lines l ls (release_last host t) h
          ∙ ap (λ b. b ++ map (render host) (l ∷ ls)) (release_last-waiting t)

  flush-Adds : (t : Tui) → Adds t [] (flush host t.scrollback t)
  unfolding flush
  flush-Adds t = go t.scrollback refl
    where
      go : (sb : List Bytes) → t.scrollback ≡ sb → Adds t [] (flush host sb t)
      go [] e = rw append-nil
      go (out ∷ rest) e =
          rw (append-nil (waiting t)) (ap (λ b. b ++ last_shown t.last_line) (sym e))

  -- Nothing that is waiting changes.
  abbrev Keeps : Tui → Tui → Type 0
  Keeps t t' = (t'.scrollback ≡ t.scrollback) × (t'.last_line ≡ t.last_line)

  Keeps-Adds : (t t' : Tui) (c : Cmd) → Keeps t t' → taken_by c ≡ [] → Adds t [] (t', c)
  Keeps-Adds t t' c k e = rw (e, append-nil (waiting t), k.0, k.1)

  print_rune-Keeps : (r : Bytes) (d : Bool) (t : Tui) → Keeps t (print_rune r d t).1
  unfolding print_rune
  print_rune-Keeps r d t = elim (Bool-cases (same_text r (b'\n' ∷ []))) [
    | inl e ↦ elim (Bool-cases (has_text t.live)) [
      | inl h ↦ simp (e, h) (refl, refl)
      | inr h ↦ simp (e, h) (refl, refl)
    ]
    | inr e ↦ simp e (refl, refl)
  ]

  print_runes-Keeps : (rs : List Bytes) (d : Bool) (t : Tui) → Keeps t (print_runes rs d t).1
  unfolding print_runes
  print_runes-Keeps [] d t = (refl, refl)
  print_runes-Keeps (r ∷ rs) d t =
      let first = print_rune-Keeps r d t in
      let more = print_runes-Keeps rs d (print_rune r d t).1 in (more.0 ∙ first.0, more.1 ∙ first.1)

  print_stream-Keeps : (s : Bytes) (d : Bool) (t : Tui) → Keeps t (print_stream s d t).1
  unfolding print_stream
  print_stream-Keeps s d t = print_runes-Keeps (runes_of s) d t

  commit_live-Keeps : (t : Tui) → Keeps t (commit_live t).1
  unfolding commit_live
  commit_live-Keeps t = elim (Bool-cases (has_text t.live)) [
    | inl h ↦ simp h (refl, refl)
    | inr h ↦ simp h (refl, refl)
  ]

  settle-taken_by : (ls : List ConsoleLine) → taken_by (settle ls) ≡ []
  unfolding settle
  settle-taken_by [] = refl
  settle-taken_by (l ∷ ls) = refl

  on_key-Adds : (k : Key) (t : Tui) → Adds t [] (on_key host k t)
  unfolding on_key handle_ctrl_c handle_enter
  on_key-Adds (ctrl_c now) t =
      elim (Bool-cases (leb 2 ((if ltb 1000 (now - t.last_sig) then 0 else t.sig_count) + 1))) [
        | inl e ↦ simp (e, append-nil) refl
        | inr e ↦ simp (e, append-nil) refl
      ]
  on_key-Adds enter t = elim (Bool-cases (is_nil t.input)) [
    | inl e ↦ simp (e, append-nil) refl
    | inr e ↦ simp (e, append-nil) refl
  ]
  on_key-Adds (other_key k) t = sym (append-nil (waiting t))

  pub update-Adds : (m : Msg) (t : Tui) → Adds t (lines_of_msg t m) (update host m t)
  unfolding update
  update-Adds (settled lines) t = apply_settled-Adds lines t
  update-Adds flush_scrollback t = flush-Adds t
  update-Adds (window_size w) t = elim (Bool-cases t.is_ready) [
    | inl e ↦ simp (e, append-nil) refl
    | inr e ↦ simp (e, append-nil) refl
  ]
  update-Adds redraw t = sym (append-nil (waiting t))
  update-Adds flush_early t =
      Keeps-Adds t (record t { early_lines = [] }) _ (refl, refl) (settle-taken_by _)
  update-Adds (key_press k) t = on_key-Adds k t
  update-Adds (c64_reply text) t = sym (append-nil (waiting t))
  update-Adds (log_line line) t = Keeps-Adds t t _ (refl, refl) (settle-taken_by _)
  update-Adds (stream text) t =
      Keeps-Adds t (print_stream text true t).1 _ (print_stream-Keeps text true t)
        (settle-taken_by _)
  update-Adds stream_commit t =
      Keeps-Adds t (commit_live t).1 _ (commit_live-Keeps t) (settle-taken_by _)
  update-Adds (handler_done none) t = sym (append-nil (waiting t))
  update-Adds (handler_done (some err)) t = sym (append-nil (waiting t))
  update-Adds other_msg t = sym (append-nil (waiting t))

  -- Whatever comes in: what is taken and what is waiting, put together, is what it was before,
  -- and then the lines that were settled, in order.
  pub steps-waiting :
      (ms : List Msg) (s : Session)
      → (steps ms s).taken ++ waiting (steps ms s).tui
        ≡ (s.taken ++ waiting s.tui) ++ all_lines s ms
  steps-waiting [] s = sym (append-nil (s.taken ++ waiting s.tui))
  steps-waiting (m ∷ ms) s =
      steps-waiting ms (step m s)
      ∙ ap (λ l. l ++ all_lines (step m s) ms)
          (append_assoc s.taken (taken_by (update host m s.tui).1) (waiting (update host m s.tui).0)
            ∙ ap (λ l. s.taken ++ l) (update-Adds m s.tui)
            ∙ sym (append_assoc s.taken (waiting s.tui) (lines_of_msg s.tui m)))
      ∙ append_assoc (s.taken ++ waiting s.tui) (lines_of_msg s.tui m) (all_lines (step m s) ms)
