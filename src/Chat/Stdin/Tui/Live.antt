-- ===== src/Chat/Stdin/Tui/Live.antt =====
-- Text that streams through `tuiStreamWriter` into the model of bridge/chat/stdin.go.
use claw.Prelude.{
  same_text, ◌≢◌, All-append, ℕ, zero, suc, ◌<◌, true, List, [], ◌∷◌, ◌++◌, append_assoc,
  append-nil, ◌≡◌, refl, sym, ap, ◌∙◌, arith, ◌==◌, if◌then◌else◌, length, Bytes, is_nil, before,
  behind, contains_rune, All, Bool-cases, inl, inr, ==_iff,
}
use claw.Chat.Stdin.{
  ConsoleLine, Msg, settled, stream, stream_commit, StdinChannel, send_stream, commit_stream,
}
use claw.Chat.Stdin.Ansi.{esc, Plain, strip_ansi-Plain}
use claw.Chat.Stdin.Runes.{each_alone, runes_of-each_alone}
use claw.Chat.Stdin.Writers.{newline, stream_loop, write_stream}
use claw.Chat.Stdin.Writers.Lines.{concat, length-behind}
use claw.Chat.Stdin.Tui.{
  Host, Tui, Cmd, message, has_text, settle, print_rune, print_runes, print_stream, commit_live,
  update,
}

-- The lines that a command settles.
abbrev pub lines_in : Cmd → List ConsoleLine
lines_in (message (settled ls)) = ls
lines_in _ = []

abbrev chan : List Bytes → List Msg → StdinChannel
chan early sent = record { running = true; early = early; sent = sent }

-- A text of 7-bit bytes without escapes.
abbrev pub IsAscii : Bytes → Type 0
IsAscii s = All (λ c. (c ≢ esc) × (c < 128)) s

IsAscii-Plain : (s : Bytes) → IsAscii s → Plain s
IsAscii-Plain [] h = tt
IsAscii-Plain (c ∷ s) h = (h.0.0, IsAscii-Plain s h.1)

IsAscii-low : (s : Bytes) → IsAscii s → All (λ c. c < 128) s
IsAscii-low [] h = tt
IsAscii-low (c ∷ s) h = (h.0.1, IsAscii-low s h.1)

-- `printStream` with each byte as a rune.
print_bytes : Bytes → Tui → List ConsoleLine × Tui
print_bytes s t = print_runes (each_alone s) true t

print_stream-bytes : (s : Bytes) (t : Tui) → IsAscii s → print_stream s true t ≡ print_bytes s t
unfolding print_stream print_bytes
print_stream-bytes s t h =
    ap (λ rs. print_runes rs true t) (runes_of-each_alone s (IsAscii-low s h))

abbrev then_print : Bytes → List ConsoleLine × Tui → List ConsoleLine × Tui
then_print s (ls, t) = (ls ++ (print_bytes s t).0, (print_bytes s t).1)

print_bytes-append :
    (a b : Bytes) (t : Tui) → print_bytes (a ++ b) t ≡ then_print b (print_bytes a t)
unfolding print_bytes print_runes
print_bytes-append [] b t = refl
print_bytes-append (c ∷ a) b t =
    let (ls, t') = print_rune (c ∷ []) true t in
    ap (λ (r : List ConsoleLine × Tui). (ls ++ r.0, r.1)) (print_bytes-append a b t')
    ∙ ap (λ l. (l, (print_bytes b (print_bytes a t').1).1))
        (sym (append_assoc ls (print_bytes a t').0 (print_bytes b (print_bytes a t').1).0))

then_print-append :
    (a b : Bytes) (x : List ConsoleLine × Tui)
    → then_print (a ++ b) x ≡ then_print b (then_print a x)
then_print-append a b (ls, t) =
    ap (λ (r : List ConsoleLine × Tui). (ls ++ r.0, r.1)) (print_bytes-append a b t)
    ∙ ap (λ l. (l, (print_bytes b (print_bytes a t).1).1))
        (sym (append_assoc ls (print_bytes a t).0 (print_bytes b (print_bytes a t).1).0))

-- A newline commits the live line.
print_bytes-newline : (t : Tui) → print_bytes (newline ∷ []) t ≡ commit_live t
unfolding print_bytes print_runes print_rune commit_live same_text
print_bytes-newline t = elim (Bool-cases (has_text t.live)) [
  | inl e ↦ simp (e, append-nil)
  | inr e ↦ simp e
]

lines_in-settle : (ls : List ConsoleLine) → lines_in (settle ls) ≡ ls
unfolding settle
lines_in-settle [] = refl
lines_in-settle (l ∷ ls) = refl

before-behind :
    (s : Bytes)
    → contains_rune s newline ≡ true
    → before s newline ++ (newline ∷ behind s newline) ≡ s
unfolding before behind contains_rune
before-behind [] h = cc
before-behind (c ∷ s) h = ground (arith, before-behind s, ==_iff c newline)

before-IsAscii : (s : Bytes) → IsAscii s → IsAscii (before s newline)
unfolding before
before-IsAscii [] h = tt
before-IsAscii (c ∷ s) h = elim (Bool-cases (c == newline)) [
  | inl e ↦ rw e tt
  | inr e ↦ rw e (h.0, before-IsAscii s h.1)
]

behind-IsAscii : (s : Bytes) → IsAscii s → IsAscii (behind s newline)
unfolding behind
behind-IsAscii [] h = tt
behind-IsAscii (c ∷ s) h = elim (Bool-cases (c == newline)) [
  | inl e ↦ rw e h.1
  | inr e ↦ rw e (behind-IsAscii s h.1)
]

module _ (host : Host) where
  -- The program takes the messages one by one; the lines that its commands settle.
  abbrev pub feed : List Msg → Tui → List ConsoleLine × Tui
  feed [] t = ([], t)
  feed (m ∷ ms) t =
      let (t', c) = update host m t in let (ls, t'') = feed ms t' in (lines_in c ++ ls, t'')

  feed-one :
      (ms : List Msg) (m : Msg) (t : Tui)
      → feed (ms ++ (m ∷ [])) t ≡ (
        (feed ms t).0 ++ lines_in (update host m (feed ms t).1).1,
        (update host m (feed ms t).1).0,
      )
  feed-one [] m t = ap (λ l. (l, (update host m t).0)) (append-nil _)
  feed-one (n ∷ ms) m t =
      let (t', c) = update host n t in
      ap (λ (r : List ConsoleLine × Tui). (lines_in c ++ r.0, r.1)) (feed-one ms m t')
      ∙ ap (λ l. (l, (update host m (feed ms t').1).0))
          (sym
            (append_assoc (lines_in c) (feed ms t').0 (lines_in (update host m (feed ms t').1).1)))

  feed-stream :
      (ms : List Msg) (s : Bytes) (t : Tui)
      → IsAscii s
      → feed (ms ++ (stream s ∷ [])) t ≡ then_print s (feed ms t)
  unfolding update
  feed-stream ms s t h =
      feed-one ms (stream s) t ∙ rw (lines_in-settle, print_stream-bytes s (feed ms t).1 h)

  feed-commit :
      (ms : List Msg) (t : Tui)
      → feed (ms ++ (stream_commit ∷ [])) t ≡ then_print (newline ∷ []) (feed ms t)
  unfolding update
  feed-commit ms t = feed-one ms stream_commit t ∙ rw (lines_in-settle, print_bytes-newline)

  then_print-nil : (x : List ConsoleLine × Tui) → then_print [] x ≡ x
  unfolding print_bytes print_runes
  then_print-nil (ls, t) = ap (λ l. (l, t)) (append-nil ls)

  -- The channel goes on with messages that print the text.
  Prints : List Bytes → List Msg → Bytes → Tui → StdinChannel → Type 0
  Prints early ms s t ch =
      (ms' : List Msg) × (ch ≡ chan early ms') × (feed ms' t ≡ then_print s (feed ms t))

  module _ (early : List Bytes) (t : Tui) where
    send_stream-Prints :
        (s : Bytes) (ms : List Msg)
        → IsAscii s
        → Prints early ms s t (send_stream s (chan early ms))
    unfolding send_stream Prints
    send_stream-Prints [] ms h = (ms, rw (strip_ansi-Plain [] tt), sym (then_print-nil (feed ms t)))
    send_stream-Prints (c ∷ s) ms h = (
      ms ++ (stream (c ∷ s) ∷ []),
      rw (strip_ansi-Plain (c ∷ s) (IsAscii-Plain (c ∷ s) h)),
      feed-stream ms (c ∷ s) t h,
    )

    send_piece-Prints :
        (s : Bytes) (ms : List Msg)
        → IsAscii s
        → Prints early ms s t (if is_nil s then chan early ms else send_stream s (chan early ms))
    unfolding Prints
    send_piece-Prints [] ms h = (ms, refl, sym (then_print-nil (feed ms t)))
    send_piece-Prints (c ∷ s) ms h = send_stream-Prints (c ∷ s) ms h

    stream_loop-Prints :
        (n : ℕ) (s : Bytes) (ms : List Msg)
        → length s < n
        → IsAscii s
        → Prints early ms s t (stream_loop n s (chan early ms))
    unfolding stream_loop Prints commit_stream
    stream_loop-Prints zero s ms h p = absurd (omega arith)
    stream_loop-Prints (suc n) s ms h p = elim (Bool-cases (contains_rune s newline)) [
      | inr e ↦ rw e (send_piece-Prints s ms p)
      | inl e ↦
          let (ms1, sent1, print1) = send_piece-Prints (before s newline) ms (before-IsAscii s p) in
          let (ms2, sent2, print2) =
            stream_loop-Prints n (behind s newline) (ms1 ++ (stream_commit ∷ []))
              (omega (arith, length-behind s e)) (behind-IsAscii s p) in
          (
            ms2,
            rw (e, sent1) sent2,
            print2
                ∙ ap (then_print (behind s newline))
                    (feed-commit ms1 t ∙ ap (then_print (newline ∷ [])) print1)
                ∙ sym (then_print-append (newline ∷ []) (behind s newline) _)
                ∙ sym
                    (then_print-append (before s newline) (newline ∷ behind s newline) (feed ms t))
                ∙ ap (λ u. then_print u (feed ms t)) (before-behind s e),
          )
    ]

    write_stream-Prints :
        (p : Bytes) (ms : List Msg)
        → IsAscii p
        → Prints early ms p t (write_stream p (chan early ms))
    unfolding write_stream
    write_stream-Prints p ms h = stream_loop-Prints (suc (length p)) p ms (omega arith) h

  abbrev pub write_streams : List Bytes → StdinChannel → StdinChannel
  write_streams [] ch = ch
  write_streams (p ∷ ps) ch = write_streams ps (write_stream p ch)

  write_streams-Prints :
      (early : List Bytes) (t : Tui) (ps : List Bytes) (ms : List Msg)
      → All IsAscii ps
      → feed (write_streams ps (chan early ms)).sent t ≡ then_print (concat ps) (feed ms t)
  unfolding Prints
  write_streams-Prints early t [] ms h = sym (then_print-nil (feed ms t))
  write_streams-Prints early t (p ∷ ps) ms h =
      let (ms1, sent, prints) = write_stream-Prints early t p ms h.0 in
      ap (λ ch. (feed (write_streams ps ch).sent t)) sent
      ∙ write_streams-Prints early t ps ms1 h.1
      ∙ ap (then_print (concat ps)) prints
      ∙ sym (then_print-append p (concat ps) (feed ms t))

  concat-IsAscii : (ps : List Bytes) → All IsAscii ps → IsAscii (concat ps)
  concat-IsAscii [] h = tt
  concat-IsAscii (p ∷ ps) h =
      All-append (λ c. (c ≢ esc) × (c < 128)) p (concat ps) h.0 (concat-IsAscii ps h.1)

  -- However a text of 7-bit bytes without escapes is cut into writes to the stream writer of a running
  -- terminal, to which nothing was sent before: the messages, as `Update` takes them, settle the
  -- lines that `printStream` gives for the whole text and leave the model as it does, the live
  -- line included.
  pub write_streams-print_stream :
      (ps : List Bytes) (ch : StdinChannel) (t : Tui)
      → All IsAscii ps
      → ch.running ≡ true
      → ch.sent ≡ []
      → feed (write_streams ps ch).sent t ≡ print_stream (concat ps) true t
  write_streams-print_stream ps ch t h r e =
      ap (λ b. feed (write_streams ps (record ch { running = b })).sent t) r
      ∙ ap (λ m. feed (write_streams ps (chan ch.early m)).sent t) e
      ∙ write_streams-Prints ch.early t ps [] h
      ∙ sym (print_stream-bytes (concat ps) t (concat-IsAscii ps h))
