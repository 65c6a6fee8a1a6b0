-- ===== src/Chat/Stdin/Writers/Lines.antt =====
-- What `tuiLogWriter` of bridge/chat/stdin.go sends, however its input is cut into writes.
use claw.Prelude.{
  ℕ, zero, suc, ◌<◌, true, false, List, [], ◌∷◌, ◌++◌, append_assoc, append-nil, ◌≡◌, refl, ap, ◌∙◌,
  arith, ◌==◌, if◌then◌else◌, length, Bytes, before, behind, contains_rune, split, onto_first,
  Bool-cases, inl, inr,
}
use claw.Prelude.Text.Trims.{Lacks}
use claw.Prelude.Text.Splits.{AllLack, split-AllLack, split-alone}
use claw.Chat.Stdin.{StdinChannel, send_line}
use claw.Chat.Stdin.Writers.{newline, trim_returns, log_loop, write_log}

-- The parts of a text before its last newline, and what follows that.
abbrev pub whole : List Bytes → List Bytes
whole [] = []
whole (p ∷ []) = []
whole (p ∷ q ∷ ps) = p ∷ whole (q ∷ ps)

abbrev pub unfinished : List Bytes → Bytes
unfinished [] = []
unfinished (p ∷ []) = p
unfinished (p ∷ q ∷ ps) = unfinished (q ∷ ps)

abbrev pub lines_of : Bytes → List Bytes
lines_of s = whole (split s newline)

abbrev pub rest_of : Bytes → Bytes
rest_of s = unfinished (split s newline)

-- The lines are sent one by one.
abbrev pub send_lines : List Bytes → StdinChannel → StdinChannel
send_lines [] ch = ch
send_lines (l ∷ ls) ch = send_lines ls (send_line (trim_returns l) ch)

pub send_lines-append :
    (ls ms : List Bytes) (ch : StdinChannel)
    → send_lines (ls ++ ms) ch ≡ send_lines ms (send_lines ls ch)
send_lines-append [] ms ch = refl
send_lines-append (l ∷ ls) ms ch = send_lines-append ls ms (send_line (trim_returns l) ch)

-- A split is never empty, and shows the first separator.
pub data Parts (l : List Bytes) : Type 0 where
  alone : (p : Bytes) → l ≡ p ∷ [] → Parts l
  several : (p q : Bytes) (ps : List Bytes) → l ≡ p ∷ q ∷ ps → Parts l

onto_first-Parts : (c : ℕ) (l : List Bytes) → Parts l → Parts (onto_first c l)
onto_first-Parts c l (alone p e) = alone (c ∷ p) (rw e)
onto_first-Parts c l (several p q ps e) = several (c ∷ p) q ps (rw e)

cons-Parts : (l : List Bytes) → Parts l → Parts ([] ∷ l)
cons-Parts l (alone p e) = several [] p [] (rw e)
cons-Parts l (several p q ps e) = several [] p (q ∷ ps) (rw e)

pub split-Parts : (s : Bytes) → Parts (split s newline)
unfolding split
split-Parts [] = alone [] refl
split-Parts (c ∷ s) = elim (Bool-cases (c == newline)) [
  | inl e ↦ rw e (cons-Parts (split s newline) (split-Parts s))
  | inr e ↦ rw e (onto_first-Parts c (split s newline) (split-Parts s))
]

pub split-cut :
    (s : Bytes)
    → contains_rune s newline ≡ true
    → split s newline ≡ before s newline ∷ split (behind s newline) newline
unfolding split before behind contains_rune
split-cut [] h = cc
split-cut (c ∷ s) h = ground (arith, split-cut s)

pub length-behind :
    (s : Bytes) → contains_rune s newline ≡ true → length (behind s newline) < length s
unfolding behind contains_rune
length-behind [] h = cc
length-behind (c ∷ s) h = ground (arith, length-behind s)

pub split-uncut : (s : Bytes) → contains_rune s newline ≡ false → split s newline ≡ s ∷ []
unfolding split contains_rune
split-uncut [] h = refl
split-uncut (c ∷ s) h = ground (arith, split-uncut s)

whole-cons : (p : Bytes) (l : List Bytes) → Parts l → whole (p ∷ l) ≡ p ∷ whole l
whole-cons p l (alone q e) = rw e
whole-cons p l (several q r ps e) = rw e

unfinished-cons : (p : Bytes) (l : List Bytes) → Parts l → unfinished (p ∷ l) ≡ unfinished l
unfinished-cons p l (alone q e) = rw e
unfinished-cons p l (several q r ps e) = rw e

-- Behind a newline, the text goes on as if it began there.
pub lines_of-cut :
    (s : Bytes)
    → contains_rune s newline ≡ true
    → (lines_of s ≡ before s newline ∷ lines_of (behind s newline))
      × (rest_of s ≡ rest_of (behind s newline))
lines_of-cut s h =
    let parts = split-Parts (behind s newline) in
    (
      rw (split-cut s h) (whole-cons (before s newline) (split (behind s newline) newline) parts),
      rw (split-cut s h)
          (unfinished-cons (before s newline) (split (behind s newline) newline) parts),
    )

pub log_loop-lines :
    (n : ℕ) (buf : Bytes) (ch : StdinChannel)
    → length buf < n
    → log_loop n buf ch ≡ (rest_of buf, send_lines (lines_of buf) ch)
unfolding log_loop
log_loop-lines zero buf ch h = absurd (omega arith)
log_loop-lines (suc n) buf ch h = elim (Bool-cases (contains_rune buf newline)) [
  | inr e ↦ rw (e, split-uncut buf e)
  | inl e ↦
      let (lines, rest) = lines_of-cut buf e in
      rw (e, lines, rest)
        (log_loop-lines n (behind buf newline) (send_line (trim_returns (before buf newline)) ch)
          (omega (arith, length-behind buf e)))
]

-- A text behind another one continues its unfinished line.
split-append :
    (a b : Bytes)
    → split (a ++ b) newline ≡ whole (split a newline) ++ split (rest_of a ++ b) newline
unfolding split
split-append [] b = refl
split-append (c ∷ a) b = elim (Bool-cases (c == newline)) [
  | inl e ↦
      let parts = split-Parts a in
      rw (
        e,
        split-append a b,
        whole-cons [] (split a newline) parts,
        unfinished-cons [] (split a newline) parts,
      )
  | inr e ↦ onto c (split a newline) (split-Parts a) e (split-append a b)
]
  where
    onto :
        (d : ℕ) (l : List Bytes)
        → Parts l
        → (d == newline) ≡ false
        → split (a ++ b) newline ≡ whole l ++ split (unfinished l ++ b) newline
        → (if d == newline
            then [] ∷ split (a ++ b) newline
            else onto_first d (split (a ++ b) newline))
          ≡ whole (if d == newline then [] ∷ l else onto_first d l)
            ++ split (unfinished (if d == newline then [] ∷ l else onto_first d l) ++ b) newline
    onto d l (alone p e) ne h = rw (e, ne, h, e, ne)
    onto d l (several p q ps e) ne h = rw (e, ne, h, e)

whole-append :
    (xs l : List Bytes)
    → Parts l
    → (whole (xs ++ l) ≡ xs ++ whole l) × (unfinished (xs ++ l) ≡ unfinished l)
whole-append [] l h = (refl, refl)
whole-append (x ∷ xs) l h =
    let (w, u) = whole-append xs l h in
    let parts = longer xs in
    (whole-cons x (xs ++ l) parts ∙ ap (◌∷◌ x) w, unfinished-cons x (xs ++ l) parts ∙ u)
  where
    longer : (ys : List Bytes) → Parts (ys ++ l)
    longer [] = h
    longer (y ∷ []) = elim h [
      | alone p e ↦ several y p [] (rw e)
      | several p q ps e ↦ several y p (q ∷ ps) (rw e)
    ]
    longer (y ∷ z ∷ zs) = several y z (zs ++ l) refl

pub lines_of-append :
    (a b : Bytes)
    → (lines_of (a ++ b) ≡ lines_of a ++ lines_of (rest_of a ++ b))
      × (rest_of (a ++ b) ≡ rest_of (rest_of a ++ b))
lines_of-append a b =
    let (w, u) =
      whole-append (lines_of a) (split (rest_of a ++ b) newline) (split-Parts (rest_of a ++ b)) in
    (ap whole (split-append a b) ∙ w, ap unfinished (split-append a b) ∙ u)

unfinished-Lacks : (ls : List Bytes) → AllLack newline ls → Lacks newline (unfinished ls)
unfinished-Lacks [] h = tt
unfinished-Lacks (p ∷ []) h = h.0
unfinished-Lacks (p ∷ q ∷ ps) h = unfinished-Lacks (q ∷ ps) h.1

-- What follows the last newline holds none.
pub split-rest_of : (s : Bytes) → split (rest_of s) newline ≡ rest_of s ∷ []
split-rest_of s =
    split-alone newline (rest_of s) (unfinished-Lacks (split s newline) (split-AllLack newline s))

-- All that was written, in order.
abbrev pub concat : List Bytes → Bytes
concat [] = []
concat (p ∷ ps) = p ++ concat ps

abbrev pub write_logs : List Bytes → Bytes × StdinChannel → Bytes × StdinChannel
write_logs [] w = w
write_logs (p ∷ ps) w = write_logs ps (write_log p w)

-- However a text is cut into writes, and whatever the buffer holds that has no newline, the log
-- writer sends the lines of the buffer and the text, each once, in order and without the carriage
-- returns at its end, and keeps what follows the last newline.
pub write_logs-lines_of :
    (ps : List Bytes) (buf : Bytes) (ch : StdinChannel)
    → rest_of buf ≡ buf
    → lines_of buf ≡ []
    → write_logs ps (buf, ch)
      ≡ (rest_of (buf ++ concat ps), send_lines (lines_of (buf ++ concat ps)) ch)
unfolding write_log
write_logs-lines_of [] buf ch h k = rw (append-nil buf, h, k)
write_logs-lines_of (p ∷ ps) buf ch h k =
    let text = buf ++ p in
    let step = log_loop-lines (suc (length text)) text ch (omega arith) in
    let (lines, rest) = lines_of-append text (concat ps) in
    rw step (
      write_logs-lines_of ps (rest_of text) (send_lines (lines_of text) ch)
        (ap unfinished (split-rest_of text)) (ap whole (split-rest_of text))
      ∙ rw (← append_assoc buf p (concat ps), lines, rest, send_lines-append))
