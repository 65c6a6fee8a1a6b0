-- ===== src/Serial/Listen/Start.antt =====
-- bridge/serial/serial.go: `ListenAndStartUntilTimeout`, and the two functions that call it.
use claw.Prelude.{
  ℕ, ◌<◌, Bool, true, false, not, ◌&&◌, Option, none, some, ◌≡◌, ltb, if◌then◌else◌, ltb→lt, refl,
}
use claw.Serial.Listen.{Outcome, linked, accept_failed}

-- The error that the process exits with, if any: it is wrapped in the message, or the message
-- stands alone.
pub data Exit : Type 0 where
  clean failing : Exit

-- What the function meets: whether the port can be bound, whether `start` fails, whether it gives
-- a channel of exits, what `waitForHandshake` returns, and, behind it, whether the timer has fired
-- and what the goroutine that watches the process has put into `startExit`.
pub record Course : Type 0 where
  pub binds : Bool
  pub start_fails : Bool
  pub watched : Bool
  pub outcome : Outcome
  pub timer_fired : Bool
  pub exit : Option Exit

pub data Started : Type 0 where
  link : ℕ → Started
  listen_error start_error handshake_timed_out accept_error : Started
  process_exited : Exit → Started

-- The `select` on `startExit`, which is nil when nothing is watched.
unfoldable pub exit_or : Bool → Option Exit → Started
exit_or false e = accept_error
exit_or true none = accept_error
exit_or true (some e) = process_exited e

-- Behind `waitForHandshake`. There is a timer for a positive timeout only.
unfoldable pub after_wait : ℕ → Course → Outcome → Started
after_wait timeout c (linked i) = link i
after_wait timeout c accept_failed =
    if ltb 0 timeout && c.timer_fired then handshake_timed_out else exit_or c.watched c.exit

unfoldable pub listen_and_start_until_timeout : ℕ → Course → Started
listen_and_start_until_timeout timeout c =
    if not c.binds
    then listen_error
    else if c.start_fails
    then start_error
    else after_wait timeout c c.outcome

unfoldable pub listen_and_start_until : Course → Started
listen_and_start_until c = listen_and_start_until_timeout 0 c

-- `start` gives no channel.
unfoldable pub listen_and_start : Course → Started
listen_and_start c = listen_and_start_until (record c { watched = false })

-- What each result tells of the course: a link is the one that the handshake gave, the process'
-- exit is reported for a watched process only, and a timeout for a timer that was set.
abbrev pub Explains : ℕ → Course → Started → Type 0
Explains timeout c (link i) = (c.binds ≡ true) × (c.start_fails ≡ false) × (c.outcome ≡ linked i)
Explains timeout c listen_error = c.binds ≡ false
Explains timeout c start_error = (c.binds ≡ true) × (c.start_fails ≡ true)
Explains timeout c handshake_timed_out =
    (0 < timeout) × (c.timer_fired ≡ true) × (c.outcome ≡ accept_failed)
Explains timeout c (process_exited e) =
    (c.watched ≡ true) × (c.exit ≡ some e) × (c.outcome ≡ accept_failed)
Explains timeout c accept_error = c.outcome ≡ accept_failed

if-Explains :
    (timeout : ℕ) (c : Course) (b : Bool) (x y : Started)
    → (b ≡ true → Explains timeout c x)
    → (b ≡ false → Explains timeout c y)
    → Explains timeout c (if b then x else y)
if-Explains timeout c true x y hx hy = hx refl
if-Explains timeout c false x y hx hy = hy refl

and_both : (a b : Bool) → (a && b) ≡ true → (a ≡ true) × (b ≡ true)
and_both true b h = (refl, h)
and_both false b h = cc

not-true : (b : Bool) → not b ≡ true → b ≡ false
not-true true h = cc
not-true false h = refl

not-false : (b : Bool) → not b ≡ false → b ≡ true
not-false true h = refl
not-false false h = cc

exit_or-Explains :
    (timeout : ℕ) (c : Course)
    → c.outcome ≡ accept_failed
    → Explains timeout c (exit_or c.watched c.exit)
unfolding exit_or
exit_or-Explains timeout c o = go c.watched c.exit refl refl
  where
    go :
        (w : Bool) (e : Option Exit) → c.watched ≡ w → c.exit ≡ e → Explains timeout c (exit_or w e)
    go false e hw he = o
    go true none hw he = o
    go true (some x) hw he = (hw, he, o)

after_wait-Explains :
    (timeout : ℕ) (c : Course) (o : Outcome)
    → c.binds ≡ true
    → c.start_fails ≡ false
    → c.outcome ≡ o
    → Explains timeout c (after_wait timeout c o)
unfolding after_wait
after_wait-Explains timeout c (linked i) b s e = (b, s, e)
after_wait-Explains timeout c accept_failed b s e =
    if-Explains timeout c (ltb 0 timeout && c.timer_fired) handshake_timed_out
      (exit_or c.watched c.exit)
      (λ h.
        let (set, fired) = and_both (ltb 0 timeout) c.timer_fired h in
        (ltb→lt 0 timeout set, fired, e))
      (λ h. exit_or-Explains timeout c e)

-- Every result of `ListenAndStartUntilTimeout` is explained by what happened: a link is the one
-- that the handshake gave, whatever the timer and the process did meanwhile; a timeout is reported
-- where a timer was set and fired, and an exit where the process was watched and exited, both only
-- when the handshake failed.
pub listen_and_start_until_timeout-Explains :
    (timeout : ℕ) (c : Course) → Explains timeout c (listen_and_start_until_timeout timeout c)
unfolding listen_and_start_until_timeout
listen_and_start_until_timeout-Explains timeout c =
    if-Explains timeout c (not c.binds) listen_error _ (not-true c.binds) (λ b.
      if-Explains timeout c c.start_fails start_error _ (λ s. (not-false c.binds b, s))
        (λ s. after_wait-Explains timeout c c.outcome (not-false c.binds b) s refl))
