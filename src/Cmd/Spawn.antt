-- ===== src/Cmd/Spawn.antt =====
-- cmd/claw64-bridge/main.go: `startSpawnedSerialLink`, on top of `ListenAndStartUntilTimeout`.
-- An attempt is the course of its `ListenAndStartUntilTimeout`; its start spawns VICE.
use claw.Prelude.{
  ℕ, zero, suc, ◌+◌, ◌-◌, ◌*◌, Bool, true, false, not, ◌&&◌, ◌≡◌, refl, arith, if◌then◌else◌,
}
use claw.Serial.Listen.Start.{
  Course, Started, link, listen_error, start_error, handshake_timed_out, accept_error,
  process_exited, listen_and_start_until_timeout, Explains, listen_and_start_until_timeout-Explains,
}

abbrev pub attempts : ℕ
attempts = 8

abbrev pub handshake_timeout : ℕ
handshake_timeout = 45000

-- What the attempts leave: VICE processes spawned and not yet stopped by `stopVICE`, where one that
-- exits by itself still counts, loader files removed, dumps tried and the milliseconds slept.
pub record Host : Type 0 where
  pub vices : ℕ
  pub cleanups : ℕ
  pub dumps : ℕ
  pub slept : ℕ

pub data Spawned : Type 0 where
  spawned : ℕ → Spawned
  no_loader : Spawned
  gave_up : Started → Spawned

-- VICE is spawned when the port is bound and the start succeeds.
abbrev pub spawns : Course → Bool
spawns c = c.binds && not c.start_fails

abbrev pub count : Bool → ℕ
count true = 1
count false = 0

unfoldable pub start_vice : Course → Host → Host
start_vice c h = record h { vices = h.vices + count (spawns c) }

-- The dump, and `stopVICE`, which does nothing without a process.
unfoldable pub after_failure : Course → Host → Host
after_failure c h = record h { vices = h.vices - count (spawns c); dumps = h.dumps + 1 }

abbrev pub clean_up : Host → Host
clean_up h = record h { cleanups = h.cleanups + 1 }

-- Behind an attempt that failed, with its number and the attempts that are left.
unfoldable pub retry : ℕ → ℕ → Started → Host → (Host → Spawned × Host) → Spawned × Host
retry attempt zero e h next = (gave_up e, clean_up h)
retry attempt (suc left) e h next = next (record h { slept = h.slept + attempt * 1000 })

unfoldable pub after_attempt :
    ℕ → ℕ → Course → Started → Host → (Host → Spawned × Host) → Spawned × Host
after_attempt attempt left c (link i) h next = (spawned i, h)
after_attempt attempt left c e h next = retry attempt left e (after_failure c h) next

-- The loop, from an attempt on, with those that are left behind it.
unfoldable pub attempt_loop : (ℕ → Course) → ℕ → ℕ → Host → Spawned × Host
attempt_loop course attempt zero h =
    let c = course attempt in
    after_attempt attempt zero c (listen_and_start_until_timeout handshake_timeout c)
      (start_vice c h) (λ h'. (gave_up accept_error, clean_up h'))
attempt_loop course attempt (suc left) h =
    let c = course attempt in
    after_attempt attempt (suc left) c (listen_and_start_until_timeout handshake_timeout c)
      (start_vice c h) (λ h'. attempt_loop course (attempt + 1) left h')

unfoldable pub start_spawned_serial_link : Bool → (ℕ → Course) → Spawned × Host
start_spawned_serial_link has_loader course =
    let fresh : Host = record { vices = 0; cleanups = 0; dumps = 0; slept = 0 } in
    if has_loader then attempt_loop course 1 (attempts - 1) fresh else (no_loader, fresh)

-- What is left behind: with a link, its VICE alone, not stopped, and the loader file; else nothing.
abbrev pub IsTidy : Spawned × Host → Type 0
IsTidy (spawned i, h) = (h.vices ≡ 1) × (h.cleanups ≡ 0)
IsTidy (no_loader, h) = (h.vices ≡ 0) × (h.cleanups ≡ 0)
IsTidy (gave_up e, h) = (h.vices ≡ 0) × (h.cleanups ≡ 1)

module _ (attempt left : ℕ) (c : Course) (h : Host) (next : Host → Spawned × Host)
    (clean : h.vices ≡ 0) (kept : h.cleanups ≡ 0)
    (tidy : (h' : Host) → h'.vices ≡ 0 → h'.cleanups ≡ 0 → IsTidy (next h')) where
  retry-IsTidy :
      (n : ℕ) (e : Started) → IsTidy (retry attempt n e (after_failure c (start_vice c h)) next)
  unfolding retry after_failure start_vice
  retry-IsTidy zero e = (omega arith, omega arith)
  retry-IsTidy (suc n) e = tidy _ (omega arith) kept

  after_attempt-IsTidy :
      (r : Started)
      → Explains handshake_timeout c r
      → IsTidy (after_attempt attempt left c r (start_vice c h) next)
  unfolding after_attempt
  after_attempt-IsTidy (link i) e = unfold start_vice in (simp (e.0, e.1) (omega arith), kept)
  after_attempt-IsTidy listen_error e = retry-IsTidy left listen_error
  after_attempt-IsTidy start_error e = retry-IsTidy left start_error
  after_attempt-IsTidy handshake_timed_out e = retry-IsTidy left handshake_timed_out
  after_attempt-IsTidy accept_error e = retry-IsTidy left accept_error
  after_attempt-IsTidy (process_exited x) e = retry-IsTidy left (process_exited x)

attempt_loop-IsTidy :
    (course : ℕ → Course) (left attempt : ℕ) (h : Host)
    → h.vices ≡ 0
    → h.cleanups ≡ 0
    → IsTidy (attempt_loop course attempt left h)
unfolding attempt_loop
attempt_loop-IsTidy course zero attempt h v k =
    let c = course attempt in
    after_attempt-IsTidy attempt zero c h _ v k (λ h' v' k'. (v', omega arith)) _
      (listen_and_start_until_timeout-Explains handshake_timeout c)
attempt_loop-IsTidy course (suc left) attempt h v k =
    let c = course attempt in
    after_attempt-IsTidy attempt (suc left) c h (λ h'. attempt_loop course (attempt + 1) left h') v
      k (λ h'. attempt_loop-IsTidy course left (attempt + 1) h') _
      (listen_and_start_until_timeout-Explains handshake_timeout c)

-- Whatever happens in the eight attempts to start VICE: with a link, one VICE has been spawned and
-- not been stopped, and the loader file is there; without one, every VICE that was spawned has been
-- stopped, and the loader file is removed once, where there was one.
pub start_spawned_serial_link-IsTidy :
    (has_loader : Bool) (course : ℕ → Course) → IsTidy (start_spawned_serial_link has_loader course)
unfolding start_spawned_serial_link
start_spawned_serial_link-IsTidy true course =
    attempt_loop-IsTidy course (attempts - 1) 1 _ refl refl
start_spawned_serial_link-IsTidy false course = (refl, refl)
