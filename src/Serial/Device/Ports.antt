-- ===== src/Serial/Device/Ports.antt =====
-- What `OpenDeviceContext` of bridge/serial/serial.go makes of its attempts.
use claw.Prelude.{
  ℕ, Bool, true, false, List, [], ◌∷◌, ◌≡◌, refl, arith, Bool-cases, Option-cases, inl, inr,
}
use claw.Serial.Device.{
  Handshake, ready, failed, ended, waiting, wait_for_handshake_byte, Attempt, Opened, link,
  open_failed, ctx_error, at_handshake, retrying, after_handshake, after_open, open_loop,
  open_device_context,
}

-- How many devices are open when `OpenDeviceContext` stands where it does.
abbrev pub holds : Opened → ℕ
holds (link bs) = 1
holds at_handshake = 1
holds open_failed = 0
holds ctx_error = 0
holds retrying = 0

after_handshake-holds :
    (a : Attempt) (next : ℕ → Opened × ℕ) (h : Handshake)
    → (next 0).1 ≡ holds (next 0).0
    → (after_handshake 1 a next h).1 ≡ holds (after_handshake 1 a next h).0
unfolding after_handshake
after_handshake-holds a next (ready bs) e = refl
after_handshake-holds a next waiting e = refl
after_handshake-holds a next failed e = ground arith
after_handshake-holds a next ended e = ground arith

open_loop-holds :
    (attempts : List Attempt) (once : Bool)
    → (open_loop 0 once attempts).1 ≡ holds (open_loop 0 once attempts).0
unfolding open_loop after_open after_handshake
open_loop-holds [] once = refl
open_loop-holds (a ∷ rest) once = elim (Bool-cases a.cancelled) [
  | inl c ↦ rw c refl
  | inr c ↦ rw c (elim (Option-cases a.conn) [
    | inl e ↦ elim (Bool-cases once) [
      | inl o ↦ rw (e, o) (open_loop-holds rest true)
      | inr o ↦ rw (e, o) refl
    ]
    | inr (conn, e) ↦ rw e (
        after_handshake-holds a (λ n. open_loop n true rest) (wait_for_handshake_byte conn)
          (open_loop-holds rest true))
  ])
]

-- Whatever the attempts do, `OpenDeviceContext` leaves no device open but the link's: one when it
-- has returned a link or still waits for the handshake, none when it has returned an error or is
-- between two attempts.
pub open_device_context-holds :
    (attempts : List Attempt)
    → (open_device_context attempts).1 ≡ holds (open_device_context attempts).0
unfolding open_device_context
open_device_context-holds attempts = open_loop-holds attempts false
