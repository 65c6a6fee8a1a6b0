-- ===== src/Serial/Device.antt =====
-- bridge/serial/serial.go: `OpenDeviceContext` and the wait for the handshake byte on a device.
-- What the system does in each round is a list, whose end is a wait that goes on.
pub mod Ports
pub mod Noise
use claw.Prelude.{
  ℕ, ◌+◌, ◌-◌, Bool, true, false, Option, none, some, List, [], ◌∷◌, ◌==◌, if◌then◌else◌, Bytes,
}

-- `'!'`, which the agent sends when it is ready.
abbrev pub handshake_byte : ℕ
handshake_byte = 0x21

-- `EAGAIN`, or another error.
pub data ReadError : Type 0 where
  again other : ReadError

-- A round of `waitForHandshakeFile`: the test of the context, the byte and the error that
-- `file.Read` returns, and whether the context ends in the 50 ms that follow.
pub record Round : Type 0 where
  pub cancelled : Bool
  pub got : Option ℕ
  pub error : Option ReadError
  pub cancelled_in_wait : Bool

-- An open device: a file in nonblocking mode, with whether the two calls of `SetNonblock` succeed,
-- or another connection, by the bytes that come until reading fails.
pub data Conn : Type 0 where
  file : Bool → Bool → List Round → Conn
  stream : Bytes → Conn

-- A link with the bytes that are still to be read from it, an error, the context's error, or a
-- wait that goes on.
pub data Handshake : Type 0 where
  ready : Bytes → Handshake
  failed : Handshake
  ended : Handshake
  waiting : Handshake

abbrev pub read_of : Option ℕ → Bytes → Bytes
read_of none bs = bs
read_of (some b) bs = b ∷ bs

-- The bytes that the rounds bring.
abbrev pub brought : List Round → Bytes
brought [] = []
brought (r ∷ rs) = read_of r.got (brought rs)

abbrev pub is_handshake : Option ℕ → Bool
is_handshake none = false
is_handshake (some b) = b == handshake_byte

-- From the test of the read's error to the end of the round.
unfoldable pub go_on : Option ReadError → Bool → Handshake → Handshake
go_on (some other) cancelled_in_wait next = failed
go_on (some again) cancelled_in_wait next = if cancelled_in_wait then ended else next
go_on none cancelled_in_wait next = if cancelled_in_wait then ended else next

-- The loop of `waitForHandshakeFile`, with whether the mode can be cleared.
unfoldable pub wait_for_handshake_file : Bool → List Round → Handshake
wait_for_handshake_file cleared [] = waiting
wait_for_handshake_file cleared (r ∷ rs) =
    let next = wait_for_handshake_file cleared rs in
    if r.cancelled
    then ended
    else if is_handshake r.got
    then (if cleared then ready (brought rs) else failed)
    else go_on r.error r.cancelled_in_wait next

-- The loop of `waitForHandshakeByte`. A context that ends closes the connection, so that reading
-- fails.
unfoldable pub wait_for_handshake_stream : Bytes → Handshake
wait_for_handshake_stream [] = failed
wait_for_handshake_stream (b ∷ bs) =
    let next = wait_for_handshake_stream bs in if b == handshake_byte then ready bs else next

unfoldable pub wait_for_handshake_byte : Conn → Handshake
wait_for_handshake_byte (file set cleared rounds) =
    if set then wait_for_handshake_file cleared rounds else failed
wait_for_handshake_byte (stream bs) = wait_for_handshake_stream bs

-- A round of `OpenDeviceContext`: the test of the context, what `openDevice` gives, the context
-- after a failed handshake, and in the second that follows.
pub record Attempt : Type 0 where
  pub cancelled : Bool
  pub conn : Option Conn
  pub cancelled_after : Bool
  pub cancelled_in_wait : Bool

-- What `OpenDeviceContext` returns, or where it still is: at a handshake or between attempts.
pub data Opened : Type 0 where
  link : Bytes → Opened
  open_failed : Opened
  ctx_error : Opened
  at_handshake : Opened
  retrying : Opened

-- After the handshake: `devices` counts the open ones, and `conn.Close()` takes one away.
unfoldable pub after_handshake : ℕ → Attempt → (ℕ → Opened × ℕ) → Handshake → Opened × ℕ
after_handshake devices a next (ready bs) = (link bs, devices)
after_handshake devices a next waiting = (at_handshake, devices)
after_handshake devices a next failed =
    if a.cancelled_after
    then (ctx_error, devices - 1)
    else if a.cancelled_in_wait
    then (ctx_error, devices - 1)
    else next (devices - 1)
after_handshake devices a next ended =
    if a.cancelled_after
    then (ctx_error, devices - 1)
    else if a.cancelled_in_wait
    then (ctx_error, devices - 1)
    else next (devices - 1)

unfoldable pub after_open : ℕ → Bool → Attempt → (Bool → ℕ → Opened × ℕ) → Opened × ℕ
after_open devices once a next = elim a.conn [
  | none ↦ if once then next once devices else (open_failed, devices)
  | some c ↦ after_handshake (devices + 1) a (next true) (wait_for_handshake_byte c)
]

-- The loop, with the number of open devices and `openedOnce`.
unfoldable pub open_loop : ℕ → Bool → List Attempt → Opened × ℕ
open_loop devices once [] = (retrying, devices)
open_loop devices once (a ∷ rest) =
    if a.cancelled
    then (ctx_error, devices)
    else after_open devices once a (λ o n. open_loop n o rest)

unfoldable pub open_device_context : List Attempt → Opened × ℕ
open_device_context attempts = open_loop 0 false attempts
