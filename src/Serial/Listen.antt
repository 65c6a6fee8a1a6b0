-- ===== src/Serial/Listen.antt =====
-- bridge/serial/serial.go: `waitForHandshake` on a TCP listener with one goroutine of
-- `waitForTCPHandshakeByte` for each connection, and `ListenAndStartUntilTimeout` around it.
-- A connection is the number of connections accepted before it. The loop, the goroutines and the
-- network take turns in any order, one event at a time; an event that cannot happen changes nothing.
pub mod Announced
pub mod Owned
pub mod Start
use claw.Prelude.{
  ℕ, ◌+◌, Bool, true, false, ◌&&◌, Option, none, some, List, [], ◌∷◌, ◌==◌, ltb, if◌then◌else◌,
  Bytes,
}
use claw.Serial.Device.{handshake_byte}

-- A connection: whether its goroutine runs, the bytes that it has read, the last one first, and
-- the bytes written to it (an error of the write is ignored).
pub record TcpConn : Type 0 where
  pub reading : Bool
  pub got : Bytes
  pub written : Bytes

-- What `waitForHandshake` returns: a link on a connection, or the error of `Accept`.
pub data Outcome : Type 0 where
  linked : ℕ → Outcome
  accept_failed : Outcome

-- Where the loop stands.
pub data Place : Type 0 where
  at_select at_accept : Place
  returned : Outcome → Place

-- The connections, how many were accepted, the channel `ready`, of capacity one, and whether the
-- listener is open.
pub record Listener : Type 0 where
  pub conns : ℕ → TcpConn
  pub accepted : ℕ
  pub ready : Option ℕ
  pub place : Place
  pub listening : Bool

-- The `select` with its default; `Accept` with a connection, a timeout or another error; and what
-- `Read` gives a goroutine: a byte, a timeout or another error.
pub data Event : Type 0 where
  select accept accept_timeout accept_error : Event
  read : ℕ → ℕ → Event
  read_timeout read_error : ℕ → Event

abbrev pub no_conn : TcpConn
no_conn = record { reading = false; got = []; written = [] }

unfoldable pub start_listening : Listener
start_listening = record {
  conns = λ i. no_conn;
  accepted = 0;
  ready = none;
  place = at_select;
  listening = true;
}

unfoldable pub set_conn : ℕ → TcpConn → (ℕ → TcpConn) → ℕ → TcpConn
set_conn i c conns j = if j == i then c else conns j

unfoldable pub select_ready : Option ℕ → Listener → Listener
select_ready none l = record l { place = at_accept }
select_ready (some i) l = record l { ready = none; place = returned (linked i) }

-- The zero byte that wakes the link is written, and a goroutine is started.
unfoldable pub accept_conn : Listener → Listener
accept_conn l = record l {
  conns = set_conn l.accepted (record { reading = true; got = []; written = 0 ∷ [] }) l.conns;
  accepted = l.accepted + 1;
  place = at_select;
}

-- The `select` that sends on `ready` or, when it is full, does not.
unfoldable pub announce : Option ℕ → ℕ → Option ℕ
announce none i = some i
announce (some j) i = some j

unfoldable pub read_byte : ℕ → ℕ → Listener → Listener
read_byte i b l =
    let c = l.conns i in
    let got = b ∷ c.got in
    if b == handshake_byte
    then record l {
      conns = set_conn i (record c { reading = false; got = got }) l.conns;
      ready = announce l.ready i;
    }
    else record l { conns = set_conn i (record c { got = got }) l.conns }

unfoldable pub stop_reading : ℕ → Listener → Listener
stop_reading i l = record l { conns = set_conn i (record (l.conns i) { reading = false }) l.conns }

unfoldable pub loop_step : Place → Event → Listener → Listener
loop_step at_select select l = select_ready l.ready l
loop_step at_accept accept l = accept_conn l
loop_step at_accept accept_timeout l = record l { place = at_select }
loop_step at_accept accept_error l = record l { place = returned accept_failed; listening = false }
loop_step p e l = l

unfoldable pub listener_step : Event → Listener → Listener
listener_step (read i b) l = if (l.conns i).reading then read_byte i b l else l
listener_step (read_timeout i) l = l
listener_step (read_error i) l = if (l.conns i).reading then stop_reading i l else l
listener_step e l = loop_step l.place e l

unfoldable pub listen : List Event → Listener → Listener
listen [] l = l
listen (e ∷ es) l = listen es (listener_step e l)
