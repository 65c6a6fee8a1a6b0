-- ===== src/Serial/Device/Noise.antt =====
-- `OpenDeviceContext` of bridge/serial/serial.go on devices that fail and on one that does not.
use claw.Prelude.{
  ℕ, ◌≤◌, ◌<◌, Bool, true, false, Option, none, some, List, [], ◌∷◌, ◌++◌, ◌≡◌, ◌≢◌, refl, arith,
  All, Bytes, ◌==◌, ==_iff, ap, ◌∙◌, length, if◌then◌else◌,
}
use claw.Serial.Frame.{Frame, low7, is_known_type, encode}
use claw.Serial.Decode.{frame, is_echo, recv}
use claw.Serial.Decode.RoundTrip.{Noisy, masked, decode-encode, recv-decode}
use claw.Serial.Device.{
  handshake_byte, ReadError, again, other, Round, Conn, file, stream, Handshake, ready, failed,
  brought, read_of, wait_for_handshake_file, wait_for_handshake_stream, is_handshake, go_on,
  wait_for_handshake_byte, Attempt, Opened, link, after_handshake, after_open, open_loop,
  open_device_context,
}

-- The context does not end, and reading fails with `EAGAIN` only.
abbrev pub IsHealthyRound : Round → Type 0
IsHealthyRound r = (r.cancelled ≡ false) × (r.error ≢ some other) × (r.cancelled_in_wait ≡ false)

abbrev pub IsHealthy : Conn → Type 0
IsHealthy (file set cleared rounds) = (set ≡ true) × (cleared ≡ true) × All IsHealthyRound rounds
IsHealthy (stream bs) = Unit

-- The bytes that come from a device.
abbrev pub incoming : Conn → Bytes
incoming (file set cleared rounds) = brought rounds
incoming (stream bs) = bs

go_on_healthy :
    (e : Option ReadError) (next : Handshake) → e ≢ some other → go_on e false next ≡ next
unfolding go_on
go_on_healthy none next h = refl
go_on_healthy (some again) next h = refl
go_on_healthy (some other) next h = absurd (h refl)

not_mark : (b : ℕ) → b ≢ handshake_byte → (b == handshake_byte) ≡ false
not_mark b h = ground (arith, ==_iff b handshake_byte)

tail_of : Bytes → Bytes
tail_of [] = []
tail_of (b ∷ bs) = bs

head_of : Bytes → ℕ
head_of [] = 0
head_of (b ∷ bs) = b

wait_for_handshake_stream-ready :
    (noise rest : Bytes)
    → All (λ b. b ≢ handshake_byte) noise
    → wait_for_handshake_stream (noise ++ (handshake_byte ∷ rest)) ≡ ready rest
unfolding wait_for_handshake_stream
wait_for_handshake_stream-ready [] rest h = refl
wait_for_handshake_stream-ready (b ∷ noise) rest h =
    rw (not_mark b h.0) (wait_for_handshake_stream-ready noise rest h.1)

module _ (rest : Bytes) where
  -- One round, when what the rounds behind it bring is read as it should be.
  round-ready :
      (o : Option ℕ) (err : Option ReadError) (bs noise : Bytes) (next : Handshake)
      → ((left : Bytes)
          → bs ≡ left ++ (handshake_byte ∷ rest)
          → All (λ b. b ≢ handshake_byte) left
          → next ≡ ready rest)
      → err ≢ some other
      → read_of o bs ≡ noise ++ (handshake_byte ∷ rest)
      → All (λ b. b ≢ handshake_byte) noise
      → (if is_handshake o then ready bs else go_on err false next) ≡ ready rest
  unfolding head_of tail_of
  round-ready none err bs noise next ih good e q = go_on_healthy err next good ∙ ih noise e q
  round-ready (some b) err bs [] next ih good e q = rw (ap head_of e) (ap ready (ap tail_of e))
  round-ready (some b) err bs (n ∷ noise) next ih good e q =
      rw (ap head_of e)
        (rw (not_mark n q.0) (go_on_healthy err next good ∙ ih noise (ap tail_of e) q.1))

  wait_for_handshake_file-ready :
      (rounds : List Round) (noise : Bytes)
      → All IsHealthyRound rounds
      → brought rounds ≡ noise ++ (handshake_byte ∷ rest)
      → All (λ b. b ≢ handshake_byte) noise
      → wait_for_handshake_file true rounds ≡ ready rest
  unfolding wait_for_handshake_file
  wait_for_handshake_file-ready [] [] h e q = cc
  wait_for_handshake_file-ready [] (n ∷ noise) h e q = cc
  wait_for_handshake_file-ready (r ∷ rounds) noise h e q =
      rw (h.0.0, h.0.2)
        (round-ready r.got r.error (brought rounds) noise _
          (λ left. wait_for_handshake_file-ready rounds left h.1) h.0.1 e q)

  wait_for_handshake_byte-ready :
      (conn : Conn) (noise : Bytes)
      → IsHealthy conn
      → incoming conn ≡ noise ++ (handshake_byte ∷ rest)
      → All (λ b. b ≢ handshake_byte) noise
      → wait_for_handshake_byte conn ≡ ready rest
  unfolding wait_for_handshake_byte
  wait_for_handshake_byte-ready (file set cleared rounds) noise h e q =
      rw (h.0, h.1) (wait_for_handshake_file-ready rounds noise h.2 e q)
  wait_for_handshake_byte-ready (stream bs) noise h e q =
      rw e (wait_for_handshake_stream-ready noise rest q)

-- The device opens and its handshake fails, or it does not open and an earlier one did.
abbrev pub Fails : Bool → Option Conn → Type 0
Fails once none = once ≡ true
Fails once (some c) = wait_for_handshake_byte c ≡ failed

-- An attempt after which the loop goes on.
abbrev pub RetriesOnce : Bool → Attempt → Type 0
RetriesOnce once a =
    (a.cancelled ≡ false)
    × (a.cancelled_after ≡ false)
    × (a.cancelled_in_wait ≡ false)
    × Fails once a.conn

-- The first attempt opens the device; no attempt gets through the handshake.
abbrev pub Retries : Bool → List Attempt → Type 0
Retries once [] = Unit
Retries once (a ∷ rest) = RetriesOnce once a × Retries true rest

after_open-Fails :
    (o : Option Conn) (once : Bool) (a : Attempt) (next : Bool → ℕ → Opened × ℕ)
    → a.conn ≡ o
    → Fails once o
    → a.cancelled_after ≡ false
    → a.cancelled_in_wait ≡ false
    → after_open 0 once a next ≡ next true 0
unfolding after_open after_handshake
after_open-Fails none once a next e h after in_wait = rw (e, h) refl
after_open-Fails (some c) once a next e h after in_wait = rw (e, h, after, in_wait) refl

open_loop-Retries :
    (attempts : List Attempt) (last : List Attempt) (once : Bool) (r : Opened × ℕ)
    → Retries once attempts
    → ((o : Bool) → open_loop 0 o last ≡ r)
    → open_loop 0 once (attempts ++ last) ≡ r
unfolding open_loop
open_loop-Retries [] last once r h e = e once
open_loop-Retries (a ∷ rest) last once r h e = rw h.0.0 (
    after_open-Fails a.conn once (record a { cancelled = false }) _ refl h.0.3 h.0.1 h.0.2
    ∙ open_loop-Retries rest last true r h.1 e)

-- A good device after attempts that failed.
open_device_context-link :
    (attempts later : List Attempt) (a : Attempt) (conn : Conn) (noise rest : Bytes)
    → Retries false attempts
    → a.cancelled ≡ false
    → a.conn ≡ some conn
    → IsHealthy conn
    → incoming conn ≡ noise ++ (handshake_byte ∷ rest)
    → All (λ b. b ≢ handshake_byte) noise
    → open_device_context (attempts ++ (a ∷ later)) ≡ (link rest, 1)
unfolding open_device_context open_loop after_open after_handshake
open_device_context-link attempts later a conn noise rest h c d good e q =
    open_loop-Retries attempts (a ∷ later) false _ h
      (λ o. rw (c, d, wait_for_handshake_byte-ready rest conn noise good e q) refl)

-- After attempts of which the first opens the device and none gets through the handshake, the
-- device is opened once more, no context ends and no read fails but with `EAGAIN`: whatever comes
-- before the first `'!'` is skipped, `OpenDeviceContext` returns a link, and the first `Recv` on
-- it gives the frame that was encoded behind the `'!'`, when that frame is of a known type, is no
-- echo and has at most 127 payload bytes, behind noise without a SYNC and with any change to bit 7
-- of its bytes. Nothing behind that frame is read.
pub open_device_context-recv :
    (attempts later : List Attempt) (a : Attempt) (conn : Conn) (noise quiet wire more : Bytes)
    (f : Frame)
    → Retries false attempts
    → a.cancelled ≡ false
    → a.conn ≡ some conn
    → IsHealthy conn
    → incoming conn ≡ noise ++ (handshake_byte ∷ (quiet ++ (wire ++ more)))
    → All (λ b. b ≢ handshake_byte) noise
    → is_known_type f.kind ≡ true
    → is_echo f.kind ≡ false
    → length f.payload ≤ 127
    → All (λ b. low7 b < 0x7C) quiet
    → Noisy (encode f) wire
    → (bs : Bytes) × (open_device_context (attempts ++ (a ∷ later)) ≡ (link bs, 1))
      × (recv bs ≡ frame (masked f) more)
open_device_context-recv attempts later a conn noise quiet wire more f h c d good e q known own
      short silent noisy =
    (
      quiet ++ (wire ++ more),
      open_device_context-link attempts later a conn noise _ h c d good e q,
      recv-decode _ (masked f) more (decode-encode f quiet wire more known short silent noisy) own,
    )
