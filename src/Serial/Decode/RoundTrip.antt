-- ===== src/Serial/Decode/RoundTrip.antt =====
-- `decode` after `encode`, over a line that may set or clear bit 7 of every byte.
use mathlib.Core.List.{map}
use claw.Prelude.{
  ℕ, zero, suc, ◌+◌, ◌≤◌, ◌<◌, true, false, some, [], ◌∷◌, ◌++◌, ◌≡◌, refl, ap, sym, subst, ◌∙◌,
  arith, length, take, All, Bytes, bit_xor, bit_xor-lt, min,
}
use claw.Serial.Frame.{Frame, sync_byte, low7, checksum, is_known_type, encode}
use claw.Serial.Decode.{
  Decoded, frame, hunt, read_type, full, cons_payload, read_payload, check_frame, payload_frame,
  length_frame, read_frame, decode, is_echo, recv_from, recv,
}

-- The bytes of the second list are those of the first, up to bit 7.
abbrev pub Noisy : Bytes → Bytes → Type 0
Noisy [] [] = Unit
Noisy (x ∷ xs) (y ∷ ys) = (low7 x ≡ low7 y) × Noisy xs ys
Noisy _ _ = ⊥

pub Noisy-refl : (xs : Bytes) → Noisy xs xs
Noisy-refl [] = tt
Noisy-refl (x ∷ xs) = (refl, Noisy-refl xs)

-- The frame as the receiver sees it: bit 7 of each payload byte is gone.
abbrev pub masked : Frame → Frame
masked f = record f { payload = map low7 f.payload }

low7-low7 : (b : ℕ) → low7 (low7 b) ≡ low7 b
low7-low7 b = omega arith

checksum-map : (ps : Bytes) (chk : ℕ) → checksum chk (map low7 ps) ≡ checksum chk ps
unfolding checksum
checksum-map [] chk = refl
checksum-map (p ∷ ps) chk =
    ap (λ b. checksum (bit_xor chk b) (map low7 ps)) (low7-low7 p)
    ∙ checksum-map ps (bit_xor chk (low7 p))

pub checksum-lt : (ps : Bytes) (chk : ℕ) → chk < 128 → checksum chk ps < 128
unfolding checksum
checksum-lt [] chk h = h
checksum-lt (p ∷ ps) chk h =
    checksum-lt ps (bit_xor chk (low7 p)) (bit_xor-lt chk (low7 p) h (omega arith))

pub known-lt : (t : ℕ) → is_known_type t ≡ true → t < 0x7C
unfolding is_known_type
known-lt t h = ground arith

take_self : (n : ℕ) (xs : Bytes) → length xs ≤ n → take n xs ≡ xs
take_self zero [] h = refl
take_self zero (x ∷ xs) h = elim h [ ]
take_self (suc n) [] h = refl
take_self (suc n) (x ∷ xs) h = ap (◌∷◌ x) (take_self n xs (omega arith))

-- What `encode` writes for a payload that fits.
pub encode_lem :
    (f : Frame)
    → length f.payload ≤ 127
    → encode f
      ≡ sync_byte
        ∷ f.kind
        ∷ length f.payload
        ∷ (f.payload ++ (checksum (bit_xor (low7 f.kind) (low7 (length f.payload))) f.payload ∷ []))
unfolding encode
encode_lem f h = rw (fits, take_self (length f.payload) f.payload (omega arith))
  where
    fits : min 255 (length f.payload) ≡ length f.payload
    fits = omega arith

read_payload-Noisy :
    (ps ws : Bytes) (i : ℕ) (chk : ℕ) (rest : Bytes)
    → Noisy (ps ++ (chk ∷ [])) ws
    → (raw : ℕ) × (low7 chk ≡ low7 raw)
      × (read_payload (length ps) i (ws ++ rest) ≡ full (map low7 ps) (raw ∷ rest))
unfolding read_payload
read_payload-Noisy [] [] i chk rest h = elim h [ ]
read_payload-Noisy [] (w ∷ []) i chk rest h = (w, h.0, refl)
read_payload-Noisy [] (w ∷ v ∷ ws) i chk rest h = elim h.1 [ ]
read_payload-Noisy (p ∷ ps) [] i chk rest h = elim h [ ]
read_payload-Noisy (p ∷ ps) (w ∷ ws) i chk rest h =
    let (raw, same, reads) = read_payload-Noisy ps ws (i + 1) chk rest h.1 in
    (
      raw,
      same,
      ap (cons_payload (low7 w)) reads ∙ ap (λ b. full (b ∷ map low7 ps) (raw ∷ rest)) (sym h.0),
    )

-- The frame that is to come: its bytes behind the type and length bytes.
abbrev pub behind_length : Frame → Bytes
behind_length f =
    f.payload ++ (checksum (bit_xor (low7 f.kind) (low7 (length f.payload))) f.payload ∷ [])

module _ (next again : Bytes → Decoded) where
  check_frame_good :
      (typ : ℕ) (payload : Bytes) (chk raw : ℕ) (rest : Bytes)
      → low7 raw ≡ chk
      → check_frame typ payload chk (raw ∷ rest) next again
        ≡ frame (record { kind = typ; payload = payload }) rest
  unfolding check_frame
  check_frame_good typ payload chk raw rest h = ground arith

  payload_frame-Noisy :
      (f : Frame) (ws rest : Bytes)
      → f.kind < 128
      → length f.payload ≤ 127
      → Noisy (behind_length f) ws
      → payload_frame f.kind (length f.payload) (ws ++ rest) next again ≡ frame (masked f) rest
  unfolding payload_frame
  payload_frame-Noisy f ws rest k short h =
      let chk = checksum (bit_xor (low7 f.kind) (low7 (length f.payload))) f.payload in
      let (raw, same, reads) = read_payload-Noisy f.payload ws 0 chk rest h in
      let small =
        checksum-lt f.payload (bit_xor (low7 f.kind) (low7 (length f.payload)))
          (bit_xor-lt _ _ (omega arith) (omega arith)) in
      let type_low : low7 f.kind ≡ f.kind = omega arith in
      let length_low : low7 (length f.payload) ≡ length f.payload = omega arith in
      let agree : checksum (bit_xor f.kind (length f.payload)) (map low7 f.payload) ≡ chk =
        checksum-map f.payload _
        ∙ ap (λ a. checksum (bit_xor a (length f.payload)) f.payload) (sym type_low)
        ∙ ap (λ b. checksum (bit_xor (low7 f.kind) b) f.payload) (sym length_low) in
      rw (reads, payload_frame) (check_frame_good f.kind _ _ raw rest (omega arith))

  length_frame-Noisy :
      (f : Frame) (n : ℕ) (ws rest : Bytes)
      → is_known_type f.kind ≡ true
      → length f.payload ≤ 127
      → low7 n ≡ length f.payload
      → Noisy (behind_length f) ws
      → length_frame f.kind (n ∷ (ws ++ rest)) next again ≡ frame (masked f) rest
  unfolding length_frame
  length_frame-Noisy f n ws rest known short hn hw =
      rw known
        (rw hn (payload_frame-Noisy f ws rest (omega (arith, known-lt f.kind known)) short hw))

pub read_type_other : (t : ℕ) (bs : Bytes) → low7 t < 0x7C → read_type (t ∷ bs) ≡ some (t, bs)
unfolding read_type
read_type_other t bs h = ground arith

-- From the type byte on, whatever the fuel.
pub read_frame-Noisy :
    (fuel : ℕ) (f : Frame) (t n : ℕ) (ws rest : Bytes)
    → is_known_type f.kind ≡ true
    → length f.payload ≤ 127
    → low7 t ≡ low7 f.kind
    → low7 n ≡ low7 (length f.payload)
    → Noisy (behind_length f) ws
    → read_frame (suc fuel) (t ∷ n ∷ (ws ++ rest)) ≡ frame (masked f) rest
unfolding read_frame
read_frame-Noisy fuel f t n ws rest known short ht hn hw =
    let low = known-lt f.kind known in
    let kind : low7 t ≡ f.kind = omega arith in
    rw (read_type_other t (n ∷ (ws ++ rest)) (omega arith), read_frame)
      (rw kind (length_frame-Noisy _ _ f n ws rest known short (omega arith) hw))

hunt_noise : (noise bs : Bytes) → All (λ b. low7 b < 0x7C) noise → hunt (noise ++ bs) ≡ hunt bs
unfolding hunt
hunt_noise [] bs h = refl
hunt_noise (b ∷ noise) bs h = ground (arith, hunt_noise noise bs)

pub hunt_sync : (s : ℕ) (bs : Bytes) → low7 s ≡ low7 sync_byte → hunt (s ∷ bs) ≡ some bs
unfolding hunt
hunt_sync s bs h = ground arith

-- Behind line noise that holds no SYNC, `decode` reads any frame of a known type and at most 127
-- payload bytes from the bytes that `encode` wrote for it, even if the line has set or cleared
-- bit 7 of any of them. The frame comes back with bit 7 of its payload cleared, and nothing of
-- what follows is read.
pub decode-encode :
    (f : Frame) (noise wire rest : Bytes)
    → is_known_type f.kind ≡ true
    → length f.payload ≤ 127
    → All (λ b. low7 b < 0x7C) noise
    → Noisy (encode f) wire
    → decode (noise ++ (wire ++ rest)) ≡ frame (masked f) rest
unfolding decode
decode-encode f noise wire rest known short quiet noisy =
    go wire (subst (λ e. Noisy e wire) (encode_lem f short) noisy)
  where
    go :
        (w : Bytes)
        → Noisy (sync_byte ∷ f.kind ∷ length f.payload ∷ behind_length f) w
        → decode (noise ++ (w ++ rest)) ≡ frame (masked f) rest
    go [] h = elim h [ ]
    go (s ∷ []) h = elim h.1 [ ]
    go (s ∷ t ∷ []) h = elim h.1.1 [ ]
    go (s ∷ t ∷ n ∷ ws) h =
        rw (hunt_noise noise ((s ∷ t ∷ n ∷ ws) ++ rest) quiet, decode)
          (rw (hunt_sync s (t ∷ n ∷ (ws ++ rest)) (sym h.0), decode)
            (read_frame-Noisy _ f t n ws rest known short (sym h.1.0) (sym h.1.1.0) h.1.1.1))

-- `Recv` hands over a frame that `decode` reads, unless it is an echo.
pub recv-decode :
    (bs : Bytes) (f : Frame) (rest : Bytes)
    → decode bs ≡ frame f rest
    → is_echo f.kind ≡ false
    → recv bs ≡ frame f rest
unfolding recv recv_from
recv-decode bs f rest e other = rw (e, recv_from) (rw (other, recv_from) refl)
