-- ===== src/Serial/Decode/Resync.antt =====
-- How `decode` goes on after a frame whose checksum does not hold.
use mathlib.Core.List.{map}
use claw.Prelude.{
  ℕ, zero, suc, ◌+◌, ◌≤◌, ◌<◌, true, none, some, [], ◌∷◌, ◌++◌, ◌≡◌, ◌≢◌, refl, ap, ◌∙◌, arith,
  length, Bytes, bit_xor, inl, inr, Bool-cases, Option-cases, ◌==◌, ==_iff, if◌then◌else◌,
  length-append,
}
use claw.Serial.Frame.{sync_byte, low7, checksum, is_known_type}
use claw.Serial.Decode.Bounds.{Reads, read_payload-Reads, hunt-lt, read_type-lt}
use claw.Serial.Decode.RoundTrip.{hunt_sync, known-lt, read_type_other}
use claw.Serial.Decode.{
  Decoded, broken, sync, payload_byte, hunt, read_type, ReadPayload, short, full, cons_payload,
  read_payload, check_frame, payload_frame, length_frame, read_frame, decode,
}

module _ (m : ℕ) (next next' again again' : Bytes → Decoded)
    (next_same : (r : Bytes) → length r < m → next r ≡ next' r)
    (again_same : (r : Bytes) → length r < m → again r ≡ again' r) where
  check_frame_same :
      (typ : ℕ) (payload : Bytes) (chk : ℕ) (bs : Bytes)
      → length bs ≤ m
      → check_frame typ payload chk bs next again ≡ check_frame typ payload chk bs next' again'
  unfolding check_frame
  check_frame_same typ payload chk [] h = refl
  check_frame_same typ payload chk (b ∷ rest) h =
      rw (next_same rest (omega arith), again_same rest (omega arith))

  payload_frame_same :
      (typ len : ℕ) (bs : Bytes)
      → length bs ≤ m
      → payload_frame typ len bs next again ≡ payload_frame typ len bs next' again'
  unfolding payload_frame
  payload_frame_same typ len bs h = go (read_payload len 0 bs) (read_payload-Reads len 0 bs)
    where
      rest_of : (Bytes → Decoded) → (Bytes → Decoded) → ReadPayload → Decoded
      rest_of f g r = elim r [
        | short i ↦ broken (payload_byte i)
        | full payload rest ↦ check_frame typ payload (checksum (bit_xor typ len) payload) rest f g
      ]

      go : (r : ReadPayload) → Reads len bs r → rest_of next again r ≡ rest_of next' again' r
      go (short i) e = refl
      go (full p rest) e = check_frame_same typ p _ rest (omega arith)

  length_frame_same :
      (typ : ℕ) (bs : Bytes)
      → length bs ≤ m
      → length_frame typ bs next again ≡ length_frame typ bs next' again'
  unfolding length_frame
  length_frame_same typ [] h = refl
  length_frame_same typ (b ∷ bs) h =
      rw (again_same bs (omega arith), payload_frame_same typ (low7 b) bs (omega arith))

hunt_frame_same :
    (f g : Bytes → Decoded) (bs : Bytes)
    → ((r : Bytes) → length r < length bs → f r ≡ g r)
    → (elim (hunt bs) [ none ↦ broken sync | some r ↦ f r ])
      ≡ (elim (hunt bs) [ none ↦ broken sync | some r ↦ g r ])
hunt_frame_same f g bs h = elim (Option-cases (hunt bs)) [
  | inl e ↦ rw e
  | inr (r, e) ↦ rw e (h r (hunt-lt bs r e))
]

-- Any fuel above the number of bytes gives the same result.
read_frame-fuel :
    (f g : ℕ) (bs : Bytes) → length bs < f → length bs < g → read_frame f bs ≡ read_frame g bs
unfolding read_frame
read_frame-fuel zero g bs hf hg = elim hf [ ]
read_frame-fuel (suc f) zero bs hf hg = elim hg [ ]
read_frame-fuel (suc f) (suc g) bs hf hg = elim (Option-cases (read_type bs)) [
  | inl e ↦ rw (e, read_frame)
  | inr ((t, rest), e) ↦
      let shorter = read_type-lt bs t rest e in
      let same = λ (r : Bytes) (l : length r < length rest).
        read_frame-fuel f g r (omega arith) (omega arith) in
      rw (e, read_frame)
        (length_frame_same (length rest) _ _ _ _ same
          (λ r l. hunt_frame_same (read_frame f) (read_frame g) r (λ q lq. same q (omega arith)))
          (low7 t) rest (omega arith))
]

-- With fuel to spare, the `again` of `read_frame` is `decode`.
hunt_frame-decode :
    (fuel : ℕ) (bs : Bytes)
    → length bs ≤ fuel
    → (elim (hunt bs) [ none ↦ broken sync | some r ↦ read_frame fuel r ]) ≡ decode bs
unfolding decode
hunt_frame-decode fuel bs h =
    hunt_frame_same (read_frame fuel) (read_frame (suc (length bs))) bs
      (λ r l. read_frame-fuel fuel (suc (length bs)) r (omega arith) (omega arith))

read_payload_raw :
    (ws : Bytes) (i : ℕ) (rest : Bytes)
    → read_payload (length ws) i (ws ++ rest) ≡ full (map low7 ws) rest
unfolding read_payload
read_payload_raw [] i rest = refl
read_payload_raw (w ∷ ws) i rest = ap (cons_payload (low7 w)) (read_payload_raw ws (i + 1) rest)

check_frame_bad :
    (typ : ℕ) (p : Bytes) (chk raw : ℕ) (rest : Bytes) (next again : Bytes → Decoded)
    → low7 raw ≢ chk
    → check_frame typ p chk (raw ∷ rest) next again
      ≡ (if raw == sync_byte then next rest else again rest)
unfolding check_frame
check_frame_bad typ p chk raw rest next again bad = ground arith

length_frame_bad :
    (typ n : ℕ) (ws : Bytes) (raw : ℕ) (rest : Bytes) (next again : Bytes → Decoded)
    → is_known_type typ ≡ true
    → low7 n ≡ length ws
    → low7 raw ≢ checksum (bit_xor typ (length ws)) (map low7 ws)
    → length_frame typ (n ∷ (ws ++ (raw ∷ rest))) next again
      ≡ (if raw == sync_byte then next rest else again rest)
unfolding length_frame payload_frame
length_frame_bad typ n ws raw rest next again known size bad =
    rw (known, length_frame)
      (rw size (
        rw (read_payload_raw ws 0 (raw ∷ rest), payload_frame)
          (check_frame_bad typ _ _ raw rest next again bad)))

bad_goes_on :
    (fuel raw : ℕ) (rest : Bytes)
    → length rest < fuel
    → (if raw == sync_byte
        then read_frame fuel rest
        else elim (hunt rest) [ none ↦ broken sync | some r ↦ read_frame fuel r ])
      ≡ (if raw == sync_byte then decode (raw ∷ rest) else decode rest)
unfolding decode
bad_goes_on fuel raw rest h = elim (Bool-cases (raw == sync_byte)) [
  | inl e ↦
      let is_sync : raw ≡ sync_byte = (==_iff raw sync_byte).0 e in
      rw e (
        rw (hunt_sync raw rest (ap low7 is_sync), decode)
          (read_frame-fuel fuel (suc (suc (length rest))) rest h (omega arith)))
  | inr e ↦ rw e (hunt_frame-decode fuel rest (omega arith))
]

-- A frame of a known type whose checksum byte is wrong is dropped whole. If that byte is a SYNC,
-- as it is where the frame has lost a byte and the next one begins, `decode` goes on as if it
-- stood at that SYNC; else, as if it stood behind the frame.
pub decode_bad :
    (t n : ℕ) (ws : Bytes) (raw : ℕ) (rest : Bytes)
    → is_known_type (low7 t) ≡ true
    → low7 n ≡ length ws
    → low7 raw ≢ checksum (bit_xor (low7 t) (length ws)) (map low7 ws)
    → decode (sync_byte ∷ t ∷ n ∷ (ws ++ (raw ∷ rest)))
      ≡ (if raw == sync_byte then decode (raw ∷ rest) else decode rest)
unfolding decode read_frame
decode_bad t n ws raw rest known size bad =
    let low = known-lt (low7 t) known in
    let tail = ws ++ (raw ∷ rest) in
    let fits : length rest + 1 ≤ length tail = omega (arith, length-append ws (raw ∷ rest)) in
    let at_sync = hunt_sync sync_byte (t ∷ n ∷ tail) refl in
    rw (at_sync, decode)
      (rw (read_type_other t (n ∷ tail) low, read_frame)
        (length_frame_bad (low7 t) n ws raw rest _ _ known size bad
          ∙ bad_goes_on (suc (suc (suc (length tail)))) raw rest (omega arith)))
