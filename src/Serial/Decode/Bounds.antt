-- ===== src/Serial/Decode/Bounds.antt =====
-- What every call of `decode` and `recv` returns: termination, and the shape of a decoded frame.
use claw.Prelude.{
  ℕ, zero, suc, ◌+◌, ◌≤◌, ◌<◌, true, false, none, some, [], ◌∷◌, ◌≡◌, refl, inl, inr, arith, length,
  All, Bytes, Bool-cases, Option-cases, bit_xor,
}
use claw.Serial.Frame.{Frame, low7, checksum, is_known_type}
use claw.Serial.Decode.{
  sync, payload_byte, Decoded, frame, broken, out_of_fuel, hunt, read_type, ReadPayload, short,
  full, cons_payload, read_payload, check_frame, payload_frame, length_frame, read_frame, decode,
  is_echo, recv_from, recv,
}

-- A frame whose type is known and whose payload is 7-bit clean and at most 127 bytes long.
pub record IsClean (f : Frame) : Type 0 where
  pub known : is_known_type f.kind ≡ true
  pub short_payload : length f.payload ≤ 127
  pub seven_bits : All (λ b. b < 128) f.payload

-- A clean frame and fewer than `n` bytes left, or the reader's error.
abbrev pub Ends : ℕ → Decoded → Type 0
Ends n (frame f rest) = IsClean f × (length rest < n)
Ends n (broken s) = Unit
Ends n out_of_fuel = ⊥

Ends-mono : (m n : ℕ) (d : Decoded) → m ≤ n → Ends m d → Ends n d
Ends-mono m n (frame f rest) h e = (e.0, omega arith)
Ends-mono m n (broken s) h e = tt
Ends-mono m n out_of_fuel h e = elim e [ ]

pub hunt-lt : (bs r : Bytes) → hunt bs ≡ some r → length r < length bs
unfolding hunt
hunt-lt [] r h = cc
hunt-lt (b ∷ bs) r h = ground (arith, hunt-lt bs r)

pub read_type-lt :
    (bs : Bytes) (t : ℕ) (r : Bytes) → read_type bs ≡ some (t, r) → length r < length bs
unfolding read_type
read_type-lt [] t r h = cc
read_type-lt (b ∷ bs) t r h = ground (arith, read_type-lt bs t r)

-- What the payload loop returns in `n` rounds on `bs`.
abbrev pub Reads : ℕ → Bytes → ReadPayload → Type 0
Reads n bs (short i) = Unit
Reads n bs (full p rest) = (length p ≡ n) × All (λ b. b < 128) p × (length rest + n ≡ length bs)

pub read_payload-Reads : (n i : ℕ) (bs : Bytes) → Reads n bs (read_payload n i bs)
unfolding read_payload
read_payload-Reads zero i bs = (refl, tt, omega arith)
read_payload-Reads (suc n) i [] = tt
read_payload-Reads (suc n) i (b ∷ bs) = cons (read_payload n (i + 1) bs) (read_payload-Reads n _ bs)
  where
    cons : (r : ReadPayload) → Reads n bs r → Reads (suc n) (b ∷ bs) (cons_payload (low7 b) r)
    cons (short j) h = tt
    cons (full p rest) h = (omega arith, (omega arith, h.1), omega arith)

module _ (m : ℕ) (next again : Bytes → Decoded)
    (next_ends : (r : Bytes) → length r < m → Ends m (next r))
    (again_ends : (r : Bytes) → length r ≤ m → Ends m (again r)) where
  check_frame-Ends :
      (typ : ℕ) (payload : Bytes) (chk : ℕ) (bs : Bytes)
      → IsClean (record { kind = typ; payload = payload })
      → length bs ≤ m
      → Ends m (check_frame typ payload chk bs next again)
  unfolding check_frame
  check_frame-Ends typ payload chk [] c h = tt
  check_frame-Ends typ payload chk (b ∷ rest) c h = ground (arith, next_ends rest, again_ends rest)

  payload_frame-Ends :
      (typ len : ℕ) (bs : Bytes)
      → is_known_type typ ≡ true
      → len ≤ 127
      → length bs ≤ m
      → Ends m (payload_frame typ len bs next again)
  unfolding payload_frame
  payload_frame-Ends typ len bs k l h = go (read_payload len 0 bs) (read_payload-Reads len 0 bs)
    where
      go :
          (r : ReadPayload)
          → Reads len bs r
          → Ends m (elim r [
            | short i ↦ broken (payload_byte i)
            | full payload rest ↦
                check_frame typ payload (checksum (bit_xor typ len) payload) rest next again
          ])
      go (short i) e = tt
      go (full p rest) e =
          check_frame-Ends typ p _ rest
            (record { known = k; short_payload = omega arith; seven_bits = e.1 }) (omega arith)

  length_frame-Ends :
      (typ : ℕ) (bs : Bytes) → length bs ≤ m → Ends m (length_frame typ bs next again)
  unfolding length_frame
  length_frame-Ends typ [] h = tt
  length_frame-Ends typ (b ∷ bs) h = elim (Bool-cases (is_known_type typ)) [
    | inl known ↦ rw known (payload_frame-Ends typ (low7 b) bs known (omega arith) (omega arith))
    | inr unknown ↦ rw unknown (again_ends bs (omega arith))
  ]

-- `hunt` and then a frame, when every frame read from fewer bytes ends well.
hunt_frame-Ends :
    (n : ℕ) (f : Bytes → Decoded) (bs : Bytes)
    → length bs ≤ n
    → ((r : Bytes) → length r < n → Ends n (f r))
    → Ends n (elim (hunt bs) [ none ↦ broken sync | some r ↦ f r ])
hunt_frame-Ends n f bs l h = elim (Option-cases (hunt bs)) [
  | inl e ↦ rw e tt
  | inr (r, e) ↦ rw e (h r (omega (arith, hunt-lt bs r e)))
]

read_frame-Ends :
    (fuel m : ℕ) (bs : Bytes) → length bs < fuel → length bs ≤ m → Ends m (read_frame fuel bs)
unfolding read_frame
read_frame-Ends zero m bs h l = elim h [ ]
read_frame-Ends (suc fuel) m bs h l = elim (Option-cases (read_type bs)) [
  | inl e ↦ rw (e, Ends) tt
  | inr ((t, rest), e) ↦
      let shorter = read_type-lt bs t rest e in
      let next_ends = λ (r : Bytes) (lr : length r < length bs).
        read_frame-Ends fuel (length bs) r (omega arith) (omega arith) in
      rw (e, Ends)
        (Ends-mono (length bs) m _ l (
          length_frame-Ends (length bs) _ _ next_ends
            (λ r lr. hunt_frame-Ends (length bs) (read_frame fuel) r lr next_ends) (low7 t) rest
            (omega arith)))
]

-- `decode` never runs out of fuel. A frame that it returns has a known type, at most 127 payload
-- bytes, all of 7 bits, and it has taken at least one byte.
pub decode-Ends : (bs : Bytes) → Ends (length bs) (decode bs)
unfolding decode
decode-Ends bs =
    hunt_frame-Ends (length bs) (read_frame (suc (length bs))) bs (omega arith)
      (λ r l. read_frame-Ends (suc (length bs)) (length bs) r (omega arith) (omega arith))

-- What `recv` returns: it ends, with a clean frame that is no echo of a bridge command.
abbrev pub Received : ℕ → Decoded → Type 0
Received n (frame f rest) = IsClean f × (is_echo f.kind ≡ false) × (length rest < n)
Received n (broken s) = Unit
Received n out_of_fuel = ⊥

recv_from-Received :
    (fuel n : ℕ) (bs : Bytes) → length bs < fuel → length bs ≤ n → Received n (recv_from fuel bs)
unfolding recv_from
recv_from-Received zero n bs h l = elim h [ ]
recv_from-Received (suc fuel) n bs h l =
    go (decode bs) (decode-Ends bs)
      (λ r lr. recv_from-Received fuel n r (omega arith) (omega arith))
  where
    go :
        (d : Decoded)
        → Ends (length bs) d
        → ((r : Bytes) → length r < length bs → Received n (recv_from fuel r))
        → Received n (elim d [
          | frame f rest ↦ elim (is_echo f.kind) [
            | true ↦ recv_from fuel rest
            | false ↦ frame f rest
          ]
          | broken s ↦ broken s
          | out_of_fuel ↦ out_of_fuel
        ])
    go (frame f rest) e ih = elim (Bool-cases (is_echo f.kind)) [
      | inl echo ↦ rw echo (ih rest e.1)
      | inr other ↦ rw other (e.0, other, omega arith)
    ]
    go (broken s) e ih = tt
    go out_of_fuel e ih = elim e [ ]

-- `Recv` always ends. A frame that it hands over has a known type, at most 127 payload bytes, all
-- of 7 bits, and is none of the eight bridge → Commodore commands; at least one byte was read for it.
pub recv-Received : (bs : Bytes) → Received (length bs) (recv bs)
unfolding recv
recv-Received bs = recv_from-Received (suc (length bs)) (length bs) bs (omega arith) (omega arith)
