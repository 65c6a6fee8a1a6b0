-- ===== src/Relay/Accept/Laws.antt =====
-- `acceptC64FrameWith`: retransmissions, and the order of the frames that it lets through.
use claw.Prelude.{
  ℕ, zero, suc, Bool, true, false, List, [], ◌∷◌, ◌++◌, ◌≡◌, ◌⊎◌, inr, refl, ap, ◌∙◌, arith,
  if◌then◌else◌, append_assoc,
}
use claw.Relay.Accept.{note_id, queue_ack, accept_c64_frame_with, accept_c64_frame_queued}
use claw.Relay.Ids.{IsId, later_id, transport_id_ahead}
use claw.Relay.State.{Relay, Env}
use claw.Serial.Frame.{Frame, is_reliable_c64, strip_id, prepend_id}

-- A frame as it comes over the link, its ID in front.
abbrev pub with_id : ℕ → Frame → Frame
with_id id f = record f { payload = prepend_id id f.payload }

-- The newest ID and type are those of this frame.
abbrev Newest : ℕ → ℕ → Relay → Type 0
Newest kind id r = (r.rx_last_id ≡ id) × (r.rx_last_type ≡ kind)

-- This ID comes next: nothing has come yet, or the ID before it.
abbrev pub IsNext : ℕ → Relay → Type 0
IsNext id r = (r.rx_last_id ≡ 0) ⊎ (IsId r.rx_last_id × (id ≡ later_id r.rx_last_id 1))

note_id_next :
    (kind id : ℕ) (r : Relay)
    → IsId id
    → IsNext id r
    → note_id kind id r ≡ (false, record r { rx_last_id = id; rx_last_type = kind })
unfolding note_id transport_id_ahead
note_id_next kind id r h n = ground arith

note_id_again : (kind id : ℕ) (r : Relay) → Newest kind id r → note_id kind id r ≡ (true, r)
unfolding note_id
note_id_again kind id r h = ground arith

-- A dropped frame leaves the newest ID alone, and would be dropped again.
note_id_twice :
    (kind id : ℕ) (r : Relay) (acks : List ℕ)
    → note_id kind id (record (note_id kind id r).1 { pending_acks = acks })
      ≡ (true, record (note_id kind id r).1 { pending_acks = acks })
unfolding note_id
note_id_twice kind id r acks = ground arith

pending_acks-note_id :
    (kind id : ℕ) (r : Relay) → (note_id kind id r).1.pending_acks ≡ r.pending_acks
unfolding note_id
pending_acks-note_id kind id r = ground arith

module _ (env : Env) where
  accept_with_id :
      (id : ℕ) (f : Frame) (r : Relay)
      → is_reliable_c64 f.kind ≡ true
      → accept_c64_frame_queued env (with_id id f) r ≡ (
          let r' = record r { pending_acks = r.pending_acks ++ (id ∷ []) } in
          record {
            duplicate = (note_id f.kind id r').0;
            frame = f;
            relay = (note_id f.kind id r').1;
          })
  unfolding accept_c64_frame_with strip_id queue_ack prepend_id
  accept_with_id id f r h = rw h

  -- A reliable frame that comes a second time is dropped, whatever came before it, and its ID is
  -- queued for an ACK both times.
  pub accept_c64_frame_queued_twice :
      (id : ℕ) (f : Frame) (r : Relay)
      → is_reliable_c64 f.kind ≡ true
      → let first = accept_c64_frame_queued env (with_id id f) r in
        let second = accept_c64_frame_queued env (with_id id f) first.relay in
        (second.duplicate ≡ true)
        × (second.relay.pending_acks ≡ r.pending_acks ++ (id ∷ id ∷ []))
        × (second.relay.rx_last_id ≡ first.relay.rx_last_id)
  accept_c64_frame_queued_twice id f r h =
      let r' = record r { pending_acks = r.pending_acks ++ (id ∷ []) } in
      let noted = (note_id f.kind id r').1 in
      let acks =
        ap (λ l. l ++ (id ∷ [])) (pending_acks-note_id f.kind id r')
        ∙ append_assoc r.pending_acks (id ∷ []) (id ∷ []) in
      let again = note_id_twice f.kind id r' (noted.pending_acks ++ (id ∷ [])) in
      rw (accept_with_id id f r h) (rw (accept_with_id id f noted h) (rw again (refl, acks, refl)))

  -- A frame with the next ID is let through without its ID; the ID is noted, and queued for an ACK.
  accept_next :
      (id : ℕ) (f : Frame) (r : Relay)
      → is_reliable_c64 f.kind ≡ true
      → IsId id
      → IsNext id r
      → accept_c64_frame_queued env (with_id id f) r ≡ record {
        duplicate = false;
        frame = f;
        relay = record r {
          pending_acks = r.pending_acks ++ (id ∷ []);
          rx_last_id = id;
          rx_last_type = f.kind;
        };
      }
  accept_next id f r h i n =
      let r' = record r { pending_acks = r.pending_acks ++ (id ∷ []) } in
      accept_with_id id f r h
      ∙ ap (λ (p : Bool × Relay). record { duplicate = p.0; frame = f; relay = p.1 })
          (note_id_next f.kind id r' i n)

  accept_again :
      (id : ℕ) (f : Frame) (r : Relay)
      → is_reliable_c64 f.kind ≡ true
      → Newest f.kind id r
      → accept_c64_frame_queued env (with_id id f) r ≡ record {
        duplicate = true;
        frame = f;
        relay = record r { pending_acks = r.pending_acks ++ (id ∷ []) };
      }
  accept_again id f r h n =
      let r' = record r { pending_acks = r.pending_acks ++ (id ∷ []) } in
      accept_with_id id f r h
      ∙ ap (λ (p : Bool × Relay). record { duplicate = p.0; frame = f; relay = p.1 })
          (note_id_again f.kind id r' n)

  -- The frames that are let through when these come one after the other, and the last state.
  abbrev pub accept_run : List Frame → Relay → List Frame × Relay
  accept_run [] r = ([], r)
  accept_run (f ∷ fs) r =
      let a = accept_c64_frame_queued env f r in
      let rest = accept_run fs a.relay in (if a.duplicate then rest.0 else a.frame ∷ rest.0, rest.1)

-- `n` copies in front of what follows.
abbrev pub repeat : ℕ → Frame → List Frame → List Frame
repeat zero f rest = rest
repeat (suc n) f rest = f ∷ repeat n f rest

-- What a stop-and-wait sender puts on the line for these frames, from this ID on: each frame once
-- and then as often as its number says.
abbrev pub transmissions : ℕ → List (Frame × ℕ) → List Frame
transmissions id [] = []
transmissions id ((f, n) ∷ plan) =
    with_id id f ∷ repeat n (with_id id f) (transmissions (later_id id 1) plan)

abbrev pub originals : List (Frame × ℕ) → List Frame
originals [] = []
originals ((f, n) ∷ plan) = f ∷ originals plan

abbrev pub AllReliable : List (Frame × ℕ) → Type 0
AllReliable [] = Unit
AllReliable ((f, n) ∷ plan) = (is_reliable_c64 f.kind ≡ true) × AllReliable plan

module _ (env : Env) where
  accept_run-repeat :
      (n id : ℕ) (f : Frame) (rest : List Frame) (r : Relay)
      → is_reliable_c64 f.kind ≡ true
      → Newest f.kind id r
      → (r' : Relay) × (Newest f.kind id r'
          × ((accept_run env (repeat n (with_id id f) rest) r).0 ≡ (accept_run env rest r').0))
  accept_run-repeat zero id f rest r h n = (r, (n, refl))
  accept_run-repeat (suc k) id f rest r h n =
      let again = record r { pending_acks = r.pending_acks ++ (id ∷ []) } in
      let (r', (newest, same)) = accept_run-repeat k id f rest again h n in
      (r', (newest, rw (accept_again env id f r h n) same))

  -- A stop-and-wait sender whose frames may each arrive any number of times, with IDs that count on
  -- from the newest one: each frame is let through once, in order, without its ID.
  pub accept_run-originals :
      (plan : List (Frame × ℕ)) (id : ℕ) (r : Relay)
      → AllReliable plan
      → IsId id
      → IsNext id r
      → (accept_run env (transmissions id plan) r).0 ≡ originals plan
  accept_run-originals [] id r h i n = refl
  accept_run-originals ((f, k) ∷ plan) id r h i n =
      let noted = record r {
        pending_acks = r.pending_acks ++ (id ∷ []);
        rx_last_id = id;
        rx_last_type = f.kind;
      } in
      let (r', (newest, same)) =
        accept_run-repeat k id f (transmissions (later_id id 1) plan) noted h.0 (refl, refl) in
      let next : IsNext (later_id id 1) r' = inr (omega arith, rw newest.0) in
      rw (accept_next env id f r h.0 i n)
        (ap (◌∷◌ f) (same ∙ accept_run-originals plan (later_id id 1) r' h.1 (omega arith) next))
