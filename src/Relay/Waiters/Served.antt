-- ===== src/Relay/Waiters/Served.antt =====
-- Where the goroutine of bridge/relay/relay.go puts the frames that it receives.
use claw.Prelude.{
  ℕ, Bool, true, false, not, ◌&&◌, Option, none, some, List, [], ◌∷◌, ◌++◌, append_assoc,
  append-nil, ◌≡◌, refl, sym, ap, ap₂, ◌∙◌, arith, ◌==◌, if◌then◌else◌, Bool-cases, inl, inr,
}
use claw.Relay.Waiters.{
  Waiters, offer, offer_to, offer_acked, dispatch_ack_waiter, Channels, put_ack, route_frame,
  route_frames,
}
use claw.Relay.Wait.{is_ack_of}
use claw.Serial.Frame.{Frame, frame_ack, extract_ack_id}

abbrev pub is_waited : Waiters → ℕ → Bool
is_waited [] id = false
is_waited ((k, held) ∷ ws) id = if k == id then true else is_waited ws id

-- Whether an ACK is for a waiter.
abbrev pub waited_id : Waiters → Option ℕ → Bool
waited_id ws none = false
waited_id ws (some id) = is_waited ws id

abbrev pub other_acks : Waiters → List Frame → List Frame
other_acks ws [] = []
other_acks ws (f ∷ fs) =
    if f.kind == frame_ack && not (waited_id ws (extract_ack_id f.payload))
    then f ∷ other_acks ws fs
    else other_acks ws fs

abbrev pub no_acks : List Frame → List Frame
no_acks [] = []
no_acks (f ∷ fs) = if f.kind == frame_ack then no_acks fs else f ∷ no_acks fs

-- The frame that a waiter's channel holds, if it has one.
abbrev pub held_by : Waiters → ℕ → Option Frame
held_by [] id = none
held_by ((k, held) ∷ ws) id = if k == id then held else held_by ws id

-- The first ACK for this waiter.
abbrev pub first_ack : ℕ → List Frame → Option Frame
first_ack id [] = none
first_ack id (f ∷ fs) =
    if f.kind == frame_ack && is_ack_of id (extract_ack_id f.payload)
    then some f
    else first_ack id fs

offer_to-is_waited : (id : ℕ) (f : Frame) (ws : Waiters) → (offer_to id f ws).0 ≡ is_waited ws id
unfolding offer_to
offer_to-is_waited id f [] = refl
offer_to-is_waited id f ((k, held) ∷ ws) = ground (arith, offer_to-is_waited id f ws)

-- The waiters stay the same, but for what they hold.
is_waited-offer_to :
    (id j : ℕ) (f : Frame) (ws : Waiters) → is_waited (offer_to id f ws).1 j ≡ is_waited ws j
unfolding offer_to
is_waited-offer_to id j f [] = refl
is_waited-offer_to id j f ((k, held) ∷ ws) = ground (arith, is_waited-offer_to id j f ws)

held_by-offer_to :
    (id j : ℕ) (f : Frame) (ws : Waiters)
    → held_by (offer_to id f ws).1 j
      ≡ (if id == j && is_waited ws j then offer f (held_by ws j) else held_by ws j)
unfolding offer_to
held_by-offer_to id j f [] = ground arith
held_by-offer_to id j f ((k, held) ∷ ws) = ground (arith, held_by-offer_to id j f ws)

-- What one frame does to the channels.
record OneRouted (f : Frame) (c d : Channels) : Type 0 where
  same_waiters : (j : ℕ) → is_waited d.waiters j ≡ is_waited c.waiters j
  more_acks : d.acks ≡ c.acks ++ other_acks c.waiters (f ∷ [])
  more_frames : d.frames ≡ c.frames ++ no_acks (f ∷ [])
  holds :
      (j : ℕ)
      → is_waited c.waiters j ≡ true
      → held_by d.waiters j ≡ (
          if f.kind == frame_ack && is_ack_of j (extract_ack_id f.payload)
          then offer f (held_by c.waiters j)
          else held_by c.waiters j)

offered :
    (f : Frame) (c : Channels) (id : ℕ) (r : Bool × Waiters)
    → (f.kind == frame_ack) ≡ true
    → extract_ack_id f.payload ≡ some id
    → r.0 ≡ is_waited c.waiters id
    → ((j : ℕ) → is_waited r.1 j ≡ is_waited c.waiters j)
    → ((j : ℕ)
        → held_by r.1 j ≡ (
            if id == j && is_waited c.waiters j
            then offer f (held_by c.waiters j)
            else held_by c.waiters j))
    → OneRouted f c (put_ack f c r)
offered f c id (true, ws) e eo w same held = record {
  same_waiters = same;
  more_acks = rw (e, eo, sym w) (sym (append-nil c.acks));
  more_frames = rw e (sym (append-nil c.frames));
  holds = λ j waited. rw (e, eo) (ground (arith, held j));
}
offered f c id (false, ws) e eo w same held = record {
  same_waiters = same;
  more_acks = rw (e, eo, sym w) refl;
  more_frames = rw e (sym (append-nil c.frames));
  holds = λ j waited. rw (e, eo) (ground (arith, held j));
}

ack-OneRouted :
    (f : Frame) (c : Channels) (o : Option ℕ)
    → (f.kind == frame_ack) ≡ true
    → extract_ack_id f.payload ≡ o
    → OneRouted f c (put_ack f c (offer_acked o f c.waiters))
ack-OneRouted f c none e eo = record {
  same_waiters = λ j. refl;
  more_acks = rw (e, eo) refl;
  more_frames = rw e (sym (append-nil c.frames));
  holds = λ j w. rw (e, eo) refl;
}
ack-OneRouted f c (some id) e eo =
    offered f c id (offer_to id f c.waiters) e eo (offer_to-is_waited id f c.waiters)
      (λ j. is_waited-offer_to id j f c.waiters) (λ j. held_by-offer_to id j f c.waiters)

route_frame-OneRouted : (f : Frame) (c : Channels) → OneRouted f c (route_frame f c)
unfolding route_frame dispatch_ack_waiter
route_frame-OneRouted f c = elim (Bool-cases (f.kind == frame_ack)) [
  | inl e ↦ rw e (ack-OneRouted f c (extract_ack_id f.payload) e refl)
  | inr e ↦ rw e (record {
    same_waiters = λ j. refl;
    more_acks = rw e (sym (append-nil c.acks));
    more_frames = rw e refl;
    holds = λ j w. rw e refl;
  })
]

abbrev pub or_first : Option Frame → Option Frame → Option Frame
or_first none o = o
or_first (some f) o = some f

waited_id-same :
    (ws vs : Waiters) (o : Option ℕ)
    → ((j : ℕ) → is_waited ws j ≡ is_waited vs j)
    → waited_id ws o ≡ waited_id vs o
waited_id-same ws vs none h = refl
waited_id-same ws vs (some id) h = h id

other_acks-same :
    (ws vs : Waiters) (fs : List Frame)
    → ((j : ℕ) → is_waited ws j ≡ is_waited vs j)
    → other_acks ws fs ≡ other_acks vs fs
other_acks-same ws vs [] h = refl
other_acks-same ws vs (f ∷ fs) h =
    rw (waited_id-same ws vs (extract_ack_id f.payload) h, other_acks-same ws vs fs h) refl

other_acks-append :
    (ws : Waiters) (fs gs : List Frame)
    → other_acks ws (fs ++ gs) ≡ other_acks ws fs ++ other_acks ws gs
other_acks-append ws [] gs = refl
other_acks-append ws (f ∷ fs) gs = ground (arith, other_acks-append ws fs gs)

no_acks-append : (fs gs : List Frame) → no_acks (fs ++ gs) ≡ no_acks fs ++ no_acks gs
no_acks-append [] gs = refl
no_acks-append (f ∷ fs) gs = ground (arith, no_acks-append fs gs)

-- The frames among those received that go to `ackCh`, those that go to `recvCh`, and what the
-- channel of each waiter then holds: the frame that it held, else the first ACK for it.
pub record IsServed (fs : List Frame) (c d : Channels) : Type 0 where
  pub acks : d.acks ≡ c.acks ++ other_acks c.waiters fs
  pub frames : d.frames ≡ c.frames ++ no_acks fs
  pub held :
      (j : ℕ)
      → is_waited c.waiters j ≡ true
      → held_by d.waiters j ≡ or_first (held_by c.waiters j) (first_ack j fs)

or_none : (o : Option Frame) → o ≡ or_first o none
or_none none = refl
or_none (some f) = refl

held_then :
    (b : Bool) (f : Frame) (o : Option Frame) (later : Option Frame)
    → or_first (if b then offer f o else o) later ≡ or_first o (if b then some f else later)
held_then true f none later = refl
held_then true f (some g) later = refl
held_then false f o later = refl

-- The goroutine hands each ACK with an ID that is waited for to that waiter alone, the other ACKs to
-- `ackCh` and the other frames to `recvCh`, in order; a waiter's channel keeps the first ACK for it.
pub route_frames-IsServed : (fs : List Frame) (c : Channels) → IsServed fs c (route_frames fs c)
unfolding route_frames
route_frames-IsServed [] c = record {
  acks = sym (append-nil c.acks);
  frames = sym (append-nil c.frames);
  held = λ j w. or_none (held_by c.waiters j);
}
route_frames-IsServed (f ∷ fs) c =
    let one = route_frame-OneRouted f c in
    let c1 : Channels = route_frame f c in
    let rest = route_frames-IsServed fs c1 in
    record {
      acks =
          rest.acks
          ∙ (ap₂ (λ x y. x ++ y) one.more_acks
                (other_acks-same c1.waiters c.waiters fs one.same_waiters)
              ∙ (append_assoc c.acks (other_acks c.waiters (f ∷ [])) (other_acks c.waiters fs)
                  ∙ ap (λ x. c.acks ++ x) (sym (other_acks-append c.waiters (f ∷ []) fs))));
      frames =
          rest.frames
          ∙ (ap (λ x. x ++ no_acks fs) one.more_frames
              ∙ (append_assoc c.frames (no_acks (f ∷ [])) (no_acks fs)
                  ∙ ap (λ x. c.frames ++ x) (sym (no_acks-append (f ∷ []) fs))));
      held = λ j w.
          rest.held j (one.same_waiters j ∙ w)
          ∙ (ap (λ o. or_first o (first_ack j fs)) (one.holds j w)
              ∙ held_then (f.kind == frame_ack && is_ack_of j (extract_ack_id f.payload)) f
                  (held_by c.waiters j) (first_ack j fs));
    }
