-- ===== src/Serial/Listen/Owned.antt =====
-- The link of `waitForHandshake` (bridge/serial/serial.go) after any events: whose bytes it has.
use claw.Prelude.{
  ℕ, ◌<◌, Bool, true, false, Option, none, some, List, [], ◌∷◌, ◌≡◌, refl, sym, ap, ◌∙◌, subst,
  Bool-cases, inl, inr, ◌==◌, ==_iff, if◌then◌else◌,
}
use claw.Serial.Device.{handshake_byte}
use claw.Serial.Listen.{
  TcpConn, linked, Place, at_select, at_accept, returned, Listener, Event, select, accept,
  accept_timeout, accept_error, read, read_timeout, read_error, start_listening, set_conn,
  select_ready, read_byte, stop_reading, loop_step, listener_step, listen,
}
use claw.Serial.Listen.Announced.{
  IsAnnounced, OnReady, OnLink, Inv, accept_conn-Inv, read_byte-Inv, stop_reading-Inv,
}

select_ready-Inv : (o : Option ℕ) (l : Listener) → Inv l → l.ready ≡ o → Inv (select_ready o l)
unfolding select_ready
select_ready-Inv none l inv e = record {
  each = inv.each;
  known = inv.known;
  on_ready = inv.on_ready;
  on_link = tt;
}
select_ready-Inv (some i) l inv e = record {
  each = inv.each;
  known = inv.known;
  on_ready = tt;
  on_link = subst (OnReady l.conns l.accepted) e inv.on_ready;
}

loop_step-Inv : (p : Place) (e : Event) (l : Listener) → l.place ≡ p → Inv l → Inv (loop_step p e l)
unfolding loop_step
loop_step-Inv at_select select l h inv = select_ready-Inv l.ready l inv refl
loop_step-Inv at_accept accept l h inv = accept_conn-Inv l inv h
loop_step-Inv at_accept accept_timeout l h inv = record {
  each = inv.each;
  known = inv.known;
  on_ready = inv.on_ready;
  on_link = tt;
}
loop_step-Inv at_accept accept_error l h inv = record {
  each = inv.each;
  known = inv.known;
  on_ready = inv.on_ready;
  on_link = tt;
}
loop_step-Inv _ _ l h inv = inv

-- What a goroutine does only while it runs.
while_reading-Inv :
    (r : Bool) (l after : Listener) → Inv l → (r ≡ true → Inv after) → Inv (if r then after else l)
while_reading-Inv true l after inv h = h refl
while_reading-Inv false l after inv h = inv

listener_step-Inv : (e : Event) (l : Listener) → Inv l → Inv (listener_step e l)
unfolding listener_step
listener_step-Inv select l inv = loop_step-Inv l.place select l refl inv
listener_step-Inv accept l inv = loop_step-Inv l.place accept l refl inv
listener_step-Inv accept_timeout l inv = loop_step-Inv l.place accept_timeout l refl inv
listener_step-Inv accept_error l inv = loop_step-Inv l.place accept_error l refl inv
listener_step-Inv (read i b) l inv =
    while_reading-Inv (l.conns i).reading l (read_byte i b l) inv (read_byte-Inv l i b inv)
listener_step-Inv (read_timeout i) l inv = inv
listener_step-Inv (read_error i) l inv =
    while_reading-Inv (l.conns i).reading l (stop_reading i l) inv (stop_reading-Inv l i inv)

listen-Inv : (es : List Event) (l : Listener) → Inv l → Inv (listen es l)
unfolding listen
listen-Inv [] l inv = inv
listen-Inv (e ∷ es) l inv = listen-Inv es (listener_step e l) (listener_step-Inv e l inv)

start_listening-Inv : Inv start_listening
unfolding start_listening
start_listening-Inv = record {
  each = λ i r. absurd cc;
  known = λ i r. absurd cc;
  on_ready = tt;
  on_link = tt;
}

-- The loop has returned its link, on a connection that nothing reads from.
abbrev Held : ℕ → TcpConn → Listener → Type 0
Held i c l = (l.place ≡ returned (linked i)) × (l.conns i ≡ c)

set_conn-other :
    (i j : ℕ) (c : TcpConn) (conns : ℕ → TcpConn)
    → (conns i).reading ≡ false
    → (conns j).reading ≡ true
    → set_conn j c conns i ≡ conns i
unfolding set_conn
set_conn-other i j c conns hi hj = elim (Bool-cases (i == j)) [
  | inl e ↦ absurd (false≢true (sym hi ∙ ap (λ k. (conns k).reading) ((==_iff i j).0 e) ∙ hj))
  | inr e ↦ rw e refl
]
  where
    false≢true : false ≡ true → ⊥
    false≢true p = cc

module _ (i : ℕ) (c : TcpConn) (still : c.reading ≡ false) where
  loop_step-Held :
      (p : Place) (e : Event) (l : Listener)
      → p ≡ returned (linked i)
      → Held i c l
      → Held i c (loop_step p e l)
  unfolding loop_step
  loop_step-Held at_select e l h held = cc
  loop_step-Held at_accept e l h held = cc
  loop_step-Held (returned o) e l h held = held

  while_reading-Held :
      (j : ℕ) (l after : Listener)
      → Held i c l
      → after.place ≡ l.place
      → ((l.conns j).reading ≡ true → (d : TcpConn) × (after.conns ≡ set_conn j d l.conns))
      → Held i c (if (l.conns j).reading then after else l)
  while_reading-Held j l after held same sets = elim (Bool-cases (l.conns j).reading) [
    | inl r ↦
        let (d, e) = sets r in
        rw r (
          same ∙ held.0,
          ap (λ f. f i) e
              ∙ set_conn-other i j d l.conns (ap (λ k. k.reading) held.1 ∙ still) r
              ∙ held.1,
        )
    | inr r ↦ rw r held
  ]

  listener_step-Held : (e : Event) (l : Listener) → Held i c l → Held i c (listener_step e l)
  unfolding listener_step read_byte stop_reading
  listener_step-Held select l h = loop_step-Held l.place select l h.0 h
  listener_step-Held accept l h = loop_step-Held l.place accept l h.0 h
  listener_step-Held accept_timeout l h = loop_step-Held l.place accept_timeout l h.0 h
  listener_step-Held accept_error l h = loop_step-Held l.place accept_error l h.0 h
  listener_step-Held (read j b) l h = elim (Bool-cases (b == handshake_byte)) [
    | inl e ↦ rw e (while_reading-Held j l _ h refl (λ r. (_, refl)))
    | inr e ↦ rw e (while_reading-Held j l _ h refl (λ r. (_, refl)))
  ]
  listener_step-Held (read_timeout j) l h = h
  listener_step-Held (read_error j) l h = while_reading-Held j l _ h refl (λ r. (_, refl))

  listen-Held : (es : List Event) (l : Listener) → Held i c l → Held i c (listen es l)
  unfolding listen
  listen-Held [] l h = h
  listen-Held (e ∷ es) l h = listen-Held es (listener_step e l) (listener_step-Held e l h)

-- When the wait for the handshake returns a link, whatever connections came, spoke and failed in
-- whatever order, the link stands on an accepted connection that was sent one zero byte, that has
-- sent a `'!'`, and of which nothing was read behind that first `'!'`. Nothing that the other
-- goroutines and the network do later reads from it, writes to it or changes the link.
pub listen-Owned :
    (es later : List Event) (i : ℕ)
    → (listen es start_listening).place ≡ returned (linked i)
    → (i < (listen es start_listening).accepted)
      × IsAnnounced ((listen es start_listening).conns i)
      × ((listen later (listen es start_listening)).conns i ≡ (listen es start_listening).conns i)
      × ((listen later (listen es start_listening)).place ≡ returned (linked i))
listen-Owned es later i h =
    let l = listen es start_listening in
    let on =
      subst (OnLink l.conns l.accepted) h
        (listen-Inv es start_listening start_listening-Inv).on_link in
    let after = listen-Held i (l.conns i) on.1.0 later l (h, refl) in (on.0, on.1, after.1, after.0)
