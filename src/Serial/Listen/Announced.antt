-- ===== src/Serial/Listen/Announced.antt =====
-- Which connection the link of `waitForHandshake` (bridge/serial/serial.go) stands on.
use claw.Prelude.{
  ℕ, ◌+◌, ◌≤◌, ◌<◌, true, false, Option, none, some, [], ◌∷◌, ◌≡◌, ◌≢◌, refl, arith, All, Bytes,
  Bool-cases, inl, inr, ◌==◌, ==_iff, sym, ap, ◌∙◌,
}
use claw.Serial.Device.{handshake_byte}
use claw.Serial.Listen.{
  TcpConn, linked, accept_failed, Place, at_select, at_accept, returned, Listener, set_conn,
  accept_conn, announce, read_byte, stop_reading,
}

abbrev pub NotMark : ℕ → Type 0
NotMark b = b ≢ handshake_byte

-- The last byte read from the connection is its first `'!'`.
abbrev pub EndsInMark : Bytes → Type 0
EndsInMark [] = ⊥
EndsInMark (b ∷ before) = (b ≡ handshake_byte) × All NotMark before

-- Nothing reads from the connection, the last byte read from it is its first `'!'`, and one zero
-- byte was written to it.
abbrev pub IsAnnounced : TcpConn → Type 0
IsAnnounced c = (c.reading ≡ false) × EndsInMark c.got × (c.written ≡ 0 ∷ [])

-- A connection that is read from has sent no `'!'`, and has been woken.
abbrev pub IsReading : TcpConn → Type 0
IsReading c = c.reading ≡ true → All NotMark c.got × (c.written ≡ 0 ∷ [])

abbrev pub OnReady : (ℕ → TcpConn) → ℕ → Option ℕ → Type 0
OnReady conns n none = Unit
OnReady conns n (some i) = (i < n) × IsAnnounced (conns i)

-- What holds of the place of the loop: a link stands on an announced connection.
abbrev pub OnLink : (ℕ → TcpConn) → ℕ → Place → Type 0
OnLink conns n (returned (linked i)) = (i < n) × IsAnnounced (conns i)
OnLink conns n p = Unit

pub record Inv (l : Listener) : Type 0 where
  pub each : (i : ℕ) → IsReading (l.conns i)
  pub known : (i : ℕ) → (l.conns i).reading ≡ true → i < l.accepted
  pub on_ready : OnReady l.conns l.accepted l.ready
  pub on_link : OnLink l.conns l.accepted l.place

-- Announced connections stay as they are when another one changes.
pub IsAnnounced-set :
    (i j : ℕ) (c : TcpConn) (conns : ℕ → TcpConn)
    → j ≢ i
    → IsAnnounced (conns j)
    → IsAnnounced (set_conn i c conns j)
unfolding set_conn
IsAnnounced-set i j c conns ne h = elim (Bool-cases (j == i)) [
  | inl e ↦ absurd (ne ((==_iff j i).0 e))
  | inr e ↦ rw e h
]

-- The connection that changes is none of the announced ones.
abbrev pub Apart : ℕ → (ℕ → TcpConn) → ℕ → Type 0
Apart i conns n = (j : ℕ) → j < n → IsAnnounced (conns j) → j ≢ i

module _ (i n m : ℕ) (c : TcpConn) (conns : ℕ → TcpConn) (apart : Apart i conns n)
    (le : n ≤ m) where
  OnReady-set : (o : Option ℕ) → OnReady conns n o → OnReady (set_conn i c conns) m o
  OnReady-set none h = tt
  OnReady-set (some j) h = (omega (arith, h.0), IsAnnounced-set i j c conns (apart j h.0 h.1) h.1)

  OnLink-set : (p : Place) → OnLink conns n p → OnLink (set_conn i c conns) m p
  OnLink-set at_select h = tt
  OnLink-set at_accept h = tt
  OnLink-set (returned accept_failed) h = tt
  OnLink-set (returned (linked j)) h =
      (omega (arith, h.0), IsAnnounced-set i j c conns (apart j h.0 h.1) h.1)

each-set :
    (i : ℕ) (c : TcpConn) (conns : ℕ → TcpConn)
    → IsReading c
    → ((j : ℕ) → IsReading (conns j))
    → (j : ℕ) → IsReading (set_conn i c conns j)
unfolding set_conn
each-set i c conns h all j = elim (Bool-cases (j == i)) [ inl e ↦ rw e h | inr e ↦ rw e (all j) ]

known-set :
    (i n m : ℕ) (c : TcpConn) (conns : ℕ → TcpConn)
    → n ≤ m
    → (c.reading ≡ true → i < m)
    → ((j : ℕ) → (conns j).reading ≡ true → j < n)
    → (j : ℕ) → (set_conn i c conns j).reading ≡ true
    → j < m
unfolding set_conn
known-set i n m c conns le h all j = elim (Bool-cases (j == i)) [
  | inl e ↦ rw e (λ r. omega (arith, h r, (==_iff j i).0 e))
  | inr e ↦ rw e (λ r. omega (arith, all j r, le))
]

pub reading-Apart : (i n : ℕ) (conns : ℕ → TcpConn) → (conns i).reading ≡ true → Apart i conns n
reading-Apart i n conns r j lt h e = false≢true (sym h.0 ∙ ap (λ k. (conns k).reading) e ∙ r)
  where
    false≢true : false ≡ true → ⊥
    false≢true p = cc

pub accept_conn-Inv : (l : Listener) → Inv l → l.place ≡ at_accept → Inv (accept_conn l)
unfolding accept_conn
accept_conn-Inv l inv p =
    let c : TcpConn = record { reading = true; got = []; written = 0 ∷ [] } in
    let apart : Apart l.accepted l.conns l.accepted = λ j lt h. omega arith in
    record {
      each = each-set l.accepted c l.conns (λ r. (tt, refl)) inv.each;
      known =
          known-set l.accepted l.accepted (l.accepted + 1) c l.conns (omega arith)
            (λ r. omega arith) inv.known;
      on_ready =
          OnReady-set l.accepted l.accepted (l.accepted + 1) c l.conns apart (omega arith) l.ready
            inv.on_ready;
      on_link = tt;
    }

-- A goroutine changes its connection `i`, which was read from, and the channel at most.
changed-Inv :
    (l : Listener) (i : ℕ) (c : TcpConn) (o : Option ℕ)
    → Inv l
    → (l.conns i).reading ≡ true
    → IsReading c
    → OnReady (set_conn i c l.conns) l.accepted o
    → Inv (record l { conns = set_conn i c l.conns; ready = o })
changed-Inv l i c o inv r h ready =
    let apart = reading-Apart i l.accepted l.conns r in
    record {
      each = each-set i c l.conns h inv.each;
      known =
          known-set i l.accepted l.accepted c l.conns (omega arith) (λ q. inv.known i r) inv.known;
      on_ready = ready;
      on_link =
          OnLink-set i l.accepted l.accepted c l.conns apart (omega arith) l.place inv.on_link;
    }

announce-OnReady :
    (l : Listener) (i : ℕ) (c : TcpConn) (o : Option ℕ)
    → (l.conns i).reading ≡ true
    → i < l.accepted
    → IsAnnounced c
    → OnReady l.conns l.accepted o
    → OnReady (set_conn i c l.conns) l.accepted (announce o i)
unfolding announce set_conn
announce-OnReady l i c none r lt h ready = (lt, rw ((==_iff i i).1 refl) h)
announce-OnReady l i c (some j) r lt h ready =
    OnReady-set i l.accepted l.accepted c l.conns (reading-Apart i l.accepted l.conns r)
      (omega arith) (some j) ready

unread-Inv :
    (l : Listener) (i : ℕ) (c : TcpConn)
    → Inv l
    → (l.conns i).reading ≡ true
    → IsReading c
    → Inv (record l { conns = set_conn i c l.conns })
unread-Inv l i c inv r h = changed-Inv l i c l.ready inv r h (
    OnReady-set i l.accepted l.accepted c l.conns (reading-Apart i l.accepted l.conns r)
      (omega arith) l.ready inv.on_ready)

pub read_byte-Inv :
    (l : Listener) (i b : ℕ) → Inv l → (l.conns i).reading ≡ true → Inv (read_byte i b l)
unfolding read_byte
read_byte-Inv l i b inv r =
    let before = inv.each i r in
    elim (Bool-cases (b == handshake_byte)) [
      | inl e ↦ rw e (
          changed-Inv l i _ _ inv r (λ q. absurd cc)
            (announce-OnReady l i _ l.ready r (inv.known i r)
              (refl, ((==_iff b handshake_byte).0 e, before.0), before.1) inv.on_ready))
      | inr e ↦ rw e (
          unread-Inv l i _ inv r (λ q.
            (((λ m. absurd (ground (arith, ==_iff b handshake_byte, e, m))), before.0), before.1)))
    ]

pub stop_reading-Inv :
    (l : Listener) (i : ℕ) → Inv l → (l.conns i).reading ≡ true → Inv (stop_reading i l)
unfolding stop_reading
stop_reading-Inv l i inv r = unread-Inv l i _ inv r (λ q. absurd cc)
