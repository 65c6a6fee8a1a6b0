-- ===== src/Relay/Gate/Order.antt =====
-- The gate of bridge/relay/relay.go lets its calls in in the order in which they came.
pub mod Fair
use claw.Prelude.{
  ℕ, Bool, true, false, ◌||◌, List, [], ◌∷◌, ◌++◌, append-nil, append_assoc, ◌≡◌, refl, sym, ap,
  subst, ◌∙◌, arith, if◌then◌else◌, All, Bool-cases, inl, inr, ◌==◌, ==_iff,
}
use claw.Relay.Accept.{mem_id}
use claw.Relay.Gate.{
  Gate, free_gate, remove, acquire, wake, give_up, hand_off, release, try_acquire,
}

-- The first of those who wait, whom a release lets in.
abbrev pub front_of : List ℕ → List ℕ
front_of [] = []
front_of (w ∷ ws) = w ∷ []

-- A gate, free at first, after any calls on it, each with a ticket of its own: the tickets that
-- came, without those that gave up in the queue, and the tickets that were let in, in their order.
pub data Turns : Gate → List ℕ → List ℕ → Type 0 where
  opened : Turns free_gate [] []
  acquires :
      (t : ℕ) {g : Gate} {came let_in : List ℕ}
      → Turns g came let_in
      → mem_id t came ≡ false
      → Turns (acquire t g) (came ++ (t ∷ [])) (if g.busy then let_in else let_in ++ (t ∷ []))
  tries :
      (t : ℕ) {g : Gate} {came let_in : List ℕ}
      → Turns g came let_in
      → mem_id t came ≡ false
      → Turns
          (try_acquire t g).1
          (if g.busy then came else came ++ (t ∷ []))
          (if g.busy then let_in else let_in ++ (t ∷ []))
  wakes :
      (t : ℕ) {g : Gate} {came let_in : List ℕ}
      → Turns g came let_in
      → mem_id t g.granted ≡ true
      → Turns (wake t g) came let_in
  gives_up :
      (t : ℕ) {g : Gate} {came let_in : List ℕ}
      → Turns g came let_in
      → (mem_id t g.waiters || mem_id t g.granted) ≡ true
      → Turns (give_up t g) (if mem_id t g.waiters then remove t came else came) let_in
  releases :
      (t : ℕ) {g : Gate} {came let_in : List ℕ}
      → Turns g came let_in
      → mem_id t g.holders ≡ true
      → Turns (release t g) came (let_in ++ front_of g.waiters)

-- No ticket twice.
abbrev pub Distinct : List ℕ → Type 0
Distinct [] = Unit
Distinct (x ∷ xs) = (mem_id x xs ≡ false) × Distinct xs

abbrev pub In : List ℕ → ℕ → Type 0
In xs t = mem_id t xs ≡ true

pub mem_id-append : (t : ℕ) (xs ys : List ℕ) → mem_id t (xs ++ ys) ≡ (mem_id t xs || mem_id t ys)
unfolding mem_id
mem_id-append t [] ys = refl
mem_id-append t (x ∷ xs) ys = ground (arith, mem_id-append t xs ys)

Distinct-snoc :
    (t : ℕ) (xs : List ℕ) → Distinct xs → mem_id t xs ≡ false → Distinct (xs ++ (t ∷ []))
unfolding mem_id
Distinct-snoc t [] d h = (refl, tt)
Distinct-snoc t (x ∷ xs) d h =
    (ground (arith, mem_id-append x xs (t ∷ [])), Distinct-snoc t xs d.1 (ground arith))

mem_id-remove : (x t : ℕ) (xs : List ℕ) → mem_id x xs ≡ false → mem_id x (remove t xs) ≡ false
unfolding mem_id remove
mem_id-remove x t [] h = refl
mem_id-remove x t (y ∷ ys) h = ground (arith, mem_id-remove x t ys)

Distinct-remove : (t : ℕ) (xs : List ℕ) → Distinct xs → Distinct (remove t xs)
unfolding remove
Distinct-remove t [] d = tt
Distinct-remove t (x ∷ xs) d = elim (Bool-cases (x == t)) [
  | inl e ↦ rw e d.1
  | inr e ↦ rw e (mem_id-remove x t xs d.0, Distinct-remove t xs d.1)
]

remove-append :
    (t : ℕ) (xs ys : List ℕ) → mem_id t xs ≡ false → remove t (xs ++ ys) ≡ xs ++ remove t ys
unfolding mem_id remove
remove-append t [] ys h = refl
remove-append t (x ∷ xs) ys h = elim (Bool-cases (x == t)) [
  | inl e ↦ absurd (ground arith)
  | inr e ↦ rw e (ap (λ l. x ∷ l) (remove-append t xs ys (ground arith)))
]

remove_none : (t : ℕ) (xs : List ℕ) → mem_id t xs ≡ false → remove t xs ≡ xs
unfolding mem_id remove
remove_none t [] h = refl
remove_none t (x ∷ xs) h = ground (arith, remove_none t xs)

-- A ticket in the second part is not in the first.
Distinct-apart :
    (t : ℕ) (xs ys : List ℕ) → Distinct (xs ++ ys) → mem_id t ys ≡ true → mem_id t xs ≡ false
unfolding mem_id
Distinct-apart t [] ys d h = refl
Distinct-apart t (x ∷ xs) ys d h =
    ground (arith, ==_iff x t, mem_id-append t xs ys, Distinct-apart t xs ys d.1 h)

pub record InOrder (g : Gate) (came let_in : List ℕ) : Type 0 where
  pub order : came ≡ let_in ++ g.waiters
  pub distinct : Distinct came
  pub queue : g.busy ≡ false → g.waiters ≡ []

-- A call that comes in at once, and one that waits.
in_at_once :
    (t : ℕ) (g h : Gate) (came let_in : List ℕ)
    → InOrder g came let_in
    → mem_id t came ≡ false
    → g.busy ≡ false
    → h.busy ≡ true
    → h.waiters ≡ g.waiters
    → InOrder h (came ++ (t ∷ [])) (let_in ++ (t ∷ []))
in_at_once t g h came let_in i n b c w =
    let empty = i.queue b in
    record {
      order =
          ap (λ l. l ++ (t ∷ [])) (i.order ∙ ap (λ l. let_in ++ l) empty ∙ append-nil let_in)
          ∙ sym (ap (λ l. (let_in ++ (t ∷ [])) ++ l) (w ∙ empty) ∙ append-nil (let_in ++ (t ∷ [])));
      distinct = Distinct-snoc t came i.distinct n;
      queue = λ e. cc;
    }

acquire-InOrder :
    (t : ℕ) (g : Gate) (came let_in : List ℕ)
    → InOrder g came let_in
    → mem_id t came ≡ false
    → InOrder (acquire t g) (came ++ (t ∷ [])) (if g.busy then let_in else let_in ++ (t ∷ []))
unfolding acquire
acquire-InOrder t g came let_in i n = elim (Bool-cases g.busy) [
  | inl b ↦ simp b (record {
    order = ap (λ l. l ++ (t ∷ [])) i.order ∙ append_assoc let_in g.waiters (t ∷ []);
    distinct = Distinct-snoc t came i.distinct n;
    queue = λ e. cc;
  })
  | inr b ↦ simp b (in_at_once t g _ came let_in i n b refl refl)
]

try_acquire-InOrder :
    (t : ℕ) (g : Gate) (came let_in : List ℕ)
    → InOrder g came let_in
    → mem_id t came ≡ false
    → InOrder
        (try_acquire t g).1
        (if g.busy then came else came ++ (t ∷ []))
        (if g.busy then let_in else let_in ++ (t ∷ []))
unfolding try_acquire
try_acquire-InOrder t g came let_in i n = elim (Bool-cases g.busy) [
  | inl b ↦ simp b i
  | inr b ↦ simp b (in_at_once t g _ came let_in i n b refl refl)
]

give_up-InOrder :
    (t : ℕ) (g : Gate) (came let_in : List ℕ)
    → InOrder g came let_in
    → InOrder (give_up t g) (if mem_id t g.waiters then remove t came else came) let_in
unfolding give_up
give_up-InOrder t g came let_in i = elim (Bool-cases (mem_id t g.waiters)) [
  | inl m ↦ rw m (record {
    order =
        ap (remove t) i.order
        ∙ remove-append t let_in g.waiters
            (Distinct-apart t let_in g.waiters (subst Distinct i.order i.distinct) m);
    distinct = Distinct-remove t came i.distinct;
    queue = λ b. ap (remove t) (i.queue b) ∙ unfold remove in refl;
  })
  | inr m ↦ rw m (record {
    order = i.order ∙ ap (λ l. let_in ++ l) (sym (remove_none t g.waiters m));
    distinct = i.distinct;
    queue = λ b. ap (remove t) (i.queue b) ∙ unfold remove in refl;
  })
]

hand_off-InOrder :
    (hs ws : List ℕ) (g : Gate) (came let_in : List ℕ)
    → g.waiters ≡ ws
    → (g.busy ≡ false → ws ≡ [])
    → came ≡ let_in ++ ws
    → Distinct came
    → InOrder (hand_off ws (record g { holders = hs })) came (let_in ++ front_of ws)
hand_off-InOrder hs [] g came let_in w q o d = record {
  order = o ∙ ap (λ l. let_in ++ l) (sym w) ∙ sym (ap (λ l. l ++ g.waiters) (append-nil let_in));
  distinct = d;
  queue = λ e. w;
}
hand_off-InOrder hs (x ∷ ws) g came let_in w q o d = record {
  order = o ∙ sym (append_assoc let_in (x ∷ []) ws);
  distinct = d;
  queue = λ e. let z = q e in cc;
}

pub Turns-InOrder : {g : Gate} {came let_in : List ℕ} → Turns g came let_in → InOrder g came let_in
unfolding wake release
Turns-InOrder opened = record { order = refl; distinct = tt; queue = λ e. refl }
Turns-InOrder (acquires t p n) = acquire-InOrder t _ _ _ (Turns-InOrder p) n
Turns-InOrder (tries t p n) = try_acquire-InOrder t _ _ _ (Turns-InOrder p) n
Turns-InOrder (wakes t p m) =
    let i = Turns-InOrder p in record { order = i.order; distinct = i.distinct; queue = i.queue }
Turns-InOrder (gives_up t p m) = give_up-InOrder t _ _ _ (Turns-InOrder p)
Turns-InOrder (releases t {g} {came} {let_in} p m) =
    let i = Turns-InOrder p in
    hand_off-InOrder (remove t g.holders) g.waiters g came let_in refl i.queue i.order i.distinct
