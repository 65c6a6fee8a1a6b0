-- ===== src/Chat/Trigger/Marks.antt =====
-- Which messages pass the trigger of bridge/chat/trigger.go, and as what.
use claw.Prelude.{
  ℕ, true, false, some, [], ◌∷◌, ◌++◌, append_assoc, ◌≡◌, ◌⊎◌, ◌↔◌, inl, inr, refl, sym, ap, ◌∙◌,
  arith, Bytes, is_nil, has_prefix, trim_prefix, trim_space, Bool-cases, ◌==◌,
}
use claw.Prelude.Text.Trims.{trim_prefix-append, has_prefix-split}
use claw.Chat.Trigger.{unless_blank, strip_trigger}

-- The trigger, a space or a colon, and a rest that is the text once it is trimmed.
pub record Marked (trigger text said : Bytes) : Type 0 where
  pub sep : ℕ
  pub rest : Bytes
  pub is_sep : (sep ≡ b' ') ⊎ (sep ≡ b':')
  pub made_of : text ≡ trigger ++ (sep ∷ rest)
  pub trimmed : said ≡ trim_space rest
  pub not_blank : is_nil said ≡ false

unless_blank-some :
    (t said : Bytes) → unless_blank t ≡ some said → (said ≡ t) × (is_nil said ≡ false)
unless_blank-some t said e = elim (Bool-cases (is_nil t)) [
  | inl blank ↦ absurd ground arith
  | inr full ↦ (ground arith, ground arith)
]

cut :
    (trigger text : Bytes) (sep : ℕ)
    → has_prefix text (trigger ++ (sep ∷ [])) ≡ true
    → text ≡ trigger ++ (sep ∷ trim_prefix text (trigger ++ (sep ∷ [])))
unfolding trim_prefix
cut trigger text sep h =
    rw h (sym (has_prefix-split text (trigger ++ (sep ∷ [])) h) ∙ append_assoc trigger (sep ∷ []) _)

found_at :
    (trigger text said : Bytes) (sep : ℕ)
    → (sep ≡ b' ') ⊎ (sep ≡ b':')
    → has_prefix text (trigger ++ (sep ∷ [])) ≡ true
    → unless_blank (trim_space (trim_prefix text (trigger ++ (sep ∷ [])))) ≡ some said
    → Marked trigger text said
found_at trigger text said sep s h e =
    let (same, full) =
      unless_blank-some (trim_space (trim_prefix text (trigger ++ (sep ∷ [])))) said e in
    record {
      sep = sep;
      rest = trim_prefix text (trigger ++ (sep ∷ []));
      is_sep = s;
      made_of = cut trigger text sep h;
      trimmed = same;
      not_blank = full;
    }

sep-prefix : (p r : Bytes) (c d : ℕ) → has_prefix (p ++ (c ∷ r)) (p ++ (d ∷ [])) ≡ (c == d)
unfolding has_prefix
sep-prefix [] r c d = ground arith
sep-prefix (x ∷ p) r c d = ground (arith, sep-prefix p r c d)

found :
    (trigger text said : Bytes) → strip_trigger trigger text ≡ some said → Marked trigger text said
unfolding strip_trigger
found trigger text said e = elim (Bool-cases (has_prefix text (trigger ++ (b' ' ∷ [])))) [
  | inl h ↦ found_at trigger text said b' ' (inl refl) h (ground arith)
  | inr n ↦ elim (Bool-cases (has_prefix text (trigger ++ (b':' ∷ [])))) [
    | inl h ↦ found_at trigger text said b':' (inr refl) h (ground arith)
    | inr m ↦ absurd ground arith
  ]
]

trimmed-at :
    (trigger rest : Bytes) (sep : ℕ)
    → trim_prefix (trigger ++ (sep ∷ rest)) (trigger ++ (sep ∷ [])) ≡ rest
trimmed-at trigger rest sep =
    ap (λ t. trim_prefix t (trigger ++ (sep ∷ []))) (sym (append_assoc trigger (sep ∷ []) rest))
    ∙ trim_prefix-append (trigger ++ (sep ∷ [])) rest

passed :
    (trigger rest : Bytes) (sep : ℕ)
    → (sep ≡ b' ') ⊎ (sep ≡ b':')
    → is_nil (trim_space rest) ≡ false
    → strip_trigger trigger (trigger ++ (sep ∷ rest)) ≡ some (trim_space rest)
unfolding strip_trigger
passed trigger rest sep (inl e) full =
    rw e (ground (arith, sep-prefix trigger rest b' ' b' ', trimmed-at trigger rest b' '))
passed trigger rest sep (inr e) full = rw e (
    ground (
      arith,
      sep-prefix trigger rest b':' b' ',
      sep-prefix trigger rest b':' b':',
      trimmed-at trigger rest b':',
    ))

-- A text passes the trigger, as what is said, exactly if it is the trigger, a space or a colon, and
-- a rest that is not blank and trimmed is what is said.
pub strip_trigger-Marked :
    (trigger text said : Bytes)
    → (strip_trigger trigger text ≡ some said) ↔ Marked trigger text said
strip_trigger-Marked trigger text said = (
  found trigger text said,
  λ (m : Marked trigger text said).
      rw (m.made_of, m.trimmed)
        (passed trigger m.rest m.sep m.is_sep
          (ap (λ (t : Bytes). is_nil t) (sym m.trimmed) ∙ m.not_blank)),
)
