-- ===== src/Prelude/Text/Splits.antt =====
-- Texts split at a separator and joined again.
use claw.Prelude.{
  ℕ, List, [], ◌∷◌, ◌++◌, ◌≡◌, ◌≢◌, inl, inr, refl, ap, ◌∙◌, arith, Bytes, split, join, Bool-cases,
  All, onto_first, ◌==◌,
}
use claw.Prelude.Text.Trims.{Lacks}

module _ (sep : ℕ) where
  abbrev pub AllLack : List Bytes → Type 0
  AllLack ls = All (Lacks sep) ls

  onto_first-AllLack : (c : ℕ) (ls : List Bytes) → c ≢ sep → AllLack ls → AllLack (onto_first c ls)
  onto_first-AllLack c [] h k = ((h, tt), tt)
  onto_first-AllLack c (l ∷ ls) h k = ((h, k.0), k.1)

  pub split-AllLack : (s : Bytes) → AllLack (split s sep)
  unfolding split
  split-AllLack [] = (tt, tt)
  split-AllLack (c ∷ s) = elim (Bool-cases (c == sep)) [
    | inl e ↦ rw e (tt, split-AllLack s)
    | inr e ↦
        rw e (onto_first-AllLack c (split s sep) (λ p. ground (arith, p, e)) (split-AllLack s))
  ]

  -- Splitting undoes a join of parts that lack the separator.
  pub split-cons : (p s : Bytes) → Lacks sep p → split (p ++ (sep ∷ s)) sep ≡ p ∷ split s sep
  unfolding split
  split-cons [] s h = ground arith
  split-cons (c ∷ p) s h = ground (arith, split-cons p s h.1)

  pub split-alone : (p : Bytes) → Lacks sep p → split p sep ≡ p ∷ []
  unfolding split
  split-alone [] h = refl
  split-alone (c ∷ p) h = ground (arith, split-alone p h.1)

  pub split-join :
      (l : Bytes) (ls : List Bytes)
      → AllLack (l ∷ ls)
      → split (join (l ∷ ls) (sep ∷ [])) sep ≡ l ∷ ls
  unfolding join
  split-join l [] h = split-alone l h.0
  split-join l (k ∷ ls) h =
      split-cons l (join (k ∷ ls) (sep ∷ [])) h.0 ∙ ap (λ x. l ∷ x) (split-join k ls h.1)
