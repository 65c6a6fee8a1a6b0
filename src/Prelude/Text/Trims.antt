-- ===== src/Prelude/Text/Trims.antt =====
-- Laws of the functions on texts that the modules of bridge/ use.
use claw.Prelude.{
  ℕ, ◌≡◌, ◌≢◌, ◌↔◌, inl, inr, refl, true, false, ◌&&◌, [], ◌∷◌, ◌++◌, arith, Bytes, Bool-cases,
  ==_iff, length, drop, All, is_nil, same_text, is_space, trim_left, trim_right, trim_space,
  has_prefix, trim_prefix, before, behind, contains,
}

-- A text is blank or starts, once trimmed at the left, with a rune that is no space.
pub data LeftTrimmed (s : Bytes) : Type 0 where
  blank : trim_left s ≡ [] → LeftTrimmed s
  starts : (c : ℕ) (rest : Bytes) → is_space c ≡ false → trim_left s ≡ c ∷ rest → LeftTrimmed s

pub trim_left-cases : (s : Bytes) → LeftTrimmed s
unfolding trim_left
trim_left-cases [] = blank refl
trim_left-cases (c ∷ s) = elim (Bool-cases (is_space c)) [
  | inr e ↦ starts c s e (rw e)
  | inl e ↦ elim (trim_left-cases s) [
    | blank h ↦ blank (rw (e, h))
    | starts d rest hd h ↦ starts d rest hd (rw (e, h))
  ]
]

pub trim_right_idem : (s : Bytes) → trim_right (trim_right s) ≡ trim_right s
unfolding trim_right
trim_right_idem [] = refl
trim_right_idem (c ∷ s) = elim (Bool-cases (is_space c && is_nil (trim_right s))) [
  | inl e ↦ rw e
  | inr e ↦ rw (e, trim_right_idem s, e)
]

trim_right-newline : (s : Bytes) → trim_right (s ++ (b'\n' ∷ [])) ≡ trim_right s
unfolding trim_right is_space
trim_right-newline [] = refl
trim_right-newline (c ∷ s) = rw (trim_right-newline s)

trim_right-starts : (c : ℕ) (s : Bytes) → is_space c ≡ false → trim_right (c ∷ s) ≡ c ∷ trim_right s
unfolding trim_right
trim_right-starts c s e = rw e

trim_left-starts : (c : ℕ) (s : Bytes) → is_space c ≡ false → trim_left (c ∷ s) ≡ c ∷ s
unfolding trim_left
trim_left-starts c s e = rw e

-- A trimmed text that is written with a newline is read back by trimming.
pub trim_space-newline : (s : Bytes) → trim_space (trim_space s ++ (b'\n' ∷ [])) ≡ trim_space s
unfolding trim_space
trim_space-newline s = elim (trim_left-cases s) [
  | blank h ↦ rw h (unfold trim_left trim_right is_space in refl)
  | starts c rest e h ↦ rw (
    h,
    trim_right-starts c rest e,
    trim_left-starts c (trim_right rest ++ (b'\n' ∷ [])) e,
    trim_right-newline (c ∷ trim_right rest),
    trim_right-starts c (trim_right rest) e,
    trim_right_idem rest,
  )
]

-- A trimmed text is trimmed.
pub trim_space_idem : (s : Bytes) → trim_space (trim_space s) ≡ trim_space s
unfolding trim_space
trim_space_idem s = elim (trim_left-cases s) [
  | blank h ↦ rw h (unfold trim_left trim_right in refl)
  | starts c rest e h ↦ rw (
    h,
    trim_right-starts c rest e,
    trim_left-starts c (trim_right rest) e,
    trim_right-starts c (trim_right rest) e,
    trim_right_idem rest,
  )
]

-- A prefix is found where it was put, and cut off again.
pub has_prefix-append : (p s : Bytes) → has_prefix (p ++ s) p ≡ true
unfolding has_prefix
has_prefix-append [] s = refl
has_prefix-append (c ∷ p) s = ground (arith, has_prefix-append p s)

drop-append : (p s : Bytes) → drop (length p) (p ++ s) ≡ s
drop-append [] s = refl
drop-append (c ∷ p) s = drop-append p s

pub trim_prefix-append : (p s : Bytes) → trim_prefix (p ++ s) p ≡ s
unfolding trim_prefix
trim_prefix-append p s = rw (has_prefix-append p s) (drop-append p s)

-- A text that has a prefix is the prefix and the rest.
pub has_prefix-split : (s p : Bytes) → has_prefix s p ≡ true → p ++ drop (length p) s ≡ s
unfolding has_prefix
has_prefix-split s [] h = refl
has_prefix-split [] (c ∷ p) h = ground arith
has_prefix-split (d ∷ s) (c ∷ p) h = ground (arith, has_prefix-split s p)

-- At a separator that the front does not hold, a text falls apart into what it was made of.
abbrev pub Lacks : ℕ → Bytes → Type 0
Lacks c s = All (λ d. d ≢ c) s

pub before-append : (s t : Bytes) (c : ℕ) → Lacks c s → before (s ++ (c ∷ t)) c ≡ s
unfolding before
before-append [] t c h = ground arith
before-append (d ∷ s) t c h = ground (arith, before-append s t c h.1)

pub behind-append : (s t : Bytes) (c : ℕ) → Lacks c s → behind (s ++ (c ∷ t)) c ≡ t
unfolding behind
behind-append [] t c h = ground arith
behind-append (d ∷ s) t c h = ground (arith, behind-append s t c h.1)

pub same_text_iff : (s t : Bytes) → (same_text s t ≡ true) ↔ (s ≡ t)
unfolding same_text
same_text_iff [] [] = ground arith
same_text_iff [] (d ∷ t) = ground arith
same_text_iff (c ∷ s) [] = ground arith
same_text_iff (c ∷ s) (d ∷ t) = ground (arith, ==_iff c d, same_text_iff s t)

-- A separator that a text lacks does not cut it.
pub before-all : (s : Bytes) (c : ℕ) → Lacks c s → before s c ≡ s
unfolding before
before-all [] c h = refl
before-all (d ∷ s) c h = ground (arith, before-all s c h.1)

contains-prefix : (s p : Bytes) → has_prefix s p ≡ true → contains s p ≡ true
unfolding contains has_prefix
contains-prefix [] [] h = refl
contains-prefix [] (c ∷ p) h = h
contains-prefix (d ∷ s) p h = ground arith

-- A text contains what was put into it.
pub contains-append : (s p t : Bytes) → contains (s ++ (p ++ t)) p ≡ true
unfolding contains
contains-append [] p t = contains-prefix (p ++ t) p (has_prefix-append p t)
contains-append (c ∷ s) p t = ground (arith, contains-append s p t)
