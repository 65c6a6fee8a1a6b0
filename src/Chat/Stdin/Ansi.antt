-- ===== src/Chat/Stdin/Ansi.antt =====
-- bridge/chat/stdin.go: `stripANSI`, which takes out what matches `\x1b\[[0-9;?]*[ -/]*[@-~]`.
-- The three classes of the pattern have no rune in common, so that a match is found without
-- going back.
use claw.Prelude.{
  ℕ, zero, suc, ◌≤◌, ◌<◌, Bool, ◌&&◌, ◌||◌, Option, none, some, [], ◌∷◌, ◌++◌, ◌≡◌, ◌≢◌, refl, ap,
  arith, leb, ◌==◌, ==_iff, if◌then◌else◌, length, All, Bytes, Option-cases, inl, inr,
}
use claw.Termstyle.{reset, dim_style}

abbrev pub esc : ℕ
esc = 0x1B

is_parameter : ℕ → Bool
is_parameter c = (leb b'0' c && leb c b'9') || c == b';' || c == b'?'

is_intermediate : ℕ → Bool
is_intermediate c = leb 0x20 c && leb c 0x2F

is_final : ℕ → Bool
is_final c = leb 0x40 c && leb c 0x7E

skip_while : (ℕ → Bool) → Bytes → Bytes
skip_while p [] = []
skip_while p (c ∷ s) = let rest = skip_while p s in if p c then rest else c ∷ s

behind_final : Bytes → Option Bytes
behind_final [] = none
behind_final (c ∷ s) = if is_final c then some s else none

behind_bracket : Bytes → Option Bytes
behind_bracket [] = none
behind_bracket (c ∷ s) =
    if c == b'['
    then behind_final (skip_while is_intermediate (skip_while is_parameter s))
    else none

-- What stands behind a sequence at the start of the text.
match_ansi : Bytes → Option Bytes
match_ansi [] = none
match_ansi (c ∷ s) = if c == esc then behind_bracket s else none

-- `ReplaceAllString`, on fuel above the length of the text.
strip_from : ℕ → Bytes → Bytes
strip_from zero s = s
strip_from (suc n) [] = []
strip_from (suc n) (c ∷ s) = elim (match_ansi (c ∷ s)) [
  | none ↦ c ∷ strip_from n s
  | some rest ↦ strip_from n rest
]

unfoldable pub strip_ansi : Bytes → Bytes
unfolding strip_from match_ansi behind_bracket behind_final skip_while is_parameter is_intermediate
    is_final
strip_ansi s = strip_from (suc (length s)) s

length-skip_while : (p : ℕ → Bool) (s : Bytes) → length (skip_while p s) ≤ length s
unfolding skip_while
length-skip_while p [] = omega arith
length-skip_while p (c ∷ s) = ground (arith, length-skip_while p s)

behind_final-lt : (s r : Bytes) → behind_final s ≡ some r → length r < length s
unfolding behind_final
behind_final-lt [] r h = cc
behind_final-lt (c ∷ s) r h = ground arith

behind_bracket-lt : (s r : Bytes) → behind_bracket s ≡ some r → length r < length s
unfolding behind_bracket
behind_bracket-lt [] r h = cc
behind_bracket-lt (c ∷ s) r h =
    let t = skip_while is_parameter s in
    ground (
      arith,
      behind_final-lt (skip_while is_intermediate t) r,
      length-skip_while is_intermediate t,
      length-skip_while is_parameter s,
    )

match_ansi-lt : (s r : Bytes) → match_ansi s ≡ some r → length r < length s
unfolding match_ansi
match_ansi-lt [] r h = cc
match_ansi-lt (c ∷ s) r h = ground (arith, behind_bracket-lt s r)

strip_from-fuel :
    (m n : ℕ) (s : Bytes) → length s < m → length s < n → strip_from m s ≡ strip_from n s
unfolding strip_from
strip_from-fuel zero n s h k = absurd (omega arith)
strip_from-fuel (suc m) zero s h k = absurd (omega arith)
strip_from-fuel (suc m) (suc n) [] h k = refl
strip_from-fuel (suc m) (suc n) (c ∷ s) h k = elim (Option-cases (match_ansi (c ∷ s))) [
  | inl e ↦ rw (e, strip_from) (ap (◌∷◌ c) (strip_from-fuel m n s (omega arith) (omega arith)))
  | inr (r, e) ↦
      let shorter = match_ansi-lt (c ∷ s) r e in
      rw (e, strip_from) (strip_from-fuel m n r (omega arith) (omega arith))
]

-- A sequence in front is taken out.
strip_ansi-match : (s r : Bytes) → match_ansi s ≡ some r → strip_ansi s ≡ strip_ansi r
unfolding strip_ansi strip_from
strip_ansi-match [] r h = unfold match_ansi in cc
strip_ansi-match (c ∷ s) r h =
    let shorter = match_ansi-lt (c ∷ s) r h in
    rw (h, strip_from)
      (strip_from-fuel (suc (length s)) (suc (length r)) r (omega arith) (omega arith))

pub strip_ansi-reset : (s : Bytes) → strip_ansi (reset ++ s) ≡ strip_ansi s
unfolding match_ansi behind_bracket behind_final skip_while is_parameter is_intermediate is_final
strip_ansi-reset s = strip_ansi-match (reset ++ s) s refl

pub strip_ansi-dim_style : (s : Bytes) → strip_ansi (dim_style ++ s) ≡ strip_ansi s
unfolding match_ansi behind_bracket behind_final skip_while is_parameter is_intermediate is_final
strip_ansi-dim_style s = strip_ansi-match (dim_style ++ s) s refl

abbrev pub Plain : Bytes → Type 0
Plain s = All (λ c. c ≢ esc) s

-- A text without the escape rune stays as it is.
pub strip_ansi-Plain : (s : Bytes) → Plain s → strip_ansi s ≡ s
unfolding strip_ansi
strip_ansi-Plain s h = on_fuel (suc (length s)) s h
  where
    on_fuel : (n : ℕ) (s : Bytes) → Plain s → strip_from n s ≡ s
    on_fuel zero s h = refl
    on_fuel (suc n) [] h = refl
    on_fuel (suc n) (c ∷ s) h = ground (arith, ==_iff c esc, on_fuel n s h.1)
