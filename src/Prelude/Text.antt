-- ===== src/Prelude/Text.antt =====
-- Texts as lists of runes, and what Go's package strings does with them.
pub mod Trims
pub mod Splits
use Prim.Native.Nat.{ℕ, ◌+◌}
use Prim.Native.Char.{code}
use Prim.Native.String.{String}
use mathlib.Core.Path.{◌≡◌, refl}
use mathlib.Core.Logic.{◌↔◌, ◌⊎◌, inl, inr}
use mathlib.Core.Bool.{Bool, true, false, ◌&&◌, ◌||◌}
use mathlib.Core.Option.{Option, none, some}
use mathlib.Core.List.{List, [], ◌∷◌, ◌++◌}
use native.Mathlib.Omega.{arith}
use claw.Prelude.Tests.{if◌then◌else◌, leb, ◌==◌, ==_iff, Bool-cases}
use claw.Prelude.Lists.{length, drop}

-- The runes of a literal.
abbrev pub codes : String → List ℕ
codes String.[] = []
codes (String.◌∷◌ c s) = code c ∷ codes s

abbrev pub is_nil {ℓ} : {A : Type ℓ} → List A → Bool
is_nil [] = true
is_nil (c ∷ s) = false

unfoldable pub same_text : List ℕ → List ℕ → Bool
same_text [] [] = true
same_text (c ∷ s) (d ∷ t) = c == d && same_text s t
same_text _ _ = false

-- `unicode.IsSpace`
unfoldable pub is_space : ℕ → Bool
is_space c =
    (leb 9 c && leb c 13)
    || c == 32
    || c == 0x85
    || c == 0xA0
    || c == 0x1680
    || (leb 0x2000 c && leb c 0x200A)
    || c == 0x2028
    || c == 0x2029
    || c == 0x202F
    || c == 0x205F
    || c == 0x3000

unfoldable pub trim_left : List ℕ → List ℕ
trim_left [] = []
trim_left (c ∷ s) = let rest = trim_left s in if is_space c then rest else c ∷ s

unfoldable pub trim_right : List ℕ → List ℕ
trim_right [] = []
trim_right (c ∷ s) = let rest = trim_right s in if is_space c && is_nil rest then [] else c ∷ rest

-- `strings.TrimSpace`
unfoldable pub trim_space : List ℕ → List ℕ
trim_space s = trim_right (trim_left s)

unfoldable pub has_prefix : List ℕ → List ℕ → Bool
has_prefix s [] = true
has_prefix [] (p ∷ ps) = false
has_prefix (c ∷ s) (p ∷ ps) = c == p && has_prefix s ps

unfoldable pub trim_prefix : List ℕ → List ℕ → List ℕ
trim_prefix s p = if has_prefix s p then drop (length p) s else s

unfoldable pub contains : List ℕ → List ℕ → Bool
contains [] p = is_nil p
contains (c ∷ s) p = let later = contains s p in has_prefix (c ∷ s) p || later

unfoldable pub contains_rune : List ℕ → ℕ → Bool
contains_rune [] c = false
contains_rune (d ∷ s) c = d == c || contains_rune s c

-- What stands before the first separator, and behind it: `strings.SplitN(s, sep, 2)`.
unfoldable pub before : List ℕ → ℕ → List ℕ
before [] c = []
before (d ∷ s) c = let rest = before s c in if d == c then [] else d ∷ rest

unfoldable pub behind : List ℕ → ℕ → List ℕ
behind [] c = []
behind (d ∷ s) c = let rest = behind s c in if d == c then s else rest

abbrev pub onto_first : ℕ → List (List ℕ) → List (List ℕ)
onto_first c [] = (c ∷ []) ∷ []
onto_first c (p ∷ ps) = (c ∷ p) ∷ ps

-- `strings.Split` at one rune
unfoldable pub split : List ℕ → ℕ → List (List ℕ)
split [] c = [] ∷ []
split (d ∷ s) c = let rest = split s c in if d == c then [] ∷ rest else onto_first d rest

-- `strings.Join`
unfoldable pub join : List (List ℕ) → List ℕ → List ℕ
join [] sep = []
join (p ∷ []) sep = p
join (p ∷ q ∷ ps) sep = p ++ (sep ++ join (q ∷ ps) sep)

unfoldable pub has_suffix : List ℕ → List ℕ → Bool
has_suffix [] p = is_nil p
has_suffix (c ∷ s) p = same_text (c ∷ s) p || has_suffix s p

unfoldable pub trim_suffix : List ℕ → List ℕ → List ℕ
trim_suffix [] p = []
trim_suffix (c ∷ s) p = let rest = trim_suffix s p in if same_text (c ∷ s) p then [] else c ∷ rest
