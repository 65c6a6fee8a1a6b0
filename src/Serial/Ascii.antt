-- ===== src/Serial/Ascii.antt =====
-- bridge/serial/ascii.go: the text that may go over the link.
-- A Go string is the list of its runes, as `range` yields them; the results are ASCII, so that
-- their runes are their bytes.
use mathlib.Core.List.{map}
use claw.Prelude.{
  ℕ, ◌-◌, Bool, ◌&&◌, ◌||◌, [], ◌∷◌, ◌++◌, ◌≡◌, arith, refl, leb, ◌==◌, if◌then◌else◌, All, Bytes,
  true, false, ap, ap₂, ◌∙◌,
}

abbrev within : ℕ → ℕ → ℕ → Bool
within lo hi c = leb lo c && leb c hi

-- What `asciiReplacer` puts for one rune, besides "\r\n".
replacement : ℕ → Bytes
replacement r =
    if r == b'\r'
    then b'\n' ∷ []
    else if r == 0x2019 || r == 0x2018
    then b'\'' ∷ []
    else if r == 0x201C || r == 0x201D
    then b'"' ∷ []
    else if r == 0x2013 || r == 0x2014
    then b'-' ∷ []
    else if r == 0x2026
    then b'.' ∷ b'.' ∷ b'.' ∷ []
    else if r == 0xA0
    then b' ' ∷ []
    else if r == 0xE4
    then b'a' ∷ b'e' ∷ []
    else if r == 0xF6
    then b'o' ∷ b'e' ∷ []
    else if r == 0xFC
    then b'u' ∷ b'e' ∷ []
    else if r == 0xC4
    then b'A' ∷ b'e' ∷ []
    else if r == 0xD6
    then b'O' ∷ b'e' ∷ []
    else if r == 0xDC
    then b'U' ∷ b'e' ∷ []
    else if r == 0xDF
    then b's' ∷ b's' ∷ []
    else r ∷ []

-- `asciiReplacer.Replace`: at each place the first pair of the table that fits, with no overlap.
-- "\r\n" stands before "\r" in the table, and gives the same "\n".
replace_from : Bool → Bytes → Bytes
replace_from after_cr [] = []
replace_from after_cr (r ∷ rs) =
    let rest = replace_from (r == b'\r') rs in
    if after_cr && r == b'\n' then rest else replacement r ++ rest

unfoldable pub replace : Bytes → Bytes
unfolding replace_from replacement
replace = replace_from false

-- The first `switch`: what is written for a rune.
ascii_rune : ℕ → ℕ
ascii_rune r = if r == b'\n' || r == b'\t' then r else if within 0x20 0x7E r then r else b'?'

unfoldable pub to_ascii : Bytes → Bytes
unfolding ascii_rune replace
to_ascii s = map ascii_rune (replace s)

-- `strings.ToUpper` on ASCII text.
upper : ℕ → ℕ
upper c = if within b'a' b'z' c then c - 32 else c

abbrev contains : Bytes → ℕ → Bool
contains [] c = false
contains (x ∷ xs) c = x == c || contains xs c

-- " .,:;!?()'\"+-=*/"
abbrev punctuation : Bytes
punctuation =
    b' ' ∷ b'.' ∷ b',' ∷ b':' ∷ b';' ∷ b'!' ∷ b'?' ∷ b'(' ∷ b')' ∷ b'\'' ∷ b'"' ∷ b'+' ∷ b'-' ∷ b'='
    ∷ b'*' ∷ b'/' ∷ []

-- The `switch` of `ToC64Text`.
c64_rune : ℕ → ℕ
c64_rune r =
    if r == b'\n'
    then r
    else if within b'A' b'Z' r
    then r
    else if within b'0' b'9' r
    then r
    else if contains punctuation r
    then r
    else if r == b'`'
    then b'\''
    else if r == b'[' || r == b'{'
    then b'('
    else if r == b']' || r == b'}'
    then b')'
    else if r == b'\\'
    then b'/'
    else b' '

unfoldable pub to_c64_text : Bytes → Bytes
unfolding c64_rune upper
to_c64_text s = map c64_rune (map upper (to_ascii s))

-- The characters that `to_c64_text` may write.
abbrev pub is_c64 : ℕ → Bool
is_c64 c = c == b'\n' || within b'A' b'Z' c || within b'0' b'9' c || contains punctuation c

-- What `to_ascii` may write.
abbrev pub is_ascii : ℕ → Bool
is_ascii c = c == b'\n' || c == b'\t' || within 0x20 0x7E c

abbrev pub AllOf : (ℕ → Bool) → Bytes → Type 0
AllOf p = All (λ c. p c ≡ true)

All-map : (P : ℕ → Type 0) (f : ℕ → ℕ) → ((c : ℕ) → P (f c)) → (s : Bytes) → All P (map f s)
All-map P f h [] = tt
All-map P f h (c ∷ s) = (h c, All-map P f h s)

map_fixed :
    (p : ℕ → Bool) (f : ℕ → ℕ)
    → ((c : ℕ) → p c ≡ true → f c ≡ c)
    → (s : Bytes) → AllOf p s
    → map f s ≡ s
map_fixed p f h [] a = refl
map_fixed p f h (c ∷ s) a = ap₂ ◌∷◌ (h c a.0) (map_fixed p f h s a.1)

ascii_rune-is_ascii : (r : ℕ) → is_ascii (ascii_rune r) ≡ true
unfolding ascii_rune
ascii_rune-is_ascii r = ground arith

ascii_rune_fixed : (r : ℕ) → is_ascii r ≡ true → ascii_rune r ≡ r
unfolding ascii_rune
ascii_rune_fixed r h = ground arith

replacement_fixed : (r : ℕ) → is_ascii r ≡ true → replacement r ≡ r ∷ []
unfolding replacement
replacement_fixed r h = ground arith

replace_from_fixed : (s : Bytes) → AllOf is_ascii s → replace_from false s ≡ s
unfolding replace_from
replace_from_fixed [] h = refl
replace_from_fixed (r ∷ rs) h =
    let plain : (r == b'\r') ≡ false = ground arith in
    rw plain (rw (replacement_fixed r h.0) (ap (◌∷◌ r) (replace_from_fixed rs h.1)))

-- `ToASCII` writes newlines, tabs and printable 7-bit characters only, whatever text it is given,
-- and leaves a text of such characters as it is.
pub to_ascii-is_ascii :
    (s : Bytes) → AllOf is_ascii (to_ascii s) × (AllOf is_ascii s → to_ascii s ≡ s)
unfolding to_ascii
to_ascii-is_ascii s = (
  All-map (λ c. is_ascii c ≡ true) ascii_rune ascii_rune-is_ascii (replace s),
  λ h.
      ap (map ascii_rune) (replace_from_fixed s h)
      ∙ map_fixed is_ascii ascii_rune ascii_rune_fixed s h,
)

c64_rune-is_c64 : (r : ℕ) → is_c64 (c64_rune r) ≡ true
unfolding c64_rune
c64_rune-is_c64 r = ground arith

c64_rune_fixed : (c : ℕ) → is_c64 c ≡ true → c64_rune c ≡ c
unfolding c64_rune
c64_rune_fixed c h = ground arith

upper_fixed : (c : ℕ) → is_c64 c ≡ true → upper c ≡ c
unfolding upper
upper_fixed c h = ground arith

is_c64-is_ascii : (c : ℕ) → is_c64 c ≡ true → is_ascii c ≡ true
is_c64-is_ascii c h = ground arith

All-is_ascii : (s : Bytes) → AllOf is_c64 s → AllOf is_ascii s
All-is_ascii [] h = tt
All-is_ascii (c ∷ s) h = (is_c64-is_ascii c h.0, All-is_ascii s h.1)

-- `ToC64Text` writes newlines, upper-case letters, digits, the space and fifteen marks only, and
-- a second pass changes nothing.
pub to_c64_text-is_c64 :
    (s : Bytes) → AllOf is_c64 (to_c64_text s) × (to_c64_text (to_c64_text s) ≡ to_c64_text s)
unfolding to_c64_text
to_c64_text-is_c64 s = (clean s, fixed (to_c64_text s) (clean s))
  where
    clean : (t : Bytes) → AllOf is_c64 (to_c64_text t)
    clean t = All-map (λ c. is_c64 c ≡ true) c64_rune c64_rune-is_c64 (map upper (to_ascii t))

    fixed : (t : Bytes) → AllOf is_c64 t → to_c64_text t ≡ t
    fixed t h =
        ap (λ u. map c64_rune (map upper u)) ((to_ascii-is_ascii t).1 (All-is_ascii t h))
        ∙ ap (map c64_rune) (map_fixed is_c64 upper upper_fixed t h)
        ∙ map_fixed is_c64 c64_rune c64_rune_fixed t h
