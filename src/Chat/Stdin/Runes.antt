-- ===== src/Chat/Stdin/Runes.antt =====
-- The runes that Go's `range` takes off a string, as `printStream` of bridge/chat/stdin.go uses it.
use claw.Prelude.{
  ℕ, zero, suc, ◌<◌, Bool, ◌&&◌, List, [], ◌∷◌, ◌≡◌, refl, ap, ◌==◌, ltb, leb, lt→ltb,
  if◌then◌else◌, length, take, drop, Bytes, All,
}

-- The byte at an index, and behind the end one that goes on no rune.
byte_at : ℕ → Bytes → ℕ
byte_at i [] = 0
byte_at zero (c ∷ s) = c
byte_at (suc i) (c ∷ s) = byte_at i s

lies_between : ℕ → ℕ → ℕ → Bool
lies_between lo hi c = leb lo c && leb c hi

goes_on : ℕ → Bool
unfolding lies_between
goes_on c = lies_between 0x80 0xBF c

-- The length of the rune in UTF-8 that starts with a byte, before these; 0 where there is none.
unfoldable pub rune_width : ℕ → Bytes → ℕ
unfolding byte_at lies_between goes_on
rune_width c s =
    let second = byte_at 0 s in
    let third = goes_on (byte_at 1 s) in
    if ltb c 0x80
    then 1
    else if lies_between 0xC2 0xDF c
    then if goes_on second then 2 else 0
    else if lies_between 0xE0 0xEF c
    then if lies_between (if c == 0xE0 then 0xA0 else 0x80) (if c == 0xED then 0x9F else 0xBF)
          second
        && third
      then 3
      else 0
    else if lies_between 0xF0 0xF4 c
    then if lies_between (if c == 0xF0 then 0x90 else 0x80) (if c == 0xF4 then 0x8F else 0xBF)
          second
        && third
        && goes_on (byte_at 2 s)
      then 4
      else 0
    else 0

-- `string(r)` for each rune, on fuel of the string's length: a byte that starts no rune gives U+FFFD.
unfoldable pub runes_from : ℕ → Bytes → List Bytes
runes_from zero s = []
runes_from (suc n) [] = []
runes_from (suc n) (c ∷ s) =
    let w = rune_width c s in
    if w == 0
    then (0xEF ∷ 0xBF ∷ 0xBD ∷ []) ∷ runes_from n s
    else take w (c ∷ s) ∷ runes_from n (drop w (c ∷ s))

unfoldable pub runes_of : Bytes → List Bytes
runes_of s = runes_from (length s) s

-- In a text of 7-bit bytes each byte is a rune.
abbrev pub each_alone : Bytes → List Bytes
each_alone [] = []
each_alone (c ∷ s) = (c ∷ []) ∷ each_alone s

runes_from-each_alone : (s : Bytes) → All (λ c. c < 128) s → runes_from (length s) s ≡ each_alone s
unfolding runes_from rune_width
runes_from-each_alone [] h = refl
runes_from-each_alone (c ∷ s) h =
    rw (lt→ltb c 128 h.0) (ap (λ l. (c ∷ []) ∷ l) (runes_from-each_alone s h.1))

pub runes_of-each_alone : (s : Bytes) → All (λ c. c < 128) s → runes_of s ≡ each_alone s
unfolding runes_of
runes_of-each_alone s h = runes_from-each_alone s h
