-- ===== src/Relay/Dump.antt =====
-- bridge/relay/stalldump.go: the symbols of the agent and the monitor commands of a dump.
-- An address is a `uint16`, a number below 65536.
pub mod Ranges
use claw.Prelude.{
  ℕ, zero, suc, ◌+◌, ◌-◌, ◌*◌, ◌/◌, ◌%◌, ◌≤◌, ◌<◌, Bool, true, false, not, ◌&&◌, ◌||◌, Option, none,
  some, List, [], ◌∷◌, ◌++◌, ◌≡◌, ◌==◌, ltb, leb, min, if◌then◌else◌, Bytes, codes, is_nil,
  same_text, has_prefix, trim_prefix, before, behind, contains_rune, split,
}

abbrev pub Symbols : Type 0
Symbols = List (Bytes × ℕ)

abbrev pub u16 : ℕ → ℕ
u16 n = n % 65536

-- `strconv.ParseUint(s, 16, 16)`
hex_digit : ℕ → Option ℕ
hex_digit c =
    if leb b'0' c && leb c b'9'
    then some (c - b'0')
    else if leb b'a' c && leb c b'f'
    then some (c - b'a' + 10)
    else if leb b'A' c && leb c b'F'
    then some (c - b'A' + 10)
    else none

parse_hex_from : ℕ → Bytes → Option ℕ
parse_hex_from n [] = some n
parse_hex_from n (c ∷ s) = elim (hex_digit c) [
  | none ↦ none
  | some d ↦ if ltb (n * 16 + d) 65536 then parse_hex_from (n * 16 + d) s else none
]

unfoldable pub parse_hex : Bytes → Option ℕ
unfolding parse_hex_from hex_digit
parse_hex [] = none
parse_hex (c ∷ s) = parse_hex_from 0 (c ∷ s)

-- A line `.label name=$address`; the others are passed over.
symbol_of : Bytes → Option (Bytes × ℕ)
symbol_of line =
    let entry = trim_prefix line (codes ".label ") in
    if not (has_prefix line (codes ".label ")) || not (contains_rune entry b'=')
    then none
    else elim (parse_hex (trim_prefix (behind entry b'=') (codes "$"))) [
      | none ↦ none
      | some value ↦ some (before entry b'=', value)
    ]

-- `syms[name] = value`: the last line with a name counts.
unfoldable pub load_lines : List Bytes → Symbols → Symbols
unfolding symbol_of
load_lines [] syms = syms
load_lines (l ∷ ls) syms = load_lines ls (elim (symbol_of l) [ none ↦ syms | some e ↦ e ∷ syms ])

-- `loadMonitorSymbols`, by the file's text.
unfoldable pub load_monitor_symbols : Bytes → Symbols
load_monitor_symbols text = load_lines (split text b'\n') []

unfoldable pub address_of : Bytes → Symbols → Option ℕ
address_of name [] = none
address_of name ((n, a) ∷ syms) = if same_text n name then some a else address_of name syms

unfoldable pub addresses : Symbols → List Bytes → List ℕ
addresses syms [] = []
addresses syms (name ∷ names) =
    let rest = addresses syms names in
    elim (address_of name syms) [ none ↦ rest | some a ↦ a ∷ rest ]

-- `slices.Sort`, of which the first and the last element are used.
insert_address : ℕ → List ℕ → List ℕ
insert_address a [] = a ∷ []
insert_address a (b ∷ bs) = if leb a b then a ∷ b ∷ bs else b ∷ insert_address a bs

sort_addresses : List ℕ → List ℕ
sort_addresses [] = []
sort_addresses (a ∷ as_list) = insert_address a (sort_addresses as_list)

last_of : ℕ → List ℕ → ℕ
last_of a [] = a
last_of a (b ∷ bs) = last_of b bs

ends_of : List ℕ → Option (ℕ × ℕ)
ends_of [] = none
ends_of (a ∷ rest) = some (a, last_of a rest)

unfoldable pub symbol_range : Symbols → List Bytes → Option (ℕ × ℕ)
unfolding ends_of last_of sort_addresses insert_address
symbol_range syms names = ends_of (sort_addresses (addresses syms names))

-- The dump of one slot of the user queue, `i` from 0 to 2, in `uint16`.
unfoldable pub slot_dump : ℕ → ℕ → ℕ → ℕ × ℕ
slot_dump lo slot_size i =
    let slot_lo = u16 (lo + u16 (i * slot_size)) in
    let slot_hi = u16 (slot_lo + 0x1F) in
    let last = u16 (u16 (lo + u16 ((i + 1) * slot_size)) + 65535) in
    (slot_lo, if ltb last slot_hi then last else slot_hi)

unfoldable pub slot_dumps : ℕ → ℕ → List (ℕ × ℕ)
slot_dumps lo hi =
    let slot_size = (hi - lo) / 3 in
    if ltb lo hi && ltb 0 slot_size
    then slot_dump lo slot_size 0 ∷ slot_dump lo slot_size 1 ∷ slot_dump lo slot_size 2 ∷ []
    else []
