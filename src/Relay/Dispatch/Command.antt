-- ===== src/Relay/Dispatch/Command.antt =====
-- The command of an EXEC frame, as `callAndDispatch` cleans and cuts it.
use claw.Prelude.{
  ℕ, zero, suc, ◌≤◌, ◌&&◌, not, Bool, true, [], ◌∷◌, ◌≡◌, ◌∙◌, ap, refl, arith, All-take, ◌==◌,
  length, length-take, take, Bytes,
}
use claw.Relay.Dispatch.{first_line, sanitize}
use claw.Serial.Ascii.{is_ascii, AllOf, to_ascii, to_ascii-is_ascii}

-- A character that may stand in a command.
abbrev pub is_command : ℕ → Bool
is_command c = is_ascii c && not (c == b'\n')

All-first_line : (s : Bytes) → AllOf is_ascii s → AllOf is_command (first_line s)
unfolding first_line
All-first_line [] h = tt
All-first_line (c ∷ cs) h = ground (arith, All-first_line cs h.1, h.0)

first_line_fixed : (s : Bytes) → AllOf is_command s → first_line s ≡ s
unfolding first_line
first_line_fixed [] h = refl
first_line_fixed (c ∷ cs) h = ground (arith, first_line_fixed cs h.1, h.0)

AllOf-is_ascii : (s : Bytes) → AllOf is_command s → AllOf is_ascii s
AllOf-is_ascii [] h = tt
AllOf-is_ascii (c ∷ cs) h = (ground (arith, h.0), AllOf-is_ascii cs h.1)

take_short : (n : ℕ) (s : Bytes) → length s ≤ n → take n s ≡ s
take_short zero [] h = refl
take_short zero (c ∷ cs) h = let none_fit : ⊥ = omega arith in elim none_fit [ ]
take_short (suc n) [] h = refl
take_short (suc n) (c ∷ cs) h = ap (◌∷◌ c) (take_short n cs (omega arith))

-- Whatever command the LLM gives, the EXEC payload has at most 122 bytes, all of them tabs or
-- printable 7-bit characters; a command that is that already is sent as it is.
pub sanitize-is_command :
    (s : Bytes)
    → AllOf is_command (sanitize s)
      × (length (sanitize s) ≤ 122)
      × (AllOf is_command s → length s ≤ 122 → sanitize s ≡ s)
unfolding sanitize
sanitize-is_command s = (
  All-take (λ c. is_command c ≡ true) 122 (first_line (to_ascii s))
      (All-first_line (to_ascii s) (to_ascii-is_ascii s).0),
  omega (arith, length-take 122 (first_line (to_ascii s))),
  λ h l.
      ap (λ t. take 122 (first_line t)) ((to_ascii-is_ascii s).1 (AllOf-is_ascii s h))
      ∙ ap (take 122) (first_line_fixed s h)
      ∙ take_short 122 s l,
)
