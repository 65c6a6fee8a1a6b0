-- ===== src/Termstyle.antt =====
-- bridge/termstyle/style.go. Whether colours are enabled, which depends on the environment and the
-- terminal, is an argument.
use claw.Prelude.{Bool, ◌||◌, [], ◌∷◌, ◌++◌, if◌then◌else◌, Bytes}

abbrev pub reset : Bytes
reset = 0x1B ∷ b'[' ∷ b'0' ∷ b'm' ∷ []

abbrev pub dim_style : Bytes
dim_style = 0x1B ∷ b'[' ∷ b'9' ∷ b'0' ∷ b'm' ∷ []

-- `enabled`: `NO_COLOR` is set or `TERM` is dumb, `ForceColor` was called, the file is a terminal.
unfoldable pub enabled : Bool → Bool → Bool → Bool
enabled refused force_color terminal = if refused then Bool.false else force_color || terminal

unfoldable pub wrap : Bool → Bytes → Bytes → Bytes
wrap on style text = if on then style ++ (text ++ reset) else text

unfoldable pub dim : Bool → Bytes → Bytes
unfolding wrap
dim on text = wrap on dim_style text
