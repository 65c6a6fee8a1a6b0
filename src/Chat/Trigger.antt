-- ===== src/Chat/Trigger.antt =====
-- bridge/chat/trigger.go: what marks a message in a group for the Commodore, on runes.
pub mod Marks
pub mod Quotes
use claw.Prelude.{
  ℕ, Bool, true, false, Option, none, some, List, [], ◌∷◌, ◌++◌, Bytes, codes, if◌then◌else◌,
  is_nil, has_prefix, trim_prefix, trim_space, split, join,
}

-- The joystick and the variation selector behind it.
abbrev pub joystick_trigger : Bytes
joystick_trigger = 0x1F579 ∷ 0xFE0F ∷ []

abbrev pub slack_joystick_trigger : Bytes
slack_joystick_trigger = codes ":joystick:"

-- `none` is the result ("", false).
abbrev pub unless_blank : Bytes → Option Bytes
unless_blank text = if is_nil text then none else some text

-- The body that `stripJoystickTrigger` and `stripSlackJoystickTrigger` share.
unfoldable pub strip_trigger : Bytes → Bytes → Option Bytes
strip_trigger trigger text =
    if has_prefix text (trigger ++ (b' ' ∷ []))
    then unless_blank (trim_space (trim_prefix text (trigger ++ (b' ' ∷ []))))
    else if has_prefix text (trigger ++ (b':' ∷ []))
    then unless_blank (trim_space (trim_prefix text (trigger ++ (b':' ∷ []))))
    else none

unfoldable pub strip_joystick_trigger : Bytes → Option Bytes
unfolding strip_trigger
strip_joystick_trigger text = strip_trigger joystick_trigger text

unfoldable pub strip_slack_joystick_trigger : Bytes → Option Bytes
unfolding strip_trigger
strip_slack_joystick_trigger text = strip_trigger slack_joystick_trigger text

abbrev pub quote : Bytes → Bytes
quote line = b'>' ∷ b' ' ∷ line

abbrev pub quote_all : List Bytes → List Bytes
quote_all [] = []
quote_all (line ∷ lines) = quote line ∷ quote_all lines

unfoldable pub format_slack_joystick_quote : Bytes → Bytes
format_slack_joystick_quote text =
    let t = trim_space text in
    if is_nil t
    then []
    else join (quote slack_joystick_trigger ∷ quote_all (split t b'\n')) (b'\n' ∷ [])
