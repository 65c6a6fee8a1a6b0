-- ===== src/Chat/Trigger/Quotes.antt =====
-- The replies that bridge/chat/trigger.go quotes for Slack.
use claw.Prelude.{
  ℕ, false, none, List, [], ◌∷◌, ◌≡◌, refl, arith, Bytes, is_nil, trim_space, has_prefix, split,
  join,
}
use claw.Prelude.Text.Trims.{Lacks}
use claw.Prelude.Text.Splits.{AllLack, split-AllLack, split-join}
use claw.Chat.Trigger.{
  slack_joystick_trigger, quote, quote_all, format_slack_joystick_quote,
  strip_slack_joystick_trigger, strip_trigger,
}

abbrev newline : ℕ
newline = b'\n'

quote_all-AllLack : (ls : List Bytes) → AllLack newline ls → AllLack newline (quote_all ls)
quote_all-AllLack [] h = tt
quote_all-AllLack (l ∷ ls) h =
    ((λ p. omega (arith, p), (λ p. omega (arith, p), h.0)), quote_all-AllLack ls h.1)

title-Lacks : Lacks newline (quote slack_joystick_trigger)
title-Lacks = ground arith

starts_quoted :
    (ls : List Bytes)
    → (rest : Bytes) × (join (quote slack_joystick_trigger ∷ ls) (newline ∷ []) ≡ b'>' ∷ rest)
unfolding join
starts_quoted [] = (_, refl)
starts_quoted (l ∷ ls) = (_, refl)

not_marked : (rest : Bytes) → strip_slack_joystick_trigger (b'>' ∷ rest) ≡ none
unfolding strip_slack_joystick_trigger strip_trigger has_prefix
not_marked rest = ground arith

-- A reply that is not blank is posted as the trigger and the lines of the trimmed reply, each line
-- quoted, and no such post passes the trigger again.
pub format_slack_joystick_quote-split :
    (text : Bytes)
    → is_nil (trim_space text) ≡ false
    → (split (format_slack_joystick_quote text) b'\n'
        ≡ quote slack_joystick_trigger ∷ quote_all (split (trim_space text) b'\n'))
      × (strip_slack_joystick_trigger (format_slack_joystick_quote text) ≡ none)
unfolding format_slack_joystick_quote
format_slack_joystick_quote-split text full =
    let lines : List Bytes = quote_all (split (trim_space text) newline) in
    (
      rw full (
          split-join newline (quote slack_joystick_trigger) lines (
            title-Lacks,
            quote_all-AllLack (split (trim_space text) newline)
                (split-AllLack newline (trim_space text)),
          )),
      rw (full, (starts_quoted lines).1) (not_marked (starts_quoted lines).0),
    )
