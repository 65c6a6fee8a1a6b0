-- ===== src/Chat.antt =====
-- bridge/chat: the channels between the user and the relay.
pub mod Trigger
pub mod Signal
pub mod WhatsApp
pub mod Slack
pub mod Stdin
