-- ===== src/Relay.antt =====
-- bridge/relay: the relay between chat, LLM and the serial link.
pub mod Ids
pub mod History
pub mod Gate
pub mod State
pub mod Chunks
pub mod Accept
pub mod Receive
pub mod Wait
pub mod Deliver
pub mod Events
pub mod Dispatch
pub mod Drain
pub mod Message
pub mod Waiters
pub mod Timeouts
pub mod Loop
pub mod Rules
pub mod Progress
pub mod Dump
