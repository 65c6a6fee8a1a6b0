-- ===== src/Relay/Progress.antt =====
-- The event loop ends: what its rounds cost, and that the fuel of `event_loop` is enough.
mod Pending
mod Waits
mod Sends
mod Frames
mod Answers
mod Drains
mod Handlers
mod Rounds
pub use Rounds.{event_loop-Leaves}
pub use Frames.{Leaves}
