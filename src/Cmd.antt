-- ===== src/Cmd.antt =====
-- cmd/claw64-bridge: the command around the bridge.
pub mod Burnin
pub mod Config
pub mod Spawn
pub mod LineLog
pub mod Typing
