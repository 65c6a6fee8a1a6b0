-- ===== src/Tests.antt =====
-- Runs of the theorems at concrete inputs.
mod Data
mod Serial
mod Link
mod Relay
mod Gate
mod Llm
mod Chat
mod Stdin
mod Cmd
