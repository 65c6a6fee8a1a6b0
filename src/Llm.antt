-- ===== src/Llm.antt =====
-- bridge/llm: the clients of the language models.
pub mod Host
pub mod Keys
pub mod Tools
pub mod Anthropic
pub mod Codex
pub mod OpenAi
