-- ===== src/Tests.antt =====
-- Runs on concrete inputs, and the theorems at inputs that meet their hypotheses.
mod Json
mod Text
mod Agent
mod Turns
mod Llm
mod Openai
mod Notes
mod Skills
mod Slash
mod Serial
mod Gateway
mod Tasks
mod Tools
mod FileSystem
mod Security
mod Settings
