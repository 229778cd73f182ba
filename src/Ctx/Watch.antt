-- ===== src/Ctx/Watch.antt =====
-- Watches, tools/src/pira_ctx/watch: a process that samples a probe or a capture until it is done.
pub mod View
pub mod State
pub mod Control
pub mod Tails
pub mod Attention
pub mod Sample
pub mod Analyzer
pub mod Incorporate
pub mod Own
pub mod Command
mod Tests
