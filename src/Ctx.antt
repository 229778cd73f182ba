-- ===== src/Ctx.antt =====
-- The capture tool, tools/src/pira_ctx: its output to a terminal.
pub mod Terminal
pub mod Stdout
pub mod Clip
pub mod Watch
pub mod Section
pub mod Blocks
pub mod Transform
pub mod Plan
mod Tests
