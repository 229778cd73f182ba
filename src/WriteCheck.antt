-- ===== src/WriteCheck.antt =====
-- The marker check, tools/src/pira_write_check/lib.rs.
pub mod Lines
pub mod Groups
pub mod Check
mod Tests
