-- ===== src/Dec.antt =====
-- The decision record tool, tools/src/pira_dec.
pub mod Error
pub mod Time
pub mod Model
pub mod Codec
pub mod Browse
pub mod Args
mod Tests
