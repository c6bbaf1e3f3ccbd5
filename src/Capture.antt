-- ===== src/Capture.antt =====
-- crates/jlink-capture: what is kept of a capture and how it is queried.
pub mod Json
pub mod Cursor
