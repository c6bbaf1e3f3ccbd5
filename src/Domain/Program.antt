-- ===== src/Domain/Program.antt =====
-- crates/jlink-domain/src/program.rs: Flash ranges, readback comparison and execution facts.
pub mod Facts
pub mod Ranges
pub mod Compare
mod Tests
