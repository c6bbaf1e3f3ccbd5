-- ===== src/Domain/Hss.antt =====
-- crates/jlink-domain/src/hss.rs: high-speed sampling, its frames and its capture lifecycle.
pub mod Frame
pub mod Capture
pub mod Quality
pub mod Rule
pub mod Plan
pub mod Registry
mod Tests
