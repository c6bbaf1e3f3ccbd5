-- ===== src/Domain/TypedValue.antt =====
-- crates/jlink-domain/src/typed_value.rs: target memory as JSON values, and back.
pub mod Bits
pub mod Numbers
pub mod Scalar
pub mod Layout
pub mod Tests
