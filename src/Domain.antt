-- ===== src/Domain.antt =====
-- The crate jlink-domain: pure values and validation shared by the processes.
pub mod Error
pub mod Json
pub mod Dwarf
pub mod Selector
pub mod TypedValue
pub mod Core
pub mod Memory
pub mod State
pub mod Program
pub mod Image
pub mod Hss
pub mod Identity
pub mod Session
