-- ===== src/Worker.antt =====
-- crates/jlink-worker: the process that owns one probe and one target connection.
pub mod Gateway
pub mod Manager
pub mod Recovery
pub mod Connect
pub mod Validate
pub mod Debug
pub mod Preflight
pub mod Download
pub mod Program
pub mod Session
pub mod Control
