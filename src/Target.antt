-- ===== src/Target.antt =====
-- src/target.rs: an attached PHP process.
pub mod Capture
pub mod Prologue
pub mod Attach
