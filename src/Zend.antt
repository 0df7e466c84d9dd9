-- ===== src/Zend.antt =====
-- src/zend.rs: typed reads of Zend VM structures.
pub mod Frame
pub mod Reads
pub mod Walker
