-- ===== src/Reader.antt =====
-- The line readers: src/file_reader.h.
pub mod File
pub mod Memory
pub mod Lines
pub mod Total
pub mod Adapters
