-- ===== src/Parser/Sound.antt =====
-- Where the parse functions of src/dbc_parser.h stop: what they read, and the place of an error.
pub mod Steps
pub mod Basic
pub mod Signals
pub mod Sections
pub mod Whole
