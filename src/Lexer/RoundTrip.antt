-- ===== src/Lexer/RoundTrip.antt =====
-- Words, and that the lexer reads each of them back.
pub mod Starts
pub mod Words
pub mod Whole
pub mod Front
