-- ===== src/Lexer.antt =====
-- The lexer: src/dbc_lexer.h.
pub mod Types
pub mod Cursor
pub mod Readers
pub mod Keywords
pub mod Tokenize
pub mod Moves
pub mod Reads
pub mod Progress
pub mod Total
pub mod Strings
pub mod RoundTrip
