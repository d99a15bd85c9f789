-- ===== src/Stream.antt =====
-- The parser that goes by lines: src/dbc_stream_parser.h.
pub mod Text
pub mod State
pub mod Statements
pub mod Attributes
pub mod Signals
pub mod Route
pub mod Whole
pub mod Lines
pub mod Posts
pub mod Runs
pub mod Ends
pub mod Files
pub mod Bars
pub mod Misread
pub mod Agrees
pub mod Symbols
pub mod NewSymbols
pub mod Texts
