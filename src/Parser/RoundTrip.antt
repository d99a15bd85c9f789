-- ===== src/Parser/RoundTrip.antt =====
-- The tokens of numbers, signals and messages, and that src/dbc_parser.h reads them back.
pub mod Numbers
pub mod Loops
pub mod Print
pub mod Signals
pub mod Messages
pub mod Networks
