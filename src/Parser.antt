-- ===== src/Parser.antt =====
-- The parser: src/dbc_parser.h, on the results of src/dbc_parser_result.h.
pub mod Result
pub mod Numbers
pub mod Basic
pub mod Header
pub mod Signals
pub mod SignalTypes
pub mod Comments
pub mod Attributes
pub mod Values
pub mod Whole
pub mod Sound
pub mod RoundTrip
pub mod Bounds
