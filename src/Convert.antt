-- ===== src/Convert.antt =====
-- The conversion of the syntax tree to the network: src/dbcast2network.cpp. Parsing and the files
-- are apart.
pub mod Cache
pub mod Objects
pub mod Signals
pub mod Messages
pub mod Definitions
pub mod Whole
pub mod Scanned
pub mod Filtered
pub mod Total
pub mod Decoding
