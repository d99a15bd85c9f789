-- ===== src/Signal.antt =====
-- Signals: src/signal_impl.cpp, src/signal_impl.h, include/dbcppp-tiny/signal.h and src/helper.h.
pub mod Types
pub mod Frame
pub mod Layout
pub mod Decode
pub mod Dispatch
pub mod Errors
pub mod Object
pub mod Meaning
pub mod Correct
pub mod Whole
pub mod Limits
pub mod Physical
