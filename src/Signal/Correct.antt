-- ===== src/Signal/Correct.antt =====
-- The decoders of src/signal_impl.cpp give what the signal means.
pub mod Raw
pub mod Join
pub mod Fill
pub mod Word
pub mod Nine
pub mod Whole
