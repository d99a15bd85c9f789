-- ===== src/Iterator/Views.antt =====
-- The vectors of the objects: `X_Get`, `X_Size` and the loops over `X()`.
pub mod OfNetwork
pub mod OfMessage
pub mod OfSignal
