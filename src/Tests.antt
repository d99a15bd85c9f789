-- ===== src/Tests.antt =====
-- Runs of the model on small inputs, and the theorems at concrete arguments.
mod Data
mod Signals
mod Conversion
mod Lexing
mod Parsing
mod Loading
mod Streaming
mod Iterating
