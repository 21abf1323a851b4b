-- ===== src/Masking.antt =====
-- app/masking: strategies that mask one value, and the engine that masks a text.
pub mod Chars
pub mod Strategies
pub mod Context
pub mod Engine
