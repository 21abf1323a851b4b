-- ===== src/Detection.antt =====
-- app/detection: from a text to the entities in it.
pub mod Resolution
pub mod Engine
pub mod Validators
pub mod Dates
pub mod Regex
pub mod Llm
