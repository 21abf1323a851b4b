-- ===== src/Core.antt =====
-- app/core: the domain enums, the entities and the errors that every other part uses.
pub mod Enums
pub mod Models
pub mod Spans
pub mod Yaml
pub mod Errors
pub mod RateLimit
