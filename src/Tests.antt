-- ===== src/Tests.antt =====
-- The theorems at concrete inputs, and runs of the code.
mod Data
mod Detection
mod Masking
pub mod World
pub mod Restoration
pub mod Processing
pub mod Core
pub mod Policies
pub mod Validators
pub mod YamlEq
pub mod Server
pub mod Redis
pub mod Score
pub mod Observability
pub mod Http
pub mod Detectors
pub mod Pipeline
pub mod Packaging
