-- ===== src/Tests.antt =====
-- Runs of the model, and the theorems at concrete inputs.
pub mod Fixture
pub mod Log
mod Witnesses
mod Recovering
mod Matching
mod Serving
pub mod Ports
mod Server
pub mod Database
pub mod Codec
mod Endurance
