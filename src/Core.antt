-- ===== src/Core.antt =====
-- rust/crates/spatiad-core/src/lib.rs: the engine. Each child models a part of `impl Engine`.
pub mod EventKind
pub mod State
pub mod Journal
pub mod Commands
pub mod Mutations
pub mod Search
pub mod Offers
pub mod Queries
pub mod Recovery
