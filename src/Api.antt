-- ===== src/Api.antt =====
-- rust/crates/spatiad-api/src: the parts of the HTTP and WebSocket server that keep state or decide.
pub mod State
pub mod Http
pub mod RequestContext
pub mod Limits
pub mod Handlers
pub mod Events
pub mod Gates
pub mod Refusals
pub mod Sessions
pub mod Messages
pub mod Webhook
pub mod Connections
pub mod Background
pub mod Invariants
pub mod RateLimiter
pub mod Validation
pub mod Authorization
pub mod Responses
pub mod Kinds
