-- ===== src/Ws.antt =====
-- rust/crates/spatiad-ws/src/lib.rs: the messages between a driver and the server, and their JSON
-- texts as serde_json writes and reads them.
use spatiad.Base.{ℕ, Bool, Option}
use spatiad.Base.Text.{Text}
use spatiad.Types.{Coordinates, DriverStatus}

pub data DriverInbound (F : Type 0) : Type 0 where
  -- The category, the status, the latitude, the longitude and the timestamp.
  location : Text → DriverStatus → F → F → ℕ → DriverInbound F
  offer_response : ℕ → Bool → DriverInbound F

pub data DriverOutbound (F : Type 0) : Type 0 where
  -- The offer, its job, the pickup, the dropoff and the deadline.
  offer : ℕ → ℕ → Coordinates F → Option (Coordinates F) → ℕ → DriverOutbound F
  offer_expired : ℕ → DriverOutbound F
  offer_cancelled matched : ℕ → ℕ → DriverOutbound F

-- `serde_json::from_str(..).ok()` and `serde_json::to_string(..).ok()` at the two types.
pub record MessageCodec (F : Type 0) : Type 0 where
  pub inbound_from_json : Text → Option (DriverInbound F)
  pub outbound_to_json : DriverOutbound F → Option Text
