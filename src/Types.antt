-- ===== src/Types.antt =====
-- rust/crates/spatiad-types/src/lib.rs. `F` stands for `f64`; a `Uuid` and an instant are numbers.
use spatiad.Base.{ℕ, Bool, true, false, Option}
use spatiad.Base.Text.{Text}

pub record Coordinates (F : Type 0) : Type 0 where
  pub latitude : F
  pub longitude : F

pub data DriverStatus : Type 0 where
  offline available busy : DriverStatus

abbrev pub is_available : DriverStatus → Bool
is_available DriverStatus.available = true
is_available _ = false

pub record DriverSnapshot (F : Type 0) : Type 0 where
  pub driver_id : ℕ
  pub category : Text
  pub status : DriverStatus
  pub position : Coordinates F
  pub last_seen_at : ℕ

pub record JobRequest (F : Type 0) : Type 0 where
  pub job_id : ℕ
  pub category : Text
  pub pickup : Coordinates F
  pub dropoff : Option (Coordinates F)
  pub initial_radius_km : F
  pub max_radius_km : F
  pub timeout_seconds : ℕ
  pub created_at : ℕ

pub data OfferStatus : Type 0 where
  pending accepted rejected expired cancelled : OfferStatus

-- The derived `==`, at the three statuses that the code compares with.
abbrev pub is_pending : OfferStatus → Bool
is_pending OfferStatus.pending = true
is_pending _ = false

abbrev pub is_accepted : OfferStatus → Bool
is_accepted OfferStatus.accepted = true
is_accepted _ = false

abbrev pub is_cancelled : OfferStatus → Bool
is_cancelled OfferStatus.cancelled = true
is_cancelled _ = false

pub record OfferRecord : Type 0 where
  pub offer_id : ℕ
  pub job_id : ℕ
  pub driver_id : ℕ
  pub status : OfferStatus
  pub expires_at : ℕ

pub record MatchResult : Type 0 where
  pub job_id : ℕ
  pub driver_id : ℕ
  pub offer_id : ℕ
  pub matched_at : ℕ
