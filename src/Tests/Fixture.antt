-- ===== src/Tests/Fixture.antt =====
-- Concrete parameters, and an engine in which one job has two pending offers.
use Prim.Native.Nat.{max, min, ◌/◌}
use spatiad.Base.{ℕ, ◌+◌, ◌-◌, ◌*◌, ◌^◌, false, none, some, [], ◌∷◌, leb, ltb, if◌then◌else◌}
use spatiad.Base.Text.{Text, codes, show}
use spatiad.Platform.{F64, H3, World}
use spatiad.Types.{Coordinates, DriverStatus, JobRequest, OfferStatus, OfferRecord}
use spatiad.Storage.{InMemoryBackend, in_memory, in_memory_backend}
use spatiad.Core.EventKind.{Codec}
use spatiad.Core.State.{Engine}

-- Thousandths, with the distance on a plane in place of the one on a sphere.
instance abbrev pub thousandths : F64 ℕ
thousandths = record {
  decimal = λ m k. m * 1000 / 10 ^ k;
  epsilon = 0;
  neg = λ x. 0;
  add = λ x y. x + y;
  sub = λ x y. (x - y) + (y - x);
  mul = λ x y. x * y / 1000;
  div = λ x y. x * 1000 / y;
  max = λ x y. max x y;
  min = λ x y. min x y;
  le = leb;
  lt = ltb;
  is_nan = λ _. false;
  is_infinite = λ _. false;
  total_le = leb;
  to_radians = λ x. x;
  sin = λ x. x;
  cos = λ _. 1000;
  asin = λ x. x;
  sqrt = λ x. x;
  show = show;
  show_5 = show;
}

-- One cell for each pair of coordinates.
instance abbrev pub grid : H3 ℕ
grid = record {
  resolution = λ r. if leb r 15 then some r else none;
  cell = λ lat lng r. some (r ∷ lat ∷ lng ∷ []);
}

-- A codec that knows no kind.
instance abbrev pub mute : Codec
mute = record { kind_to_json = λ _. none; kind_from_json = λ _. none; filter_to_json = λ _. none }

-- The clock shows 1000, 1001, ..., and the ids count from 500.
abbrev pub world : World
world = record { clock = λ n. 1000 + n; uuids = λ n. 500 + n }

abbrev pub tow_truck : Text
tow_truck = codes "tow_truck"

abbrev pub place : Coordinates ℕ
place = record { latitude = 38; longitude = 26 }

abbrev pub job : JobRequest ℕ
job = record {
  job_id = 7;
  category = tow_truck;
  pickup = place;
  dropoff = none;
  initial_radius_km = 1000;
  max_radius_km = 5000;
  timeout_seconds = 30;
  created_at = 900;
}

abbrev pub offer_to : ℕ → ℕ → OfferRecord
offer_to offer_id driver_id = record {
  offer_id = offer_id;
  job_id = 7;
  driver_id = driver_id;
  status = OfferStatus.pending;
  expires_at = 5000;
}

-- Two drivers, one job, and a pending offer to each driver.
abbrev pub engine : Engine ℕ InMemoryBackend
engine = record {
  h3_resolution = 8;
  spatial = record { resolution = 8; buckets = []; driver_cells = [] };
  drivers =
      (
        1,
        record {
          driver_id = 1;
          category = tow_truck;
          status = DriverStatus.available;
          position = place;
          last_seen_at = 800;
        },
      )
      ∷ (
        2,
        record {
          driver_id = 2;
          category = tow_truck;
          status = DriverStatus.available;
          position = place;
          last_seen_at = 900;
        },
      )
      ∷ [];
  jobs = (7, job) ∷ [];
  offers = (100, offer_to 100 1) ∷ (101, offer_to 101 2) ∷ [];
  cancelled_jobs = [];
  job_events = [];
  job_event_sequences = [];
  storage = in_memory;
  wal_sequence = 0;
  world = world;
}
