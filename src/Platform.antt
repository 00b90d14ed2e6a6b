-- ===== src/Platform.antt =====
-- What the engine takes from its surroundings: `f64`, the crate h3o, the clock and fresh ids.
use spatiad.Base.{ℕ, suc, ◌*◌, Bool, Option}
use spatiad.Base.Text.{Text}

-- `f64`, as far as the program computes with it. The operations are parameters of the development.
-- `decimal m k` is the literal m / 10^k, and `le x y` is `x <= y`.
pub record F64 (F : Type 0) : Type 0 where
  pub decimal : ℕ → ℕ → F
  pub epsilon : F
  pub neg : F → F
  pub add : F → F → F
  pub sub : F → F → F
  pub mul : F → F → F
  pub div : F → F → F
  pub max : F → F → F
  pub min : F → F → F
  pub le : F → F → Bool
  pub lt : F → F → Bool
  pub is_nan : F → Bool
  pub is_infinite : F → Bool
  -- `a.total_cmp(&b) != Greater`.
  pub total_le : F → F → Bool
  pub to_radians : F → F
  pub sin : F → F
  pub cos : F → F
  pub asin : F → F
  pub sqrt : F → F
  -- `{}` and `{:.5}`.
  pub show : F → Text
  pub show_5 : F → Text

-- The crate h3o: `Resolution::try_from(r).ok()`, and
-- `LatLng::new(lat, lng).ok().map(|p| p.to_cell(r).to_string())`.
pub record H3 (F : Type 0) : Type 0 where
  pub resolution : ℕ → Option ℕ
  pub cell : F → F → ℕ → Option Text

-- The readings of `Utc::now()` and the results of `Uuid::new_v4()` that are still to come. An
-- instant is a number of nanoseconds, a `Uuid` the number with its 128 bits.
pub record World : Type 0 where
  pub clock : ℕ → ℕ
  pub uuids : ℕ → ℕ

abbrev pub utc_now : World → ℕ
utc_now w = w.clock 0

abbrev pub after_now : World → World
after_now w = record w { clock = λ n. w.clock (suc n) }

abbrev pub new_v4 : World → ℕ
new_v4 w = w.uuids 0

abbrev pub after_v4 : World → World
after_v4 w = record w { uuids = λ n. w.uuids (suc n) }

-- `chrono::Duration::seconds(n)`.
abbrev pub seconds : ℕ → ℕ
seconds n = n * 1_000_000_000

-- `t.to_rfc3339()` and `DateTime::parse_from_rfc3339(s).ok()` in UTC, of the crate chrono.
pub record Rfc3339 : Type 0 where
  pub to_rfc3339 : ℕ → Text
  pub parse_from_rfc3339 : Text → Option ℕ
