-- ===== src/Api/Validation/Conditions.antt =====
-- What the validators accept.
use spatiad.Base.{ℕ, ◌≤◌, ◌≡◌, ◌↔◌, true, false, ok, arith, is_empty}
use spatiad.Base.Text.{Text}
use spatiad.Platform.{F64}
use spatiad.Types.{Coordinates}
use spatiad.Api.Validation.{
  Unicode, len, all_category_chars, validate_category, validate_radius, validate_coordinates,
  validate_timeout_seconds, validate_h3_resolution, within_limit, is_finite,
}

module _ ⦃u : Unicode⦄ where
  -- A category is accepted exactly if it is not empty, has at most 50 bytes, and consists of
  -- alphanumeric characters, hyphens and underscores.
  pub validate_category_iff :
      (category : Text)
      → (validate_category category ≡ ok tt)
        ↔ ((is_empty category ≡ false) × (len category ≤ 50) × (all_category_chars category ≡ true))
  unfolding validate_category
  validate_category_iff category = ground arith

module _ {F : Type 0} ⦃f : F64 F⦄ where
  -- Radii are accepted exactly if both are numbers and finite, neither is negative, the first is not
  -- above the second, and the second is not above 1000 km.
  pub validate_radius_iff :
      (initial_km max_km : F)
      → (validate_radius initial_km max_km ≡ ok tt) ↔ (
          (is_finite initial_km ≡ true)
          × (is_finite max_km ≡ true)
          × (f.lt initial_km (f.decimal 0 0) ≡ false)
          × (f.lt max_km (f.decimal 0 0) ≡ false)
          × (f.lt max_km initial_km ≡ false)
          × (f.lt (f.decimal 1000 0) max_km ≡ false))
  unfolding validate_radius
  validate_radius_iff initial_km max_km = ground arith

  -- Coordinates are accepted exactly if both are finite, the latitude from -90 to 90 and the
  -- longitude from -180 to 180.
  pub validate_coordinates_iff :
      (coords : Coordinates F)
      → (validate_coordinates coords ≡ ok tt) ↔ (
          (within_limit 90 coords.latitude ≡ true)
          × (within_limit 180 coords.longitude ≡ true)
          × (is_finite coords.latitude ≡ true)
          × (is_finite coords.longitude ≡ true))
  unfolding validate_coordinates
  validate_coordinates_iff coords = ground arith

-- A timeout is accepted exactly from 1 to 3600 seconds, a resolution exactly up to 15.
pub validate_timeout_seconds_iff :
    (timeout resolution : ℕ)
    → ((validate_timeout_seconds timeout ≡ ok tt) ↔ ((1 ≤ timeout) × (timeout ≤ 3600)))
      × ((validate_h3_resolution resolution ≡ ok tt) ↔ (resolution ≤ 15))
unfolding validate_timeout_seconds validate_h3_resolution
validate_timeout_seconds_iff timeout resolution = ground arith
