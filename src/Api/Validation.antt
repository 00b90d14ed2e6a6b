-- ===== src/Api/Validation.antt =====
-- rust/crates/spatiad-api/src/validation.rs.
pub mod Conditions
use spatiad.Base.{
  ℕ, ◌+◌, Bool, true, not, ◌&&◌, ◌||◌, [], ◌∷◌, ◌++◌, Result, ok, err, leb, ltb, nat_beq, is_empty,
  if◌then◌else◌,
}
use spatiad.Base.Text.{Text, codes, show}
use spatiad.Platform.{F64}
use spatiad.Types.{Coordinates}

pub data ValidationError : Type 0 where
  invalid_radius invalid_category invalid_coordinates : Text → ValidationError
  empty_category : ValidationError

unfoldable pub message : ValidationError → Text
message (ValidationError.invalid_radius msg) = msg
message (ValidationError.invalid_category msg) = msg
message (ValidationError.invalid_coordinates msg) = msg
message ValidationError.empty_category = codes "category cannot be empty"

abbrev pub Outcome : Type 0
Outcome = Result (Unit {0}) ValidationError

-- The tables of Unicode in `char::is_alphanumeric`, which decide outside ASCII.
pub record Unicode : Type 0 where
  pub is_alphanumeric : ℕ → Bool

-- The bytes of a character in UTF-8.
abbrev len_utf8 : ℕ → ℕ
len_utf8 c = if ltb c 0x80 then 1 else if ltb c 0x800 then 2 else if ltb c 0x10000 then 3 else 4

-- `str::len`.
unfoldable pub len : Text → ℕ
len [] = 0
len (c ∷ s) = len_utf8 c + len s

abbrev pub within : ℕ → ℕ → ℕ → Bool
within lo hi c = leb lo c && leb c hi

module _ ⦃u : Unicode⦄ where
  unfoldable pub is_alphanumeric : ℕ → Bool
  is_alphanumeric c =
      if ltb c 0x80
      then within b'a' b'z' c || (within b'A' b'Z' c || within b'0' b'9' c)
      else u.is_alphanumeric c

  unfoldable pub is_category_char : ℕ → Bool
  is_category_char c = is_alphanumeric c || (nat_beq c b'_' || nat_beq c b'-')

  unfoldable pub all_category_chars : Text → Bool
  all_category_chars [] = true
  all_category_chars (c ∷ s) = is_category_char c && all_category_chars s

  unfoldable pub validate_category : Text → Outcome
  validate_category category =
      if is_empty category
      then err ValidationError.empty_category
      else if ltb 50 (len category)
      then err (ValidationError.invalid_category (codes "category must be <= 50 characters"))
      else if not (all_category_chars category)
      then err (
          ValidationError.invalid_category
            (codes "category can only contain alphanumeric characters, hyphens, and underscores"))
      else ok tt

module _ {F : Type 0} ⦃f : F64 F⦄ where
  unfoldable pub validate_radius : F → F → Outcome
  validate_radius initial_km max_km =
      if f.is_nan initial_km || f.is_infinite initial_km
      then err (ValidationError.invalid_radius (codes "initial_radius_km must be a valid number"))
      else if f.is_nan max_km || f.is_infinite max_km
      then err (ValidationError.invalid_radius (codes "max_radius_km must be a valid number"))
      else if f.lt initial_km (f.decimal 0 0)
      then err (ValidationError.invalid_radius (codes "initial_radius_km must be >= 0"))
      else if f.lt max_km (f.decimal 0 0)
      then err (ValidationError.invalid_radius (codes "max_radius_km must be >= 0"))
      else if f.lt max_km initial_km
      then err (ValidationError.invalid_radius (codes "initial_radius_km must be <= max_radius_km"))
      else if f.lt (f.decimal 1000 0) max_km
      then err (ValidationError.invalid_radius (codes "max_radius_km must be <= 1000 km"))
      else ok tt

  -- `(-m..=m).contains(&x)`.
  abbrev pub within_limit : ℕ → F → Bool
  within_limit m x = f.le (f.neg (f.decimal m 0)) x && f.le x (f.decimal m 0)

  abbrev pub is_finite : F → Bool
  is_finite x = not (f.is_nan x) && not (f.is_infinite x)

  unfoldable pub validate_coordinates : Coordinates F → Outcome
  validate_coordinates coords =
      if not (within_limit 90 coords.latitude)
      then err (
          ValidationError.invalid_coordinates
            (codes "latitude must be between -90 and 90, got " ++ f.show coords.latitude))
      else if not (within_limit 180 coords.longitude)
      then err (
          ValidationError.invalid_coordinates
            (codes "longitude must be between -180 and 180, got " ++ f.show coords.longitude))
      else if not (is_finite coords.latitude) || not (is_finite coords.longitude)
      then err (ValidationError.invalid_coordinates (codes "coordinates must be finite numbers"))
      else ok tt

unfoldable pub validate_h3_resolution : ℕ → Outcome
validate_h3_resolution resolution =
    if ltb 15 resolution
    then err (
        ValidationError.invalid_radius
          (codes "H3 resolution must be 0-15, got " ++ show resolution))
    else ok tt

unfoldable pub validate_timeout_seconds : ℕ → Outcome
validate_timeout_seconds timeout =
    if nat_beq timeout 0
    then err (ValidationError.invalid_radius (codes "timeout_seconds must be > 0"))
    else if ltb 3600 timeout
    then err (ValidationError.invalid_radius (codes "timeout_seconds must be <= 3600 (1 hour)"))
    else ok tt
