-- ===== src/SpatialIndex.antt =====
-- rust/crates/spatiad-h3/src/lib.rs: the drivers by the H3 cell that they were last seen in.
pub mod Agreement
use spatiad.Base.{ℕ, Option, none, some, List, [], ◌∷◌, ◌++◌, is_empty, if◌then◌else◌, nat_eq}
use spatiad.Base.Text.{Text, show, text_eq}
use spatiad.Base.HashMap
use spatiad.Base.HashMap.{HashMap}
use spatiad.Base.HashSet
use spatiad.Base.HashSet.{HashSet}
use spatiad.Platform.{F64, H3}
use spatiad.Types.{Coordinates}

pub record SpatialIndex : Type 0 where
  pub resolution : ℕ
  pub buckets : HashMap Text (HashSet ℕ)
  pub driver_cells : HashMap ℕ Text

unfoldable pub new : ℕ → SpatialIndex
new resolution = record { resolution = resolution; buckets = []; driver_cells = [] }

abbrev or_eight : Option ℕ → ℕ
or_eight none = 8
or_eight (some r) = r

-- Takes a driver out of a bucket, and drops the bucket once it is empty.
vacate : ℕ → Text → HashMap Text (HashSet ℕ) → HashMap Text (HashSet ℕ)
vacate driver_id cell buckets = elim (HashMap.get cell buckets) [
  | none ↦ buckets
  | some drivers ↦
      let rest = HashSet.remove driver_id drivers in
      if is_empty rest then HashMap.remove cell buckets else HashMap.insert cell rest buckets
]

-- `entry(cell).or_default().insert(driver_id)`.
enter : ℕ → Text → HashMap Text (HashSet ℕ) → HashMap Text (HashSet ℕ)
enter driver_id cell buckets = elim (HashMap.get cell buckets) [
  | none ↦ HashMap.insert cell (HashSet.insert driver_id []) buckets
  | some drivers ↦ HashMap.insert cell (HashSet.insert driver_id drivers) buckets
]

unfoldable pub remove_driver : SpatialIndex → ℕ → SpatialIndex
unfolding vacate
remove_driver s driver_id = elim (HashMap.get driver_id s.driver_cells) [
  | none ↦ s
  | some cell ↦ record s {
    buckets = vacate driver_id cell s.buckets;
    driver_cells = HashMap.remove driver_id s.driver_cells;
  }
]

-- The second half of `upsert_driver`, after the driver has left its old cell.
settle : SpatialIndex → ℕ → Text → SpatialIndex
unfolding enter
settle s driver_id cell = record s {
  buckets = enter driver_id cell s.buckets;
  driver_cells = HashMap.insert driver_id cell s.driver_cells;
}

module _ {F : Type 0} ⦃f : F64 F⦄ ⦃h : H3 F⦄ where
  unfoldable pub cell_key : SpatialIndex → Coordinates F → Text
  cell_key s point =
      elim (h.cell point.latitude point.longitude (or_eight (h.resolution s.resolution))) [
        | none ↦
            show s.resolution
            ++ (b':' ∷ (f.show_5 point.latitude ++ (b':' ∷ f.show_5 point.longitude)))
        | some cell ↦ cell
      ]

  -- The first half of the source is the body of `remove_driver`, word for word.
  unfoldable pub upsert_driver : SpatialIndex → ℕ → Coordinates F → SpatialIndex
  unfolding settle remove_driver
  upsert_driver s driver_id point =
      settle (remove_driver s driver_id) driver_id (cell_key (remove_driver s driver_id) point)

  unfoldable pub candidates_in_same_cell : SpatialIndex → Coordinates F → List ℕ
  candidates_in_same_cell s point = elim (HashMap.get (cell_key s point) s.buckets) [
    | none ↦ []
    | some drivers ↦ drivers
  ]
