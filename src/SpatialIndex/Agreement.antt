-- ===== src/SpatialIndex/Agreement.antt =====
-- The agreement of the two maps of the index: which drivers stand in which bucket.
use spatiad.Base.{
  ℕ, ◌≡◌, refl, Bool, true, false, ◌&&◌, ◌||◌, not, Option, none, some, List, [], ◌∷◌, is_empty,
  arith, ◌==◌, nat_eq, if◌then◌else◌, ◌≢◌, inl, inr, Option-cases, Bool-cases,
}
use spatiad.Base.Text.{Text, text_eq, text_beq_iff}
use spatiad.Base.HashMap
use spatiad.Base.HashSet
use spatiad.Platform.{F64, H3}
use spatiad.Types.{Coordinates}
use spatiad.SpatialIndex.{
  SpatialIndex, new, vacate, enter, settle, remove_driver, upsert_driver, candidates_in_same_cell,
  cell_key,
}

abbrev member : ℕ → Option (List ℕ) → Bool
member d none = false
member d (some drivers) = HashSet.contains d drivers

-- Whether a driver stands in the bucket of a cell.
abbrev pub in_bucket : SpatialIndex → Text → ℕ → Bool
in_bucket s cell d = member d (HashMap.get cell s.buckets)

abbrev is_cell : Text → Option Text → Bool
is_cell cell none = false
is_cell cell (some own) = cell == own

-- Whether a cell is the one recorded for a driver.
abbrev pub is_cell_of : SpatialIndex → Text → ℕ → Bool
is_cell_of s cell d = is_cell cell (HashMap.get d s.driver_cells)

pub record IsAgreed (s : SpatialIndex) : Type 0 where
  pub same : (cell : Text) (d : ℕ) → in_bucket s cell d ≡ is_cell_of s cell d
  pub inhabited : (cell : Text) → HashMap.get cell s.buckets ≢ some []

empty_contains :
    (d : ℕ) (drivers : List ℕ) → is_empty drivers ≡ true → HashSet.contains d drivers ≡ false
unfolding HashSet.contains
empty_contains d [] h = refl
empty_contains d (x ∷ drivers) h = ground arith

member-vacate :
    (i : ℕ) (cell : Text) (b : List (Text × List ℕ)) (c : Text) (d : ℕ)
    → member d (HashMap.get c (vacate i cell b)) ≡ (
        if c == cell
        then not (d == i) && member d (HashMap.get c b)
        else member d (HashMap.get c b))
unfolding vacate
member-vacate i cell b c d = elim (Option-cases (HashMap.get cell b)) [
  | inl e ↦ rw (e, vacate) (ground (arith, text_beq_iff c cell))
  | inr (drivers, e) ↦ elim (Bool-cases (is_empty (HashSet.remove i drivers))) [
    | inl h ↦
        rw (e, vacate)
          (rw h (
            rw (HashMap.get-remove c cell) (
              ground (
                arith,
                text_beq_iff c cell,
                HashSet.contains-remove d i drivers,
                empty_contains d (HashSet.remove i drivers),
              ))))
    | inr h ↦
        rw (e, vacate)
          (rw h (
            rw (HashMap.get-insert c cell)
              (ground (arith, text_beq_iff c cell, HashSet.contains-remove d i drivers))))
  ]
]

member-enter :
    (i : ℕ) (cell : Text) (b : List (Text × List ℕ)) (c : Text) (d : ℕ)
    → member d (HashMap.get c (enter i cell b))
      ≡ (if c == cell then (d == i) || member d (HashMap.get c b) else member d (HashMap.get c b))
unfolding enter HashSet.contains
member-enter i cell b c d = elim (Option-cases (HashMap.get cell b)) [
  | inl e ↦
      rw (e, enter)
        (rw (HashMap.get-insert c cell)
          (ground (arith, text_beq_iff c cell, HashSet.contains-insert d i [])))
  | inr (drivers, e) ↦
      rw (e, enter)
        (rw (HashMap.get-insert c cell)
          (ground (arith, text_beq_iff c cell, HashSet.contains-insert d i drivers)))
]

-- No operation leaves an empty bucket behind.
abbrev NoneEmpty : List (Text × List ℕ) → Type 0
NoneEmpty b = (c : Text) → HashMap.get c b ≢ some []

vacate-NoneEmpty :
    (i : ℕ) (cell : Text) (b : List (Text × List ℕ)) → NoneEmpty b → NoneEmpty (vacate i cell b)
unfolding vacate
vacate-NoneEmpty i cell b h c g = elim (Option-cases (HashMap.get cell b)) [
  | inl e ↦ h c (rw (e, vacate) at g)
  | inr (drivers, e) ↦ ground (
    arith,
    e,
    h c,
    HashMap.get-remove c cell b,
    HashMap.get-insert c cell (HashSet.remove i drivers) b,
  )
]

insert_nonempty : (i : ℕ) (drivers : List ℕ) → HashSet.insert i drivers ≢ []
unfolding HashSet.insert HashSet.contains
insert_nonempty i [] = ground arith
insert_nonempty i (x ∷ drivers) = ground arith

enter-NoneEmpty :
    (i : ℕ) (cell : Text) (b : List (Text × List ℕ)) → NoneEmpty b → NoneEmpty (enter i cell b)
unfolding enter
enter-NoneEmpty i cell b h c g = elim (Option-cases (HashMap.get cell b)) [
  | inl e ↦
      ground
        (arith, e, h c, insert_nonempty i [], HashMap.get-insert c cell (HashSet.insert i []) b)
  | inr (drivers, e) ↦ ground (
    arith,
    e,
    h c,
    insert_nonempty i drivers,
    HashMap.get-insert c cell (HashSet.insert i drivers) b,
  )
]

-- An empty index is agreed.
pub new-IsAgreed : (resolution : ℕ) → IsAgreed (new resolution)
unfolding new HashMap.get
new-IsAgreed resolution = record { same = λ c d. refl; inhabited = λ c e. cc }

-- Removing a driver keeps the index agreed, and takes the driver out of every bucket.
pub remove_driver-IsAgreed :
    (s : SpatialIndex) (i : ℕ)
    → IsAgreed s
    → IsAgreed (remove_driver s i) × ((cell : Text) → in_bucket (remove_driver s i) cell i ≡ false)
unfolding remove_driver
remove_driver-IsAgreed s i v = elim (Option-cases (HashMap.get i s.driver_cells)) [
  | inl e ↦ rw (e, remove_driver) (v, λ c. ground (arith, v.same c i))
  | inr (own, e) ↦
      rw (e, remove_driver)
        (
          record {
            same = λ c d. rw (member-vacate i own s.buckets c d) (
                rw (HashMap.get-remove d i)
                  (ground (arith, v.same c d, v.same own d, text_beq_iff c own)));
            inhabited = vacate-NoneEmpty i own s.buckets v.inhabited;
          },
          λ c.
              rw (member-vacate i own s.buckets c i)
                (ground (arith, v.same c i, text_beq_iff c own)),
        )
]

settle-IsAgreed :
    (s : SpatialIndex) (i : ℕ) (cell : Text)
    → IsAgreed s
    → ((c : Text) → in_bucket s c i ≡ false)
    → IsAgreed (settle s i cell)
unfolding settle
settle-IsAgreed s i cell v out = record {
  same = λ c d. rw (member-enter i cell s.buckets c d) (
      rw (HashMap.get-insert d i)
        (ground (arith, v.same c d, out c, text_beq_iff c cell, text_beq_iff cell c)));
  inhabited = enter-NoneEmpty i cell s.buckets v.inhabited;
}

is_cell_of-remove_driver :
    (s : SpatialIndex) (i : ℕ) (c : Text) (d : ℕ)
    → is_cell_of (remove_driver s i) c d ≡ (if d == i then false else is_cell_of s c d)
unfolding remove_driver
is_cell_of-remove_driver s i c d = ground (arith, HashMap.get-remove d i s.driver_cells)

resolution-remove_driver :
    (s : SpatialIndex) (i : ℕ) → (remove_driver s i).resolution ≡ s.resolution
unfolding remove_driver
resolution-remove_driver s i = ground arith

is_cell_of-settle :
    (s : SpatialIndex) (i : ℕ) (cell c : Text) (d : ℕ)
    → is_cell_of (settle s i cell) c d ≡ (if d == i then c == cell else is_cell_of s c d)
unfolding settle
is_cell_of-settle s i cell c d = ground (arith, HashMap.get-insert d i cell s.driver_cells)

module _ {F : Type 0} ⦃f : F64 F⦄ ⦃h : H3 F⦄ where
  cell_key-remove_driver :
      (s : SpatialIndex) (i : ℕ) (point : Coordinates F)
      → cell_key (remove_driver s i) point ≡ cell_key s point
  unfolding cell_key
  cell_key-remove_driver s i point = rw (resolution-remove_driver s i)

  -- In an index whose two maps agree, `upsert_driver` keeps them agreed: the driver then stands in
  -- the bucket of the cell of the new point and in no other, whatever cell it was in before, and
  -- every other driver stays where it was.
  pub upsert_driver-IsAgreed :
      (s : SpatialIndex) (i : ℕ) (point : Coordinates F)
      → IsAgreed s
      → IsAgreed (upsert_driver s i point)
        × ((c : Text) (d : ℕ)
            → in_bucket (upsert_driver s i point) c d
              ≡ (if d == i then c == cell_key s point else in_bucket s c d))
  unfolding upsert_driver
  upsert_driver-IsAgreed s i point v =
      let cell = cell_key (remove_driver s i) point in
      let removed = remove_driver-IsAgreed s i v in
      let settled = settle-IsAgreed (remove_driver s i) i cell removed.0 removed.1 in
      (
        settled,
        λ c d.
            rw (settled.same c d, is_cell_of-settle (remove_driver s i) i cell c d)
              (rw (is_cell_of-remove_driver s i c d, cell_key-remove_driver s i point)
                (ground (arith, v.same c d))),
      )

  -- The drivers that the index finds at a point are those recorded in the point's cell.
  pub contains-candidates_in_same_cell :
      (s : SpatialIndex) (point : Coordinates F) (d : ℕ)
      → IsAgreed s
      → HashSet.contains d (candidates_in_same_cell s point) ≡ is_cell_of s (cell_key s point) d
  unfolding candidates_in_same_cell HashSet.contains
  contains-candidates_in_same_cell s point d v = ground (arith, v.same (cell_key s point) d)
