-- ===== src/Storage/Tables/Snapshots.antt =====
-- rust/crates/spatiad-storage/src/{sqlite,pg}.rs: the snapshots that rows hold.
use spatiad.Base.{
  ℕ, zero, suc, ◌^◌, ◌<◌, ◌≤◌, ◌≡◌, refl, Bool-cases, inl, inr, ◌⊎◌, true, Option, none, some, List,
  [], ◌∷◌, drop, nat_beq, nat_eq, ok, err, arith,
}
use spatiad.Storage.{EngineSnapshot}
use spatiad.Storage.Contract.{number}
use spatiad.Storage.Tables.{Blob, Row, Bincode, signed_lt, replace_row, latest_two, latest}
use spatiad.Storage.Tables.Order.{signed_lt-ltb, is_ascending, none_above}

module _ {F : Type 0} (b : Bincode F) where
  -- Rows with keys below 2^63 and with blobs that are snapshots up to the entry of their key.
  abbrev pub IsSnapshots : List Row → Type 0
  IsSnapshots [] = Unit {0}
  IsSnapshots (row ∷ rows) =
      (row.0 < 2 ^ 63)
      × ((x : EngineSnapshot F) × (b.deserialize_snapshot row.1 ≡ ok x) × (x.wal_sequence ≡ row.0))
      × IsSnapshots rows

  pub drop-IsSnapshots : (k : ℕ) (rows : List Row) → IsSnapshots rows → IsSnapshots (drop k rows)
  drop-IsSnapshots zero rows l = l
  drop-IsSnapshots (suc k) [] l = tt
  drop-IsSnapshots (suc k) (row ∷ rows) l = drop-IsSnapshots k rows l.2

  pub replace_row-IsSnapshots :
      (x : EngineSnapshot F) (blob : Blob) (rows : List Row)
      → x.wal_sequence < 2 ^ 63
      → b.deserialize_snapshot blob ≡ ok x
      → IsSnapshots rows
      → IsSnapshots (replace_row x.wal_sequence blob rows)
  unfolding replace_row
  replace_row-IsSnapshots x blob [] room p l = (room, (x, p, refl), tt)
  replace_row-IsSnapshots x blob (row ∷ rows) room p l =
      let rest = replace_row-IsSnapshots x blob rows room p l.2 in
      elim (Bool-cases (nat_beq x.wal_sequence row.0)) [
        | inl same ↦ rw same (room, (x, p, refl), l.2)
        | inr new ↦ elim (Bool-cases (signed_lt x.wal_sequence row.0)) [
          | inl lt ↦ rw (new, lt) (room, (x, p, refl), l)
          | inr ge ↦ rw (new, ge) (l.0, l.1, rest)
        ]
      ]

  -- The latest snapshot.
  unfoldable pub held : List Row → Option (EngineSnapshot F)
  held [] = none
  held (row ∷ []) = elim (b.deserialize_snapshot row.1) [ ok x ↦ some x | err _ ↦ none ]
  held (row ∷ next ∷ rows) = held (next ∷ rows)

  pub held-cases :
      (rows : List Row)
      → IsSnapshots rows
      → ((latest rows ≡ none) × (held rows ≡ none))
        ⊎ ((blob : Blob) × (x : EngineSnapshot F) × (latest rows ≡ some blob)
            × (b.deserialize_snapshot blob ≡ ok x)
            × (held rows ≡ some x))
  unfolding held
  held-cases [] l = inl (refl, refl)
  held-cases (row ∷ []) l = inr (row.1, l.1.0, refl, l.1.1, rw (l.1.1, held) refl)
  held-cases (row ∷ next ∷ rows) l = held-cases (next ∷ rows) l.2

  pub held-latest :
      (x : EngineSnapshot F) (blob : Blob) (rows : List Row)
      → b.deserialize_snapshot blob ≡ ok x
      → latest rows ≡ some blob
      → held rows ≡ some x
  unfolding held
  held-latest x blob [] p q = ground (arith, q)
  held-latest x blob (row ∷ []) p q = grind (arith, p, q)
  held-latest x blob (row ∷ next ∷ rows) p q = held-latest x blob (next ∷ rows) p q

  pub none_above-held :
      (n : ℕ) (rows : List Row)
      → n < 2 ^ 63
      → is_ascending rows ≡ true
      → IsSnapshots rows
      → number (held rows) ≤ n
      → none_above n rows ≡ true
  unfolding held
  none_above-held n [] room up l p = refl
  none_above-held n (row ∷ []) room up l p =
      ground (arith, l.1.1, l.1.2, p, signed_lt-ltb n row.0 room l.0)
  none_above-held n (row ∷ next ∷ rows) room up l p = ground (
    arith,
    up,
    signed_lt-ltb row.0 next.0 l.0 l.2.0,
    signed_lt-ltb n row.0 room l.0,
    signed_lt-ltb n next.0 room l.2.0,
    none_above-held n (next ∷ rows) room (ground (arith, up)) l.2 p,
  )

drop-is_ascending :
    (k : ℕ) (rows : List Row) → is_ascending rows ≡ true → is_ascending (drop k rows) ≡ true
drop-is_ascending zero rows up = up
drop-is_ascending (suc k) [] up = refl
drop-is_ascending (suc zero) (row ∷ []) up = refl
drop-is_ascending (suc (suc k)) (row ∷ []) up = refl
drop-is_ascending (suc k) (row ∷ next ∷ rows) up =
    drop-is_ascending k (next ∷ rows) (ground (arith, up))

pub latest_two-is_ascending :
    (rows : List Row) → is_ascending rows ≡ true → is_ascending (latest_two rows) ≡ true
latest_two-is_ascending rows up = drop-is_ascending _ rows up

module _ {F : Type 0} (b : Bincode F) where
  pub replace_row-is_ascending :
      (n : ℕ) (blob : Blob) (rows : List Row)
      → n < 2 ^ 63
      → IsSnapshots b rows
      → is_ascending rows ≡ true
      → is_ascending (replace_row n blob rows) ≡ true
  unfolding replace_row
  replace_row-is_ascending n blob [] room l up = refl
  replace_row-is_ascending n blob (row ∷ []) room l up =
      ground (arith, signed_lt-ltb n row.0 room l.0, signed_lt-ltb row.0 n l.0 room)
  replace_row-is_ascending n blob (row ∷ next ∷ rows) room l up = ground (
    arith,
    up,
    signed_lt-ltb n row.0 room l.0,
    signed_lt-ltb row.0 n l.0 room,
    signed_lt-ltb n next.0 room l.2.0,
    replace_row-is_ascending n blob (next ∷ rows) room l.2,
  )
