-- ===== src/Storage/Tables/Order.antt =====
-- rust/crates/spatiad-storage/src/{sqlite,pg}.rs: rows with ascending keys.
use spatiad.Base.{
  ℕ, zero, suc, ◌^◌, ◌<◌, ◌≤◌, ◌≡◌, refl, ◌∙◌, ap, Bool, true, false, not, ◌&&◌, some, List, [],
  ◌∷◌, ◌++◌, any, length, drop, ltb, nat_eq, Result, ok, err, ◌>>=◌, arith,
}
use spatiad.Base.Text.{Text}
use spatiad.Storage.{Command}
use spatiad.Storage.Tables.{
  Blob, Row, Bincode, signed_lt, insert_row, replace_row, rows_after, latest_two, latest, entries,
}

-- Below 2^63 the signed order is that of the numbers.
pub signed_lt-ltb : (m n : ℕ) → m < 2 ^ 63 → n < 2 ^ 63 → signed_lt m n ≡ ltb m n
unfolding signed_lt
signed_lt-ltb m n p q = ground (arith, p, q)

-- The rows have keys below a number, in the signed order.
abbrev pub all_below : ℕ → List Row → Bool
all_below n rows = not (any (λ row. not (signed_lt row.0 n)) rows)

pub signed_lt_irreflexive : (n : ℕ) → signed_lt n n ≡ false
unfolding signed_lt
signed_lt_irreflexive n = ground arith

pub signed_lt_asymmetric : (m n : ℕ) → signed_lt m n ≡ true → signed_lt n m ≡ false
unfolding signed_lt
signed_lt_asymmetric m n p = ground (arith, p)

signed_lt_trans : (l m n : ℕ) → signed_lt l m ≡ true → signed_lt m n ≡ true → signed_lt l n ≡ true
unfolding signed_lt
signed_lt_trans l m n p q = ground (arith, p, q)

signed_lt_back : (k n m : ℕ) → signed_lt k n ≡ false → signed_lt k m ≡ true → signed_lt n m ≡ true
unfolding signed_lt
signed_lt_back k n m p q = ground (arith, p, q)

pub insert_row-append :
    (n : ℕ) (blob : Blob) (rows : List Row)
    → all_below n rows ≡ true
    → insert_row n blob rows ≡ some (rows ++ ((n, blob) ∷ []))
unfolding insert_row
insert_row-append n blob [] p = refl
insert_row-append n blob (row ∷ rows) p =
    ground (
      arith,
      p,
      signed_lt_asymmetric row.0 n,
      signed_lt_irreflexive n,
      insert_row-append n blob rows,
    )

-- Strictly ascending keys.
abbrev pub is_ascending : List Row → Bool
is_ascending [] = true
is_ascending (row ∷ []) = true
is_ascending (row ∷ next ∷ rows) = signed_lt row.0 next.0 && is_ascending (next ∷ rows)

-- No key above a number.
abbrev pub none_above : ℕ → List Row → Bool
none_above n rows = not (any (λ row. signed_lt n row.0) rows)

pub rows_after-append :
    (k n : ℕ) (blob : Blob) (rows : List Row)
    → signed_lt k n ≡ true
    → rows_after k (rows ++ ((n, blob) ∷ [])) ≡ rows_after k rows ++ ((n, blob) ∷ [])
rows_after-append k n blob [] p = ground (arith, p)
rows_after-append k n blob (row ∷ rows) p = ground (arith, rows_after-append k n blob rows p)

-- Compacting up to `n` loses no row that is asked for from `n` on.
pub rows_after-rows_after :
    (k n : ℕ) (rows : List Row)
    → signed_lt k n ≡ false
    → rows_after k (rows_after n rows) ≡ rows_after k rows
rows_after-rows_after k n [] p = refl
rows_after-rows_after k n (row ∷ rows) p =
    ground (arith, p, signed_lt_back k n row.0, rows_after-rows_after k n rows p)

latest-cons : (row : Row) (rows : List Row) → 1 ≤ length rows → latest (row ∷ rows) ≡ latest rows
latest-cons row [] p = ground (arith, p)
latest-cons row (next ∷ rows) p = refl

replace_row-longer : (n : ℕ) (blob : Blob) (rows : List Row) → 1 ≤ length (replace_row n blob rows)
unfolding replace_row
replace_row-longer n blob [] = omega arith
replace_row-longer n blob (row ∷ rows) = ground arith

latest-drop : (k : ℕ) (rows : List Row) → k < length rows → latest (drop k rows) ≡ latest rows
latest-drop zero rows p = refl
latest-drop (suc k) [] p = refl
latest-drop (suc k) (row ∷ []) p = ground (arith, p)
latest-drop (suc k) (row ∷ next ∷ rows) p = latest-drop k (next ∷ rows) (omega (arith, p))

pub latest-latest_two : (rows : List Row) → latest (latest_two rows) ≡ latest rows
latest-latest_two [] = refl
latest-latest_two (row ∷ rows) = latest-drop _ (row ∷ rows) (omega arith)

replace_row-skip :
    (n : ℕ) (blob : Blob) (row next : Row) (rows : List Row)
    → signed_lt row.0 next.0 ≡ true
    → none_above n (row ∷ next ∷ rows) ≡ true
    → replace_row n blob (row ∷ next ∷ rows) ≡ row ∷ replace_row n blob (next ∷ rows)
unfolding replace_row
replace_row-skip n blob row next rows p q = ground (arith, p, q)

pub latest-replace_row :
    (n : ℕ) (blob : Blob) (rows : List Row)
    → is_ascending rows ≡ true
    → none_above n rows ≡ true
    → latest (replace_row n blob rows) ≡ some blob
unfolding replace_row
latest-replace_row n blob [] p q = refl
latest-replace_row n blob (row ∷ []) p q = ground (arith, q)
latest-replace_row n blob (row ∷ next ∷ rows) p q =
    ap latest (replace_row-skip n blob row next rows (ground (arith, p)) q)
    ∙ latest-cons row (replace_row n blob (next ∷ rows)) (replace_row-longer n blob (next ∷ rows))
    ∙ latest-replace_row n blob (next ∷ rows) (ground (arith, p)) (ground (arith, q))

module _ {F : Type 0} ⦃b : Bincode F⦄ where
  swap :
      (row : ℕ) (d : Result (Command F) Text) (r : Result (List (ℕ × Command F)) Text)
      (x : List (ℕ × Command F))
      → (d >>= (λ cmd. (r >>= (λ es. ok (es ++ x))) >>= (λ rest. ok ((row, cmd) ∷ rest))))
        ≡ ((d >>= (λ cmd. r >>= (λ rest. ok ((row, cmd) ∷ rest)))) >>= (λ es. ok (es ++ x)))
  swap row (err e) r x = refl
  swap row (ok cmd) (err e) x = refl
  swap row (ok cmd) (ok es) x = refl

  pub entries-append :
      (n : ℕ) (cmd : Command F) (blob : Blob) (rows : List Row)
      → b.deserialize_command blob ≡ ok cmd
      → entries (rows ++ ((n, blob) ∷ [])) ≡ (entries rows >>= (λ es. ok (es ++ ((n, cmd) ∷ []))))
  unfolding entries
  entries-append n cmd blob [] p = rw p refl
  entries-append n cmd blob (row ∷ rows) p =
      rw (entries-append n cmd blob rows p)
        (swap row.0 (b.deserialize_command row.1) (entries rows) ((n, cmd) ∷ []))
