-- ===== src/Storage/Tables/Newest.antt =====
-- rust/crates/spatiad-storage/src/{sqlite,pg}.rs: what the event query selects.
use Prim.Native.Nat.{min}
use mathlib.Core.List.{Perm}
use mathlib.Core.List.Perm
use spatiad.Base.{
  ℕ, zero, suc, ◌≡◌, refl, ◌∙◌, ap, Bool, true, false, ◌&&◌, List, [], ◌∷◌, ◌++◌, filter, any,
  length, take, drop, append_nil, ◌==◌, arith, Bool-cases, inl, inr,
}
use spatiad.Base.Text.{Text, text_eq}
use spatiad.Storage.Tables.{EventRow, is_newer, insert_newest, newest_first, select_events}
use spatiad.Storage.Tables.Order.{signed_lt_asymmetric}

take-append-drop : {A : Type 0} (n : ℕ) (xs : List A) → take n xs ++ drop n xs ≡ xs
take-append-drop zero xs = refl
take-append-drop (suc n) [] = refl
take-append-drop (suc n) (x ∷ xs) = ap (λ r. x ∷ r) (take-append-drop n xs)

length-take : {A : Type 0} (n : ℕ) (xs : List A) → length (take n xs) ≡ min n (length xs)
length-take zero xs = ground arith
length-take (suc n) [] = ground arith
length-take (suc n) (x ∷ xs) = ground (arith, length-take n xs)

filter-snoc :
    {A : Type 0} (p : A → Bool) (xs : List A) (x : A)
    → filter p (xs ++ (x ∷ [])) ≡ filter p xs ++ filter p (x ∷ [])
filter-snoc p [] x = refl
filter-snoc p (y ∷ xs) x = ground (arith, filter-snoc p xs x)

module _ {T : Type 0} (lt : T → T → Bool) where
  is_newer_total : (x y : EventRow T) → is_newer lt x y ≡ false → is_newer lt y x ≡ true
  is_newer_total x y p = ground (arith, p, signed_lt_asymmetric x.sequence y.sequence)

  -- Each row is followed by one that is not newer.
  abbrev pub is_newest_first : List (EventRow T) → Bool
  is_newest_first [] = true
  is_newest_first (x ∷ []) = true
  is_newest_first (x ∷ y ∷ rows) = is_newer lt x y && is_newest_first (y ∷ rows)

  insert_newest-is_newest_first :
      (x : EventRow T) (rows : List (EventRow T))
      → is_newest_first rows ≡ true
      → is_newest_first (insert_newest lt x rows) ≡ true
  unfolding insert_newest
  insert_newest-is_newest_first x [] p = refl
  insert_newest-is_newest_first x (y ∷ []) p = ground (arith, is_newer_total x y)
  insert_newest-is_newest_first x (y ∷ z ∷ rows) p =
      ground (arith, p, is_newer_total x y, insert_newest-is_newest_first x (z ∷ rows))

  newest_first-is_newest_first :
      (rows : List (EventRow T)) → is_newest_first (newest_first lt rows) ≡ true
  unfolding newest_first
  newest_first-is_newest_first [] = refl
  newest_first-is_newest_first (x ∷ rows) =
      insert_newest-is_newest_first x (newest_first lt rows) (newest_first-is_newest_first rows)

  insert_newest-perm :
      (x : EventRow T) (rows : List (EventRow T)) → Perm (insert_newest lt x rows) (x ∷ rows)
  unfolding insert_newest
  insert_newest-perm x [] = Perm.rfl
  insert_newest-perm x (y ∷ rows) = elim (Bool-cases (is_newer lt x y)) [
    | inl t ↦ rw t Perm.rfl
    | inr t ↦ rw t (Perm.trans (Perm.cons y (insert_newest-perm x rows)) (Perm.swap x y rows))
  ]

  newest_first-perm : (rows : List (EventRow T)) → Perm (newest_first lt rows) rows
  unfolding newest_first
  newest_first-perm [] = Perm.rfl
  newest_first-perm (x ∷ rows) =
      Perm.trans (insert_newest-perm x (newest_first lt rows))
        (Perm.cons x (newest_first-perm rows))

  length-insert_newest :
      (x : EventRow T) (rows : List (EventRow T))
      → length (insert_newest lt x rows) ≡ suc (length rows)
  unfolding insert_newest
  length-insert_newest x [] = refl
  length-insert_newest x (y ∷ rows) = ground (arith, length-insert_newest x rows)

  length-newest_first : (rows : List (EventRow T)) → length (newest_first lt rows) ≡ length rows
  unfolding newest_first
  length-newest_first [] = refl
  length-newest_first (x ∷ rows) =
      length-insert_newest x (newest_first lt rows) ∙ ap suc (length-newest_first rows)

  -- Of the rows that match, those selected are as many as the limit allows, and with the older ones
  -- after them they are all of the rows, newest first.
  pub record IsNewest (matching : List (EventRow T)) (max_items : ℕ) (selected : List (EventRow T))
      : Type 0 where
    pub older : List (EventRow T)
    pub same : Perm (selected ++ older) matching
    pub ordered : is_newest_first (selected ++ older) ≡ true
    pub count : length selected ≡ min max_items (length matching)

  pub select_events-IsNewest :
      (job_id : Text) (p : EventRow T → Bool) (max_items : ℕ) (rows : List (EventRow T))
      → IsNewest
          (filter (λ row. row.job_id == job_id && p row) rows)
          max_items
          (select_events lt job_id p max_items rows)
  unfolding select_events
  select_events-IsNewest job_id p max_items rows =
      let found = filter (λ row. row.job_id == job_id && p row) rows in
      let sorted = newest_first lt found in
      let whole = take-append-drop max_items sorted in
      record {
        older = drop max_items sorted;
        same = rw whole (newest_first-perm found);
        ordered = rw whole (newest_first-is_newest_first found);
        count = length-take max_items sorted ∙ ap (min max_items) (length-newest_first found);
      }

  -- A row that is newer than each of the rows comes first.
  newest_first-snoc :
      (row : EventRow T) (rows : List (EventRow T))
      → any (λ x. is_newer lt x row) rows ≡ false
      → newest_first lt (rows ++ (row ∷ [])) ≡ row ∷ newest_first lt rows
  unfolding newest_first insert_newest
  newest_first-snoc row [] h = refl
  newest_first-snoc row (x ∷ rows) h =
      let rest = newest_first-snoc row rows (ground (arith, h)) in rw rest (ground (arith, h))

  none_newer :
      (p : EventRow T → Bool) (row : EventRow T) (rows : List (EventRow T))
      → any (λ x. p x && is_newer lt x row) rows ≡ false
      → any (λ x. is_newer lt x row) (filter p rows) ≡ false
  none_newer p row [] h = refl
  none_newer p row (x ∷ rows) h = ground (arith, h, none_newer p row rows)

  -- A row that passes the test and is newer than each row of its job that does comes first of them.
  pub select_events-snoc :
      (p : EventRow T → Bool) (row : EventRow T) (n : ℕ) (rows : List (EventRow T))
      → p row ≡ true
      → any (λ x. x.job_id == row.job_id && p x && is_newer lt x row) rows ≡ false
      → select_events lt row.job_id p (suc n) (rows ++ (row ∷ []))
        ≡ row ∷ select_events lt row.job_id p n rows
  unfolding select_events
  select_events-snoc p row n rows t h =
      let q : EventRow T → Bool = λ x. x.job_id == row.job_id && p x in
      let own : filter q (row ∷ []) ≡ row ∷ [] =
        ground (arith, t, text_eq.eq_iff row.job_id row.job_id) in
      let sorted : newest_first lt (filter q (rows ++ (row ∷ [])))
          ≡ row ∷ newest_first lt (filter q rows) =
        ap (newest_first lt) (filter-snoc q rows row ∙ ap (λ r. filter q rows ++ r) own)
        ∙ newest_first-snoc row (filter q rows) (none_newer q row rows h) in
      ap (take (suc n)) sorted

  -- A row of another job is not selected.
  pub select_events-other :
      (job_id : Text) (p : EventRow T → Bool) (row : EventRow T) (n : ℕ) (rows : List (EventRow T))
      → (row.job_id == job_id) ≡ false
      → select_events lt job_id p n (rows ++ (row ∷ [])) ≡ select_events lt job_id p n rows
  unfolding select_events
  select_events-other job_id p row n rows h =
      let q : EventRow T → Bool = λ x. x.job_id == job_id && p x in
      ap (λ found. take n (newest_first lt found))
        (filter-snoc q rows row ∙ ground (arith, h, append_nil (filter q rows)))
