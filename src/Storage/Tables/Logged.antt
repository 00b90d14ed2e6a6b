-- ===== src/Storage/Tables/Logged.antt =====
-- rust/crates/spatiad-storage/src/{sqlite,pg}.rs: the log and the snapshots that rows hold.
use spatiad.Base.{
  ℕ, ◌^◌, ◌<◌, ◌≡◌, refl, ◌∙◌, ap, sym, Bool-cases, inl, inr, true, List, [], ◌∷◌, ◌++◌, ltb,
  nat_eq, Result, ok, err, arith,
}
use mathlib.Core.Path.{subst}
use spatiad.Base.Text.{Text}
use spatiad.Storage.{Command}
use spatiad.Storage.Contract.{after, Below}
use spatiad.Storage.Tables.{Blob, Row, Bincode, rows_after, entries}
use spatiad.Storage.Tables.Order.{signed_lt-ltb, all_below}

module _ {F : Type 0} (b : Bincode F) where
  -- Rows with keys below 2^63 and with blobs that are commands.
  abbrev pub IsLog : List Row → Type 0
  IsLog [] = Unit {0}
  IsLog (row ∷ rows) =
      (row.0 < 2 ^ 63) × ((cmd : Command F) × (b.deserialize_command row.1 ≡ ok cmd)) × IsLog rows

  logged_first : ℕ → Result (Command F) Text → List (ℕ × Command F) → List (ℕ × Command F)
  logged_first n (ok cmd) rest = (n, cmd) ∷ rest
  logged_first n (err _) rest = []

  unfoldable pub logged : List Row → List (ℕ × Command F)
  unfolding logged_first
  logged [] = []
  logged (row ∷ rows) = logged_first row.0 (b.deserialize_command row.1) (logged rows)

  logged-cons :
      (row : Row) (rows : List Row) (l : IsLog (row ∷ rows))
      → logged (row ∷ rows) ≡ (row.0, l.1.0) ∷ logged rows
  unfolding logged
  logged-cons row rows l = rw (l.1.1) refl

  pub entries-IsLog : (rows : List Row) → IsLog rows → entries ⦃b = b⦄ rows ≡ ok (logged rows)
  unfolding entries logged
  entries-IsLog [] l = refl
  entries-IsLog (row ∷ rows) l = rw (l.1.1) (rw (entries-IsLog rows l.2) refl)

  pub IsLog-append :
      (n : ℕ) (blob : Blob) (cmd : Command F) (rows : List Row)
      → n < 2 ^ 63
      → b.deserialize_command blob ≡ ok cmd
      → IsLog rows
      → IsLog (rows ++ ((n, blob) ∷ []))
        × (logged (rows ++ ((n, blob) ∷ [])) ≡ logged rows ++ ((n, cmd) ∷ []))
  unfolding logged
  IsLog-append n blob cmd [] room p l = ((room, (cmd, p), tt), rw p refl)
  IsLog-append n blob cmd (row ∷ rows) room p l =
      let rest = IsLog-append n blob cmd rows room p l.2 in
      ((l.0, l.1, rest.0), rw (l.1.1) (ap (λ es. (row.0, l.1.0) ∷ es) rest.1))

  pub all_below-Below :
      (m n : ℕ) (rows : List Row)
      → m < n
      → n < 2 ^ 63
      → IsLog rows
      → Below m (logged rows)
      → all_below n rows ≡ true
  unfolding logged
  all_below-Below m n [] p room l below = refl
  all_below-Below m n (row ∷ rows) p room l below =
      let cases : Below m ((row.0, l.1.0) ∷ logged rows) =
        subst (λ es. Below m es) (logged-cons row rows l) below in
      ground (
        arith,
        signed_lt-ltb row.0 n l.0 room,
        cases.0,
        all_below-Below m n rows p room l.2 cases.1,
      )

  pub rows_after-IsLog :
      (n : ℕ) (rows : List Row)
      → n < 2 ^ 63
      → IsLog rows
      → IsLog (rows_after n rows) × (logged (rows_after n rows) ≡ after n (logged rows))
  unfolding logged
  rows_after-IsLog n [] room l = (tt, refl)
  rows_after-IsLog n (row ∷ rows) room l =
      let rest = rows_after-IsLog n rows room l.2 in
      let same = signed_lt-ltb n row.0 room l.0 in
      let found = ap (after n) (logged-cons row rows l) in
      elim (Bool-cases (ltb n row.0)) [
        | inl q ↦
            let kept : after n ((row.0, l.1.0) ∷ logged rows)
                ≡ (row.0, l.1.0) ∷ after n (logged rows) =
              rw q refl in
            rw (same, q)
              (
                (l.0, l.1, rest.0),
                logged-cons row _ (l.0, l.1, rest.0)
                    ∙ ap (λ es. (row.0, l.1.0) ∷ es) rest.1
                    ∙ sym (found ∙ kept),
              )
        | inr q ↦
            let left : after n ((row.0, l.1.0) ∷ logged rows) ≡ after n (logged rows) = rw q refl in
            rw (same, q) (rest.0, rest.1 ∙ sym (found ∙ left))
      ]
