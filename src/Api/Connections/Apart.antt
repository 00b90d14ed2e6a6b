-- ===== src/Api/Connections/Apart.antt =====
-- rust/crates/spatiad-api/src/lib.rs: the sender of a channel stands under one driver.
use spatiad.Base.{
  ℕ, ◌≡◌, ◌≢◌, refl, false, none, some, [], ◌∷◌, any, nat_beq, nat_eq, arith, Bool-cases, inl, inr,
}
use spatiad.Base.HashMap
use spatiad.Base.HashMap.{HashMap}

-- No driver and no channel twice.
abbrev pub IsApart : HashMap ℕ ℕ → Type 0
IsApart [] = Unit {0}
IsApart ((k, c) ∷ m) =
    (HashMap.get k m ≡ none) × (any (λ x. nat_beq x c) (HashMap.values m) ≡ false) × IsApart m

absent :
    (k c : ℕ) (m : HashMap ℕ ℕ)
    → any (λ x. nat_beq x c) (HashMap.values m) ≡ false
    → HashMap.get k m ≢ some c
unfolding HashMap.get
absent k c [] p q = ground (arith, q)
absent k c ((j, x) ∷ m) p q = ground (arith, p, q, absent k c m)

pub insert-IsApart :
    (k c : ℕ) (m : HashMap ℕ ℕ)
    → any (λ x. nat_beq x c) (HashMap.values m) ≡ false
    → IsApart m
    → IsApart (HashMap.insert k c m)
unfolding HashMap.insert HashMap.get
insert-IsApart k c [] p a = (refl, refl, tt)
insert-IsApart k c ((j, x) ∷ m) p a = elim (Bool-cases (nat_beq k j)) [
  | inl t ↦ rw t (ground (arith, a.0, t), ground (arith, p), a.2)
  | inr t ↦ rw t (
    ground (arith, a.0, t, HashMap.get-insert j k c m),
    HashMap.any-values-insert (λ y. nat_beq y x) k c m (ground (arith, p)) a.1,
    insert-IsApart k c m (ground (arith, p)) a.2,
  )
]

pub remove-IsApart : (k : ℕ) (m : HashMap ℕ ℕ) → IsApart m → IsApart (HashMap.remove k m)
unfolding HashMap.remove
remove-IsApart k [] a = tt
remove-IsApart k ((j, x) ∷ m) a = elim (Bool-cases (nat_beq k j)) [
  | inl t ↦ rw t (remove-IsApart k m a.2)
  | inr t ↦ rw t (
    ground (arith, a.0, t, HashMap.get-remove j k m),
    HashMap.any-values-remove (λ y. nat_beq y x) k m a.1,
    remove-IsApart k m a.2,
  )
]

-- The channel that a driver had is no driver's once the entry is replaced or removed.
pub replaced :
    (k c n : ℕ) (m : HashMap ℕ ℕ)
    → IsApart m
    → HashMap.get k m ≡ some c
    → nat_beq n c ≡ false
    → any (λ x. nat_beq x c) (HashMap.values (HashMap.insert k n m)) ≡ false
unfolding HashMap.get HashMap.insert
replaced k c n [] a p q = ground (arith, p)
replaced k c n ((j, x) ∷ m) a p q = elim (Bool-cases (nat_beq k j)) [
  | inl t ↦ ground (arith, t, p, q, a.1)
  | inr t ↦
      let rest = replaced k c n m a.2 (ground (arith, t, p)) q in
      ground (arith, t, rest, absent k x m a.1, p)
]

pub removed :
    (k c : ℕ) (m : HashMap ℕ ℕ)
    → IsApart m
    → HashMap.get k m ≡ some c
    → any (λ x. nat_beq x c) (HashMap.values (HashMap.remove k m)) ≡ false
unfolding HashMap.get HashMap.remove
removed k c [] a p = ground (arith, p)
removed k c ((j, x) ∷ m) a p = elim (Bool-cases (nat_beq k j)) [
  | inl t ↦ rw t (HashMap.any-values-remove (λ y. nat_beq y c) k m (ground (arith, t, p, a.1)))
  | inr t ↦
      let rest = removed k c m a.2 (ground (arith, t, p)) in
      ground (arith, t, rest, absent k x m a.1, p)
]
