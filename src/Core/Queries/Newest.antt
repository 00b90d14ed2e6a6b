-- ===== src/Core/Queries/Newest.antt =====
-- Lists of events with the newest first, and what filters and prefixes keep of them.
use mathlib.Core.List.{reverse-cons}
use spatiad.Base.{
  ℕ, zero, suc, ◌+◌, ◌≤◌, ◌<◌, ◌≡◌, refl, ◌∙◌, ap, Bool, true, ◌&&◌, ◌||◌, Bool-cases, inl, inr,
  List, [], ◌∷◌, ◌++◌, length, take, filter, any, reverse, arith, nat_eq,
}
use spatiad.Core.State.{JobEventRecord}
use spatiad.Core.Journal.Numbering.{Numbered}

abbrev pub Every : (JobEventRecord → Bool) → List JobEventRecord → Type 0
Every p [] = Unit {0}
Every p (x ∷ xs) = (p x ≡ true) × Every p xs

abbrev pub IsBelow : ℕ → List JobEventRecord → Type 0
IsBelow n [] = Unit {0}
IsBelow n (x ∷ xs) = (x.sequence < n) × IsBelow n xs

abbrev pub IsAbove : ℕ → List JobEventRecord → Type 0
IsAbove n [] = Unit {0}
IsAbove n (x ∷ xs) = (n < x.sequence) × IsAbove n xs

-- The numbers fall.
abbrev pub IsNewestFirst : List JobEventRecord → Type 0
IsNewestFirst [] = Unit {0}
IsNewestFirst (x ∷ xs) = IsBelow x.sequence xs × IsNewestFirst xs

IsBelow-append :
    (n : ℕ) (xs : List JobEventRecord) (x : JobEventRecord)
    → IsBelow n xs
    → x.sequence < n
    → IsBelow n (xs ++ (x ∷ []))
IsBelow-append n [] x l p = (p, tt)
IsBelow-append n (y ∷ ys) x l p = (l.0, IsBelow-append n ys x l.1 p)

IsAbove-append :
    (n : ℕ) (xs : List JobEventRecord) (x : JobEventRecord)
    → IsAbove n xs
    → n < x.sequence
    → IsAbove n (xs ++ (x ∷ []))
IsAbove-append n [] x l p = (p, tt)
IsAbove-append n (y ∷ ys) x l p = (l.0, IsAbove-append n ys x l.1 p)

IsNewestFirst-append :
    (xs : List JobEventRecord) (x : JobEventRecord)
    → IsNewestFirst xs
    → IsAbove x.sequence xs
    → IsNewestFirst (xs ++ (x ∷ []))
IsNewestFirst-append [] x l a = (tt, tt)
IsNewestFirst-append (y ∷ ys) x l a =
    (IsBelow-append y.sequence ys x l.0 a.0, IsNewestFirst-append ys x l.1 a.1)

IsAbove-reverse : (n : ℕ) (xs : List JobEventRecord) → IsAbove n xs → IsAbove n (reverse xs)
IsAbove-reverse n [] a = tt
IsAbove-reverse n (x ∷ xs) a =
    rw (reverse-cons x xs) (IsAbove-append n (reverse xs) x (IsAbove-reverse n xs a.1) a.0)

Numbered-IsAbove :
    (m n : ℕ) (xs : List JobEventRecord) → Numbered xs n → m + length xs ≤ n → IsAbove m xs
Numbered-IsAbove m n [] h p = tt
Numbered-IsAbove m n (x ∷ xs) h p =
    (omega (arith, h.0, p), Numbered-IsAbove m n xs h.1 (omega (arith, p)))

-- The history backwards: the newest event first.
pub reverse-IsNewestFirst :
    (xs : List JobEventRecord) (n : ℕ) → Numbered xs n → IsNewestFirst (reverse xs)
reverse-IsNewestFirst [] n h = tt
reverse-IsNewestFirst (x ∷ xs) n h = rw (reverse-cons x xs) (
    IsNewestFirst-append (reverse xs) x (reverse-IsNewestFirst xs n h.1)
      (IsAbove-reverse x.sequence xs (Numbered-IsAbove x.sequence n xs h.1 (omega (arith, h.0)))))

IsBelow-filter :
    (n : ℕ) (p : JobEventRecord → Bool) (xs : List JobEventRecord)
    → IsBelow n xs
    → IsBelow n (filter p xs)
IsBelow-filter n p [] l = tt
IsBelow-filter n p (x ∷ xs) l = elim (Bool-cases (p x)) [
  | inl t ↦ rw t (l.0, IsBelow-filter n p xs l.1)
  | inr t ↦ rw t (IsBelow-filter n p xs l.1)
]

pub IsNewestFirst-filter :
    (p : JobEventRecord → Bool) (xs : List JobEventRecord)
    → IsNewestFirst xs
    → IsNewestFirst (filter p xs)
IsNewestFirst-filter p [] l = tt
IsNewestFirst-filter p (x ∷ xs) l = elim (Bool-cases (p x)) [
  | inl t ↦ rw t (IsBelow-filter x.sequence p xs l.0, IsNewestFirst-filter p xs l.1)
  | inr t ↦ rw t (IsNewestFirst-filter p xs l.1)
]

IsBelow-take : (n k : ℕ) (xs : List JobEventRecord) → IsBelow n xs → IsBelow n (take k xs)
IsBelow-take n zero xs l = tt
IsBelow-take n (suc k) [] l = tt
IsBelow-take n (suc k) (x ∷ xs) l = (l.0, IsBelow-take n k xs l.1)

pub IsNewestFirst-take :
    (k : ℕ) (xs : List JobEventRecord) → IsNewestFirst xs → IsNewestFirst (take k xs)
IsNewestFirst-take zero xs l = tt
IsNewestFirst-take (suc k) [] l = tt
IsNewestFirst-take (suc k) (x ∷ xs) l =
    (IsBelow-take x.sequence k xs l.0, IsNewestFirst-take k xs l.1)

pub Every-take :
    (p : JobEventRecord → Bool) (k : ℕ) (xs : List JobEventRecord)
    → Every p xs
    → Every p (take k xs)
Every-take p zero xs l = tt
Every-take p (suc k) [] l = tt
Every-take p (suc k) (x ∷ xs) l = (l.0, Every-take p k xs l.1)

pub filter-Every : (p : JobEventRecord → Bool) (xs : List JobEventRecord) → Every p (filter p xs)
filter-Every p [] = tt
filter-Every p (x ∷ xs) = elim (Bool-cases (p x)) [
  | inl t ↦ rw t (t, filter-Every p xs)
  | inr t ↦ rw t (filter-Every p xs)
]

pub Every-filter :
    (p q : JobEventRecord → Bool) (xs : List JobEventRecord) → Every q xs → Every q (filter p xs)
Every-filter p q [] l = tt
Every-filter p q (x ∷ xs) l = elim (Bool-cases (p x)) [
  | inl t ↦ rw t (l.0, Every-filter p q xs l.1)
  | inr t ↦ rw t (Every-filter p q xs l.1)
]

-- A prefix that is not full is everything.
pub take-short : (k : ℕ) (xs : List JobEventRecord) → length (take k xs) < k → take k xs ≡ xs
take-short zero xs p = ground (arith, p)
take-short (suc k) [] p = refl
take-short (suc k) (x ∷ xs) p = ap (λ r. x ∷ r) (take-short k xs (omega (arith, p)))

any-append :
    (p : JobEventRecord → Bool) (xs : List JobEventRecord) (x : JobEventRecord)
    → any p (xs ++ (x ∷ [])) ≡ (p x || any p xs)
any-append p [] x = ground arith
any-append p (y ∷ ys) x = ground (arith, any-append p ys x)

pub any-reverse :
    (p : JobEventRecord → Bool) (xs : List JobEventRecord) → any p (reverse xs) ≡ any p xs
any-reverse p [] = refl
any-reverse p (x ∷ xs) =
    ap (any p) (reverse-cons x xs)
    ∙ any-append p (reverse xs) x
    ∙ ap (λ r. p x || r) (any-reverse p xs)

pub any-filter :
    (p q : JobEventRecord → Bool) (xs : List JobEventRecord)
    → any p (filter q xs) ≡ any (λ x. q x && p x) xs
any-filter p q [] = refl
any-filter p q (x ∷ xs) = ground (arith, any-filter p q xs)
