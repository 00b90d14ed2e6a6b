-- ===== src/Api/RateLimiter/Window.antt =====
-- `check` against the description of a sliding window.
use spatiad.Base.{
  ℕ, ◌+◌, ◌-◌, ◌≤◌, ◌<◌, ◌≡◌, refl, ◌∙◌, sym, ap, Bool, true, inl, inr, Bool-cases, List, [], ◌∷◌,
  ◌++◌, length, length-append, filter, leb, ltb, arith, ◌==◌, if◌then◌else◌,
}
use spatiad.Base.Text.{Text, text_eq, text_beq_iff}
use spatiad.Base.HashMap
use spatiad.Platform.{seconds}
use spatiad.Api.RateLimiter.{SlidingWindowRateLimiter, queue_or_default, pop_expired, admit, check}

abbrev pub Least : ℕ → List ℕ → Type 0
Least x [] = Unit {0}
Least x (y ∷ ys) = (x ≤ y) × Least x ys

-- Oldest first.
abbrev pub IsAscending : List ℕ → Type 0
IsAscending [] = Unit {0}
IsAscending (x ∷ xs) = Least x xs × IsAscending xs

-- No time later than `now`.
abbrev pub IsPast : ℕ → List ℕ → Type 0
IsPast now [] = Unit {0}
IsPast now (x ∷ xs) = (x ≤ now) × IsPast now xs

-- The times less than the window ago.
abbrev pub recent : ℕ → ℕ → List ℕ → List ℕ
recent now window = filter (λ ts. ltb now (ts + seconds window))

recent-Least :
    (now window x : ℕ) (xs : List ℕ)
    → Least x xs
    → now < x + seconds window
    → recent now window xs ≡ xs
recent-Least now window x [] l p = refl
recent-Least now window x (y ∷ ys) l p = ground (arith, recent-Least now window x ys l.1 p)

-- Dropping from the front alone drops every time that is too old.
pop_expired-recent :
    (now window : ℕ) (xs : List ℕ)
    → IsAscending xs
    → pop_expired now window xs ≡ recent now window xs
unfolding pop_expired
pop_expired-recent now window [] a = refl
pop_expired-recent now window (x ∷ xs) a =
    ground (arith, pop_expired-recent now window xs a.1, recent-Least now window x xs a.0)

Least-filter : (x : ℕ) (p : ℕ → Bool) (xs : List ℕ) → Least x xs → Least x (filter p xs)
Least-filter x p [] l = tt
Least-filter x p (y ∷ ys) l = elim (Bool-cases (p y)) [
  | inl t ↦ rw t (l.0, Least-filter x p ys l.1)
  | inr t ↦ rw t (Least-filter x p ys l.1)
]

IsAscending-filter : (p : ℕ → Bool) (xs : List ℕ) → IsAscending xs → IsAscending (filter p xs)
IsAscending-filter p [] a = tt
IsAscending-filter p (x ∷ xs) a = elim (Bool-cases (p x)) [
  | inl t ↦ rw t (Least-filter x p xs a.0, IsAscending-filter p xs a.1)
  | inr t ↦ rw t (IsAscending-filter p xs a.1)
]

IsPast-filter : (now : ℕ) (p : ℕ → Bool) (xs : List ℕ) → IsPast now xs → IsPast now (filter p xs)
IsPast-filter now p [] a = tt
IsPast-filter now p (x ∷ xs) a = elim (Bool-cases (p x)) [
  | inl t ↦ rw t (a.0, IsPast-filter now p xs a.1)
  | inr t ↦ rw t (IsPast-filter now p xs a.1)
]

IsPast-later : (before now : ℕ) (xs : List ℕ) → before ≤ now → IsPast before xs → IsPast now xs
IsPast-later before now [] l p = tt
IsPast-later before now (x ∷ xs) l p = (omega arith, IsPast-later before now xs l p.1)

length-filter : (p : ℕ → Bool) (xs : List ℕ) → length (filter p xs) ≤ length xs
length-filter p [] = omega arith
length-filter p (x ∷ xs) = ground (arith, length-filter p xs)

Least-append : (x now : ℕ) (xs : List ℕ) → Least x xs → x ≤ now → Least x (xs ++ (now ∷ []))
Least-append x now [] l p = (p, tt)
Least-append x now (y ∷ ys) l p = (l.0, Least-append x now ys l.1 p)

IsAscending-append :
    (now : ℕ) (xs : List ℕ) → IsAscending xs → IsPast now xs → IsAscending (xs ++ (now ∷ []))
IsAscending-append now [] a p = (tt, tt)
IsAscending-append now (x ∷ xs) a p =
    (Least-append x now xs a.0 p.0, IsAscending-append now xs a.1 p.1)

IsPast-append : (now : ℕ) (xs : List ℕ) → IsPast now xs → IsPast now (xs ++ (now ∷ []))
IsPast-append now [] p = (omega arith, tt)
IsPast-append now (x ∷ xs) p = (p.0, IsPast-append now xs p.1)

-- The times kept for a key.
abbrev pub queue_of : Text → SlidingWindowRateLimiter → List ℕ
queue_of key l = queue_or_default (HashMap.get key l.entries)

-- The times that `check` keeps for the key: the recent ones, and this one if it is admitted.
abbrev pub kept : SlidingWindowRateLimiter → ℕ → Text → List ℕ
kept l now key =
    let window = recent now l.window_seconds (queue_of key l) in
    if ltb (length window) l.limit_per_window then window ++ (now ∷ []) else window

-- A queue in order, with no time to come, and within the limit.
pub record IsWindow (limit now : ℕ) (queue : List ℕ) : Type 0 where
  pub ascending : IsAscending queue
  pub past : IsPast now queue
  pub bounded : length queue ≤ limit

admit-queue :
    (l : SlidingWindowRateLimiter) (now : ℕ) (queue : List ℕ)
    → ((admit l now queue).0
        ≡ (if ltb (length queue) l.limit_per_window then queue ++ (now ∷ []) else queue))
      × ((admit l now queue).1.allowed ≡ ltb (length queue) l.limit_per_window)
      × ((admit l now queue).1.remaining ≡ l.limit_per_window - length (admit l now queue).0)
unfolding admit
admit-queue l now queue = elim (Bool-cases (leb l.limit_per_window (length queue))) [
  | inl t ↦ ground (arith, t)
  | inr t ↦ ground (arith, t)
]

get-check :
    (l : SlidingWindowRateLimiter) (now : ℕ) (key other : Text)
    → queue_of other (check l now key).0 ≡ (
        if other == key
        then (admit l now (pop_expired now l.window_seconds (queue_of key l))).0
        else queue_of other l)
unfolding check
get-check l now key other =
    let queue = (admit l now (pop_expired now l.window_seconds (queue_of key l))).0 in
    ground (arith, HashMap.get-insert other key queue l.entries)

same_key : (key : Text) → (key == key) ≡ true
same_key key = (text_beq_iff key key).1 refl

admitted-kept :
    (l : SlidingWindowRateLimiter) (now : ℕ) (key : Text)
    → IsAscending (queue_of key l)
    → (admit l now (pop_expired now l.window_seconds (queue_of key l))).0 ≡ kept l now key
admitted-kept l now key a =
    (admit-queue l now (pop_expired now l.window_seconds (queue_of key l))).0
    ∙ rw (pop_expired-recent now l.window_seconds (queue_of key l) a) refl

-- Where the times of the key are kept oldest first, `check` admits the call exactly if fewer than the
-- limit of the admitted calls of the key are less than one window ago; it then keeps those calls and
-- an admitted one for the key, and the calls of every other key as they were.
pub check-recent :
    (l : SlidingWindowRateLimiter) (now : ℕ) (key : Text)
    → IsAscending (queue_of key l)
    → let (l', snapshot) = check l now key in
      (snapshot.allowed
        ≡ ltb (length (recent now l.window_seconds (queue_of key l))) l.limit_per_window)
      × (snapshot.remaining ≡ l.limit_per_window - length (queue_of key l'))
      × ((other : Text)
          → queue_of other l' ≡ (if other == key then kept l now key else queue_of other l))
unfolding check
check-recent l now key a =
    let pop = pop_expired-recent now l.window_seconds (queue_of key l) a in
    let parts = admit-queue l now (pop_expired now l.window_seconds (queue_of key l)) in
    let own : queue_of key (check l now key).0
        ≡ (admit l now (pop_expired now l.window_seconds (queue_of key l))).0 =
      get-check l now key key ∙ rw (same_key key) refl in
    (
      parts.1 ∙ ap (λ q. ltb (length q) l.limit_per_window) pop,
      parts.2 ∙ ap (λ q. l.limit_per_window - length q) (sym own),
      λ other.
          get-check l now key other
          ∙ ap (λ q. if other == key then q else queue_of other l) (admitted-kept l now key a),
    )

kept-IsWindow :
    (l : SlidingWindowRateLimiter) (before now : ℕ) (key : Text)
    → before ≤ now
    → IsWindow l.limit_per_window before (queue_of key l)
    → IsWindow l.limit_per_window now (kept l now key)
kept-IsWindow l before now key p w =
    let window = recent now l.window_seconds (queue_of key l) in
    let old = λ (ts : ℕ). ltb now (ts + seconds l.window_seconds) in
    let past =
      IsPast-filter now old (queue_of key l) (IsPast-later before now (queue_of key l) p w.past) in
    let ascending = IsAscending-filter old (queue_of key l) w.ascending in
    elim (Bool-cases (ltb (length window) l.limit_per_window)) [
      | inl t ↦ rw t (record {
        ascending = IsAscending-append now window ascending past;
        past = IsPast-append now window past;
        bounded = ground (arith, t, length-append window (now ∷ []));
      })
      | inr t ↦ rw t (record {
        ascending = ascending;
        past = past;
        bounded = omega (arith, w.bounded, length-filter old (queue_of key l));
      })
    ]

-- While the clock does not go back, `check` keeps the times of every key oldest first, none in the
-- future, and at most as many as the limit, whatever key is checked.
pub check-IsWindow :
    (l : SlidingWindowRateLimiter) (before now : ℕ) (key : Text)
    → before ≤ now
    → ((other : Text) → IsWindow l.limit_per_window before (queue_of other l))
    → (other : Text) → IsWindow l.limit_per_window now (queue_of other (check l now key).0)
check-IsWindow l before now key p w other =
    rw ((check-recent l now key (w key).ascending).2 other) (elim (Bool-cases (other == key)) [
      | inl t ↦ rw t (kept-IsWindow l before now key p (w key))
      | inr t ↦ rw t (record {
        ascending = (w other).ascending;
        past = IsPast-later before now (queue_of other l) p (w other).past;
        bounded = (w other).bounded;
      })
    ])
