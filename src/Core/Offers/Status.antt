-- ===== src/Core/Offers/Status.antt =====
-- What `job_dispatch_state` says of a matched job.
use spatiad.Base.{
  ℕ, ◌≡◌, refl, ◌∙◌, sym, ap, ◌↔◌, Bool, true, ◌&&◌, some, Option-cases, Bool-cases, inl, inr, List,
  [], ◌∷◌, filter, find, any, nat_eq, ◌==◌, arith,
}
use spatiad.Base.HashMap
use spatiad.Base.HashMap.{HashMap}
use spatiad.Base.HashSet
use spatiad.Types.{OfferRecord, is_accepted, is_pending}
use spatiad.Core.State.{Engine, JobDispatchState}
use spatiad.Core.Offers.{job_dispatch_state, state_of_offers}
use spatiad.Core.Offers.Exclusive.{IsExclusive}
use spatiad.Core.Offers.Expiry.{IsDistinct}

find-filter :
    (p q : OfferRecord → Bool) (xs : List OfferRecord)
    → find p (filter q xs) ≡ find (λ x. q x && p x) xs
find-filter p q [] = refl
find-filter p q (x ∷ xs) = ground (arith, find-filter p q xs)

-- What a search of the values finds is stored under some key.
find-values :
    (p : OfferRecord → Bool) (m : HashMap ℕ OfferRecord) (v : OfferRecord)
    → IsDistinct m
    → find p (HashMap.values m) ≡ some v
    → (k : ℕ) × (HashMap.get k m ≡ some v) × (p v ≡ true)
unfolding HashMap.get
find-values p [] v d q = ground (arith, q)
find-values p ((i, w) ∷ m) v d q = elim (Bool-cases (p w)) [
  | inl t ↦ (i, ground (arith, q, t), ground (arith, q, t))
  | inr t ↦
      let rest = find-values p m v d.1 (ground (arith, q, t)) in
      (rest.0, ground (arith, d.0, rest.1), rest.2)
]

-- A search of the values finds one if some key has one.
values-find :
    (p : OfferRecord → Bool) (m : HashMap ℕ OfferRecord) (k : ℕ) (v : OfferRecord)
    → HashMap.get k m ≡ some v
    → p v ≡ true
    → (u : OfferRecord) × (find p (HashMap.values m) ≡ some u)
unfolding HashMap.get
values-find p [] k v q t = ground (arith, q)
values-find p ((i, w) ∷ m) k v q t = elim (Bool-cases (p w)) [
  | inl s ↦ (w, ground (arith, s))
  | inr s ↦
      let rest = values-find p m k v (ground (arith, q, t, s)) t in
      (rest.0, ground (arith, s, rest.1))
]

matched-state_of_offers :
    (offers : List OfferRecord) (c : Bool) (o : OfferRecord)
    → find (λ x. is_accepted x.status) offers ≡ some o
    → state_of_offers offers c ≡ JobDispatchState.matched o.driver_id o.offer_id
unfolding state_of_offers
matched-state_of_offers [] c o q = ground (arith, q)
matched-state_of_offers (x ∷ xs) c o q = rw q refl

abbrev is_match_of : ℕ → OfferRecord → Bool
is_match_of job_id o = o.job_id == job_id && is_accepted o.status

state_of_offers-matched :
    (offers : List OfferRecord) (c : Bool) (d k : ℕ)
    → state_of_offers offers c ≡ JobDispatchState.matched d k
    → (o : OfferRecord) × (find (λ x. is_accepted x.status) offers ≡ some o)
      × (o.driver_id ≡ d)
      × (o.offer_id ≡ k)
unfolding state_of_offers
state_of_offers-matched [] c d k q = ground (arith, q)
state_of_offers-matched (x ∷ xs) c d k q =
    elim (Option-cases (find (λ y. is_accepted y.status) (x ∷ xs))) [
      | inl n ↦ elim (Bool-cases (any (λ y. is_pending y.status) (x ∷ xs))) [
        | inl t ↦ ground (arith, q, n, t, Bool-cases c)
        | inr t ↦ ground (arith, q, n, t, Bool-cases c)
      ]
      | inr (o, n) ↦ (o, n, ground (arith, q, n), ground (arith, q, n))
    ]

module _ {F S : Type 0} where
  find-job :
      (e : Engine F S) (job_id : ℕ)
      → find
          (λ o. is_accepted o.status)
          (filter (λ o. o.job_id == job_id) (HashMap.values e.offers))
        ≡ find (is_match_of job_id) (HashMap.values e.offers)
  find-job e job_id =
      find-filter (λ o. is_accepted o.status) (λ o. o.job_id == job_id) (HashMap.values e.offers)

  known_state :
      (e : Engine F S) (job_id : ℕ)
      → HashMap.contains_key job_id e.jobs ≡ true
      → job_dispatch_state e job_id
        ≡ state_of_offers
            (filter (λ o. o.job_id == job_id) (HashMap.values e.offers))
            (HashSet.contains job_id e.cancelled_jobs)
  unfolding job_dispatch_state
  known_state e job_id known = rw (known, job_dispatch_state) refl

  -- The accepted offer that the search finds is the one that is known.
  found_match :
      (e : Engine F S) (job_id offer_id : ℕ) (o : OfferRecord)
      → IsExclusive e.offers
      → IsDistinct e.offers
      → HashMap.get offer_id e.offers ≡ some o
      → is_match_of job_id o ≡ true
      → find (is_match_of job_id) (HashMap.values e.offers) ≡ some o
  found_match e job_id offer_id o x d q t =
      let u = values-find (is_match_of job_id) e.offers offer_id o q t in
      let v = find-values (is_match_of job_id) e.offers u.0 d u.1 in
      let same : v.0 ≡ offer_id =
        x.single v.0 offer_id u.0 o v.1 q (ground (arith, v.2, t)) (ground (arith, v.2))
          (ground (arith, t)) in
      u.1 ∙ sym v.1 ∙ ap (λ i. HashMap.get i e.offers) same ∙ q

  -- For a known job, where an accepted offer is the only live offer of its job, offers stand under
  -- their ids and no id occurs twice: the state is `matched` with a driver and an offer exactly if
  -- that offer is stored, is an accepted offer of the job, and was made to that driver.
  pub job_dispatch_state_matched_iff :
      (e : Engine F S) (job_id driver_id offer_id : ℕ)
      → IsExclusive e.offers
      → IsDistinct e.offers
      → HashMap.contains_key job_id e.jobs ≡ true
      → (job_dispatch_state e job_id ≡ JobDispatchState.matched driver_id offer_id) ↔ (
          (o : OfferRecord) × (HashMap.get offer_id e.offers ≡ some o)
          × (is_match_of job_id o ≡ true)
          × (o.driver_id ≡ driver_id))
  job_dispatch_state_matched_iff e job_id driver_id offer_id x d known = (
    λ q.
        let m =
          state_of_offers-matched (filter (λ o. o.job_id == job_id) (HashMap.values e.offers))
            (HashSet.contains job_id e.cancelled_jobs) driver_id offer_id
            (sym (known_state e job_id known) ∙ q) in
        let v = find-values (is_match_of job_id) e.offers m.0 d (sym (find-job e job_id) ∙ m.1) in
        (m.0, ap (λ i. HashMap.get i e.offers) (sym m.3 ∙ x.keyed v.0 m.0 v.1) ∙ v.1, v.2, m.2),
    λ m.
        known_state e job_id known
        ∙ matched-state_of_offers _ _ m.0
            (find-job e job_id ∙ found_match e job_id offer_id m.0 x d m.1 m.2)
        ∙ rw (m.3, x.keyed offer_id m.0 m.1) refl,
  )
