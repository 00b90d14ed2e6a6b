-- ===== src/Core/Search/Termination.antt =====
-- The rounds of the search over the radius, under laws of floats.
use spatiad.Base.{
  ℕ, zero, suc, ◌+◌, ◌*◌, ◌≤◌, ◌<◌, ◌≡◌, ◌∙◌, ap, ◌≢◌, true, false, Option, Option-cases,
  Bool-cases, inl, inr, ◌⊎◌, arith,
}
use spatiad.Platform.{F64}
use spatiad.Types.{JobRequest}
use spatiad.Core.Search.{Search, expand_radius_km, search_from, search_job}

-- What the search needs of floats, with the integer part of a number. The laws on sums are for
-- numbers from 0.1 to about 1000, where adding 1 or 2 is never lost to rounding.
pub record RadiusLaws (F : Type 0) ⦃f : F64 F⦄ : Type 0 where
  pub floor : F → ℕ
  pub min-cases : (x y : F) → (f.min x y ≡ x) ⊎ (f.min x y ≡ y)
  pub tenth : f.le (f.decimal 1 1) (f.decimal 1 1) ≡ true
  pub le-max : (a x y : F) → f.le a y ≡ true → f.le a (f.max x y) ≡ true
  pub lt-max : (x y : F) → f.lt (f.max x y) y ≡ false
  pub le-add :
      (r : F)
      → f.le (f.decimal 1 1) r ≡ true
      → f.le (f.decimal 1 1) (f.add r (f.decimal 2 0)) ≡ true
  pub floor-add :
      (r : F)
      → f.le (f.decimal 1 1) r ≡ true
      → floor r ≤ 1000
      → floor r + 2 ≤ floor (f.add r (f.decimal 2 0))
  pub lt-add :
      (m : F)
      → f.le (f.decimal 1 1) m ≡ true
      → floor m ≤ 1000
      → f.lt m (f.add m (f.decimal 1 0)) ≡ true
  pub floor-le :
      (m x : F)
      → f.le (f.decimal 1 1) x ≡ true
      → floor m ≤ 1000
      → f.lt m x ≡ false
      → floor x ≤ floor m

module _ {F : Type 0} ⦃f : F64 F⦄ (laws : RadiusLaws F) where
  open laws use {floor}

  -- A next radius that is not above the maximum is larger by two.
  next_radius :
      (r m : F)
      → f.le (f.decimal 1 1) m ≡ true
      → floor m ≤ 1000
      → f.lt m (expand_radius_km r m) ≡ false
      → expand_radius_km r m ≡ f.add r (f.decimal 2 0)
  unfolding expand_radius_km
  next_radius r m p bound q =
      elim (laws.min-cases (f.add r (f.decimal 2 0)) (f.add m (f.decimal 1 0))) [
        | inl t ↦ t
        | inr t ↦ ground (arith, t, q, laws.lt-add m p bound)
      ]

  -- What holds at the next radius where the loop goes on.
  next_radius_grows :
      (r m : F)
      → f.le (f.decimal 1 1) r ≡ true
      → f.le (f.decimal 1 1) m ≡ true
      → floor r ≤ floor m
      → floor m ≤ 1000
      → f.lt m (expand_radius_km r m) ≡ false
      → (f.le (f.decimal 1 1) (expand_radius_km r m) ≡ true)
        × (floor r + 2 ≤ floor (expand_radius_km r m))
        × (floor (expand_radius_km r m) ≤ floor m)
  next_radius_grows r m a p low bound q =
      let same = next_radius r m p bound q in
      let positive = ap (f.le (f.decimal 1 1)) same ∙ laws.le-add r a in
      (
        positive,
        rw same (laws.floor-add r a (omega (arith, low, bound))),
        laws.floor-le m (expand_radius_km r m) positive bound q,
      )

  -- One round: either it is the last, or the loop goes on with the next radius.
  round_ends :
      (fuel : ℕ) (r m : F) (pick : F → Option ℕ)
      → (f.lt m (expand_radius_km r m) ≡ false
          → search_from fuel (expand_radius_km r m) m pick ≢ Search.out_of_fuel)
      → search_from (suc fuel) r m pick ≢ Search.out_of_fuel
  unfolding search_from
  round_ends fuel r m pick rest s = elim (Bool-cases (f.le r (f.add m f.epsilon))) [
    | inl t ↦ elim (Option-cases (pick r)) [
      | inl n ↦ elim (Bool-cases (f.lt m (expand_radius_km r m))) [
        | inl q ↦ ground (arith, s, t, n, q)
        | inr q ↦ rest q (ground (arith, s, t, n, q))
      ]
      | inr (d, n) ↦ ground (arith, s, t, n)
    ]
    | inr t ↦ ground (arith, s, t)
  ]

  search_from_ends :
      (fuel : ℕ) (r m : F) (pick : F → Option ℕ)
      → f.le (f.decimal 1 1) r ≡ true
      → f.le (f.decimal 1 1) m ≡ true
      → floor r ≤ floor m
      → floor m ≤ 1000
      → floor m < floor r + 2 * (fuel + 1)
      → search_from (suc fuel) r m pick ≢ Search.out_of_fuel
  search_from_ends zero r m pick a p low bound enough = round_ends zero r m pick (λ q _.
      let next = next_radius_grows r m a p low bound q in omega (arith, next.1, next.2, enough))
  search_from_ends (suc fuel) r m pick a p low bound enough = round_ends (suc fuel) r m pick (λ q.
      let next = next_radius_grows r m a p low bound q in
      search_from_ends fuel (expand_radius_km r m) m pick next.0 p next.2 bound
        (omega (arith, next.1, enough)))

  -- Under the laws of floats above, where the job's largest radius is below 1001 km, the search comes
  -- to an end within its 1024 rounds: it finds a driver or runs out of radius, whatever driver is
  -- picked at each radius.
  pub search_job_ends :
      (job : JobRequest F) (pick : F → Option ℕ)
      → floor (f.max job.max_radius_km (f.max job.initial_radius_km (f.decimal 1 1))) ≤ 1000
      → search_job job pick ≢ Search.out_of_fuel
  unfolding search_job
  search_job_ends job pick bound =
      let r = f.max job.initial_radius_km (f.decimal 1 1) in
      let m = f.max job.max_radius_km r in
      let a = laws.le-max (f.decimal 1 1) job.initial_radius_km (f.decimal 1 1) laws.tenth in
      search_from_ends 1023 r m pick a (laws.le-max (f.decimal 1 1) job.max_radius_km r a)
        (laws.floor-le m r a bound (laws.lt-max job.max_radius_km r)) bound (omega (arith, bound))
