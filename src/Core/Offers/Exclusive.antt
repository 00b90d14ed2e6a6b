-- ===== src/Core/Offers/Exclusive.antt =====
-- The rule of one match for each job, and the commands on offers.
use spatiad.Base.{
  ℕ, nat_beq, ◌≡◌, ◌∙◌, sym, ◌≢◌, Bool, true, false, ◌||◌, some, Option-cases, Bool-cases, inl, inr,
  ◌⊎◌, nat_eq, arith, any,
}
use spatiad.Base.HashMap
use spatiad.Base.HashMap.{HashMap}
use spatiad.Platform.{F64, H3}
use spatiad.Types.{OfferStatus, OfferRecord, is_pending, is_accepted}
use spatiad.Storage.{StorageBackend}
use spatiad.Core.EventKind.{Codec, JobEventKind}
use spatiad.Core.State.{Engine}
use spatiad.Core.Journal.Frame.{push_job_event-SameTables}
use spatiad.Core.Search.{is_accepted_for}
use spatiad.Core.Commands.{apply_accept_offer, apply_mark, apply_cancel_job, apply_create_offer}
use spatiad.Core.Commands.Tables.{get-accept_offer, get-mark, get-cancel_job}
use spatiad.Core.Offers.Responses.{IsKeyed}

-- Pending or accepted.
abbrev pub is_live : OfferStatus → Bool
is_live s = is_pending s || is_accepted s

-- Offers are stored under their ids, and an accepted offer is the only pending or accepted offer of
-- its job.
pub record IsExclusive (offers : HashMap ℕ OfferRecord) : Type 0 where
  pub keyed : IsKeyed offers
  pub single :
      (j k : ℕ) (x y : OfferRecord)
      → HashMap.get j offers ≡ some x
      → HashMap.get k offers ≡ some y
      → x.job_id ≡ y.job_id
      → is_accepted x.status ≡ true
      → is_live y.status ≡ true
      → j ≡ k

-- Every live offer of `new` is one of `old`, and `new` is keyed too.
pub record Retires (old new : HashMap ℕ OfferRecord) : Type 0 where
  pub keys : IsKeyed new
  pub kept :
      (k : ℕ) (y : OfferRecord)
      → HashMap.get k new ≡ some y
      → is_live y.status ≡ true
      → HashMap.get k old ≡ some y

pub Retires-IsExclusive :
    (old new : HashMap ℕ OfferRecord) → Retires old new → IsExclusive old → IsExclusive new
Retires-IsExclusive old new r x = record {
  keyed = r.keys;
  single = λ j k a b p q same acc live.
      x.single j k a b (r.kept j a p (ground arith)) (r.kept k b q live) same acc live;
}

module _ {F S : Type 0} ⦃f : F64 F⦄ ⦃h : H3 F⦄ ⦃c : Codec⦄ ⦃b : StorageBackend F S⦄ where
  pub mark-Retires :
      (e : Engine F S) (offer_id : ℕ) (status : OfferStatus) (event : ℕ → ℕ → JobEventKind)
      → is_live status ≡ false
      → IsKeyed e.offers
      → Retires e.offers (apply_mark e offer_id status event).offers
  mark-Retires e offer_id status event dead keyed =
      elim (Option-cases (HashMap.get offer_id e.offers)) [
        | inl p ↦
            unfold apply_mark in rw (p, apply_mark) (record { keys = keyed; kept = λ k y q l. q })
        | inr (o, p) ↦ record {
          keys = λ k y q.
              ground (
                arith,
                p,
                q,
                keyed offer_id o p,
                keyed k y,
                get-mark e offer_id status event o k p,
              );
          kept = λ k y q l. ground (arith, p, q, get-mark e offer_id status event o k p);
        }
      ]

  pub cancel_job-Retires :
      (e : Engine F S) (job_id : ℕ)
      → IsKeyed e.offers
      → Retires e.offers (apply_cancel_job e job_id).offers
  cancel_job-Retires e job_id keyed = elim (Bool-cases (HashMap.contains_key job_id e.jobs)) [
    | inl p ↦ record {
      keys = λ k y q. elim (Option-cases (HashMap.get k e.offers)) [
        | inl n ↦ ground (arith, q, n, get-cancel_job e job_id k p)
        | inr (o, n) ↦ ground (arith, q, n, keyed k o n, get-cancel_job e job_id k p)
      ];
      kept = λ k y q l. elim (Option-cases (HashMap.get k e.offers)) [
        | inl n ↦ ground (arith, q, n, get-cancel_job e job_id k p)
        | inr (o, n) ↦ ground (arith, q, n, get-cancel_job e job_id k p)
      ];
    }
    | inr p ↦
        unfold apply_cancel_job in
        rw (p, apply_cancel_job) (record { keys = keyed; kept = λ k y q l. q })
  ]

  -- After the offer is accepted, the other live offers are offers of other jobs, as they were.
  live-accept_offer :
      (e : Engine F S) (offer_id : ℕ) (o : OfferRecord)
      → HashMap.get offer_id e.offers ≡ some o
      → is_pending o.status ≡ true
      → IsExclusive e.offers
      → (k : ℕ) (y : OfferRecord) → k ≢ offer_id
      → HashMap.get k (apply_accept_offer e offer_id).offers ≡ some y
      → is_live y.status ≡ true
      → (HashMap.get k e.offers ≡ some y) × (y.job_id ≢ o.job_id)
  live-accept_offer e offer_id o p pending x k y other q live =
      elim (Option-cases (HashMap.get k e.offers)) [
        | inl n ↦ ground (arith, q, n, get-accept_offer e offer_id o k p)
        | inr (z, n) ↦
            let unique : z.job_id ≡ o.job_id → is_accepted z.status ≡ true → k ≡ offer_id =
              λ same acc. x.single k offer_id z o n p same acc (ground arith) in
            ground (
              arith,
              p,
              q,
              n,
              x.keyed k z n,
              x.keyed offer_id o p,
              unique,
              get-accept_offer e offer_id o k p,
            )
      ]

  -- The same by cases on the key.
  live-cases :
      (e : Engine F S) (offer_id : ℕ) (o : OfferRecord)
      → HashMap.get offer_id e.offers ≡ some o
      → is_pending o.status ≡ true
      → IsExclusive e.offers
      → (k : ℕ) (y : OfferRecord) → HashMap.get k (apply_accept_offer e offer_id).offers ≡ some y
      → is_live y.status ≡ true
      → ((k ≡ offer_id) × (y.job_id ≡ o.job_id))
        ⊎ ((HashMap.get k e.offers ≡ some y) × (y.job_id ≢ o.job_id))
  live-cases e offer_id o p pending x k y q live = elim (Bool-cases (nat_beq k offer_id)) [
    | inl t ↦ inl (ground arith, ground (arith, p, q, get-accept_offer e offer_id o k p))
    | inr t ↦ inr (live-accept_offer e offer_id o p pending x k y (ground arith) q live)
  ]

  IsKeyed-accept_offer :
      (e : Engine F S) (offer_id : ℕ) (o : OfferRecord)
      → HashMap.get offer_id e.offers ≡ some o
      → IsKeyed e.offers
      → IsKeyed (apply_accept_offer e offer_id).offers
  IsKeyed-accept_offer e offer_id o p keyed k y q = elim (Option-cases (HashMap.get k e.offers)) [
    | inl n ↦ ground (arith, p, q, n, get-accept_offer e offer_id o k p)
    | inr (z, n) ↦ ground (arith, p, q, n, keyed k z n, get-accept_offer e offer_id o k p)
  ]

  pub accept_offer-IsExclusive :
      (e : Engine F S) (offer_id : ℕ) (o : OfferRecord)
      → HashMap.get offer_id e.offers ≡ some o
      → is_pending o.status ≡ true
      → IsExclusive e.offers
      → IsExclusive (apply_accept_offer e offer_id).offers
  accept_offer-IsExclusive e offer_id o p pending x = record {
    keyed = IsKeyed-accept_offer e offer_id o p x.keyed;
    single = λ j k y z q r same acc live.
        elim (live-cases e offer_id o p pending x j y q (ground arith)) [
          | inl a ↦ elim (live-cases e offer_id o p pending x k z r live) [
            | inl d ↦ a.0 ∙ sym d.0
            | inr d ↦ ground (arith, a.1, d.1)
          ]
          | inr a ↦ elim (live-cases e offer_id o p pending x k z r live) [
            | inl d ↦ ground (arith, a.1, d.1)
            | inr d ↦ x.single j k y z a.0 d.0 same acc live
          ]
        ];
  }

  pub create_offer-IsExclusive :
      (e : Engine F S) (offer : OfferRecord)
      → is_pending offer.status ≡ true
      → any (is_accepted_for offer.job_id) (HashMap.values e.offers) ≡ false
      → IsExclusive e.offers
      → IsExclusive (apply_create_offer e offer).offers
  create_offer-IsExclusive e offer pending free x =
      let entry = λ (k : ℕ). HashMap.get-insert k offer.offer_id offer e.offers in
      let unmatched = λ (k : ℕ) (y : OfferRecord) (q : HashMap.get k e.offers ≡ some y).
        HashMap.any-values-get (is_accepted_for offer.job_id) k y e.offers free q in
      unfold apply_create_offer in
      rw ((push_job_event-SameTables _ offer.job_id _).offers) (record {
        keyed = λ k y q. ground (arith, q, entry k, x.keyed k y);
        single = λ j k y z q r same acc live.
            ground (arith, q, r, entry j, entry k, unmatched j y, x.single j k y z);
      })
