-- ===== src/Core/Offers/Outcomes.antt =====
-- `handle_offer_response` by its result.
use mathlib.Core.Option
use spatiad.Base.{
  ℕ, Bool, ◌<◌, ◌≤◌, ◌≡◌, refl, true, false, none, some, inl, inr, Bool-cases, Option-cases, nat_eq,
  ◌==◌, nat_beq, nat_beq_iff, ap, ◌∙◌, arith, Result, ok, err, leb, if◌then◌else◌, Option,
}
use spatiad.Base.HashMap
use spatiad.Platform.{F64, H3, utc_now}
use spatiad.Types.{OfferStatus, OfferRecord, MatchResult, is_pending}
use spatiad.Storage.{StorageBackend}
use spatiad.Core.EventKind.{Codec}
use spatiad.Core.State.{Engine, CoreError}
use spatiad.Core.Commands.{
  is_open, cancel_if, set_status, set_busy, append_and_apply, apply_command, apply_accept_offer,
}
use spatiad.Core.Commands.Tables.{get-mark, drivers-accept_offer}
use spatiad.Core.Offers.{handle_offer_response}
use spatiad.Core.Offers.Responses.{
  IsKeyed, match_of, accepted_entry, other_entry, response-closed, response-late, response-accept,
  response-reject,
}

module _ {F S : Type 0} where
  -- The offer stands at the status, and every other offer as it was.
  abbrev pub OnlyMarked : Engine F S → Engine F S → ℕ → OfferRecord → OfferStatus → Type 0
  OnlyMarked e e' offer_id o status =
      (k : ℕ)
      → HashMap.get k e'.offers
        ≡ (if k == offer_id then some (set_status status o) else HashMap.get k e.offers)

  -- The offer is accepted, the other offers of its job that were pending are cancelled, every
  -- further offer is as it was, and of the drivers only that of the offer changes: it is busy.
  abbrev pub OnlyAccepted : Engine F S → Engine F S → ℕ → OfferRecord → Type 0
  OnlyAccepted e e' offer_id o =
      ((k : ℕ)
        → HashMap.get k e'.offers ≡ (
            if k == offer_id
            then some (set_status OfferStatus.accepted o)
            else Option.map (cancel_if (is_open o.job_id)) (HashMap.get k e.offers)))
      × (e'.drivers ≡ HashMap.adjust o.driver_id set_busy e.drivers)

  -- A stored and pending offer.
  abbrev pub IsPendingAt : Engine F S → ℕ → OfferRecord → Type 0
  IsPendingAt e offer_id o = (HashMap.get offer_id e.offers ≡ some o) × (is_pending o.status ≡ true)

  -- What each result says of the engine before and after.
  abbrev pub IsOutcome :
      Engine F S → ℕ → Bool → Engine F S × Result (Option MatchResult) CoreError → Type 0
  IsOutcome e offer_id accepted (e', err CoreError.offer_not_found) =
      (HashMap.get offer_id e.offers ≡ none) × (e' ≡ e)
  IsOutcome e offer_id accepted (e', err CoreError.offer_not_pending) =
      (o : OfferRecord) × (HashMap.get offer_id e.offers ≡ some o)
      × (is_pending o.status ≡ false)
      × (e' ≡ e)
  IsOutcome e offer_id accepted (e', err CoreError.offer_expired) =
      (o : OfferRecord) × IsPendingAt e offer_id o
      × (o.expires_at ≤ utc_now e.world)
      × OnlyMarked e e' offer_id o OfferStatus.expired
  IsOutcome e offer_id accepted (e', ok none) =
      (o : OfferRecord) × IsPendingAt e offer_id o
      × (utc_now e.world < o.expires_at)
      × (accepted ≡ false)
      × OnlyMarked e e' offer_id o OfferStatus.rejected
  IsOutcome e offer_id accepted (e', ok (some m)) =
      (o : OfferRecord) × IsPendingAt e offer_id o
      × (utc_now e.world < o.expires_at)
      × (accepted ≡ true)
      × (m ≡ match_of e offer_id o)
      × OnlyAccepted e e' offer_id o

module _ {F S : Type 0} ⦃f : F64 F⦄ ⦃h : H3 F⦄ ⦃c : Codec⦄ ⦃b : StorageBackend F S⦄ where
  accept_offer-OnlyAccepted :
      (e : Engine F S) (offer_id : ℕ) (o : OfferRecord)
      → IsKeyed e.offers
      → HashMap.get offer_id e.offers ≡ some o
      → OnlyAccepted e (apply_accept_offer e offer_id) offer_id o
  accept_offer-OnlyAccepted e offer_id o keyed p = (
    λ k. elim (Bool-cases (nat_beq k offer_id)) [
      | inl t ↦ rw t (
          ap (λ i. HashMap.get i (apply_accept_offer e offer_id).offers)
            ((nat_beq_iff k offer_id).0 t)
          ∙ accepted_entry e offer_id o p)
      | inr t ↦ rw t (other_entry e offer_id o k keyed p (ground arith))
    ],
    drivers-accept_offer e offer_id o p,
  )

  timely-IsOutcome :
      (e : Engine F S) (offer_id : ℕ) (o : OfferRecord) (accepted : Bool)
      → IsKeyed e.offers
      → HashMap.get offer_id e.offers ≡ some o
      → is_pending o.status ≡ true
      → utc_now e.world < o.expires_at
      → IsOutcome e offer_id accepted (handle_offer_response e offer_id accepted)
  unfolding append_and_apply apply_command
  timely-IsOutcome e offer_id o true keyed p q early =
      rw (response-accept e offer_id o p q early)
        (o, (p, q), early, refl, refl, accept_offer-OnlyAccepted _ offer_id o keyed p)
  timely-IsOutcome e offer_id o false keyed p q early =
      rw (response-reject e offer_id o p q early)
        (o, (p, q), early, refl, λ k. get-mark _ offer_id _ _ o k p)

  late-IsOutcome :
      (e : Engine F S) (offer_id : ℕ) (o : OfferRecord) (accepted : Bool)
      → HashMap.get offer_id e.offers ≡ some o
      → is_pending o.status ≡ true
      → o.expires_at ≤ utc_now e.world
      → IsOutcome e offer_id accepted (handle_offer_response e offer_id accepted)
  unfolding append_and_apply apply_command
  late-IsOutcome e offer_id o accepted p q late =
      rw (response-late e offer_id o accepted p q late)
        (o, (p, q), late, λ k. get-mark _ offer_id _ _ o k p)

  -- Among offers stored under their ids, a response is answered as not found exactly for an unknown
  -- offer and as not pending for one that is not pending, both with no change; as expired for a
  -- pending offer whose deadline has come, which alone of the offers is then expired; as done for a
  -- rejection in time, where the offer alone is then rejected; and with the match for an acceptance
  -- in time, after which the offer is accepted, the other pending offers of its job are cancelled,
  -- every further offer is as it was, and of the drivers only that of the offer changes: it is busy.
  pub handle_offer_response-IsOutcome :
      (e : Engine F S) (offer_id : ℕ) (accepted : Bool)
      → IsKeyed e.offers
      → IsOutcome e offer_id accepted (handle_offer_response e offer_id accepted)
  handle_offer_response-IsOutcome e offer_id accepted keyed =
      elim (Option-cases (HashMap.get offer_id e.offers)) [
        | inl p ↦ unfold handle_offer_response in rw (p, handle_offer_response) (p, refl)
        | inr (o, p) ↦ elim (Bool-cases (is_pending o.status)) [
          | inl q ↦ elim (Bool-cases (leb o.expires_at (utc_now e.world))) [
            | inl t ↦ late-IsOutcome e offer_id o accepted p q (ground (arith, t))
            | inr t ↦ timely-IsOutcome e offer_id o accepted keyed p q (ground (arith, t))
          ]
          | inr q ↦ rw (response-closed e offer_id o accepted p q) (o, p, q, refl)
        ]
      ]
