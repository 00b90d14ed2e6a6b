-- ===== src/Core/Offers/Responses.antt =====
-- `handle_offer_response` on each of its branches.
use mathlib.Core.Option
use spatiad.Base.{
  ℕ, Bool, ◌<◌, ◌≤◌, ◌≡◌, ◌≢◌, true, false, none, some, err, Option-cases, inl, inr, nat_eq, arith,
  ok, leb,
}
use spatiad.Base.HashMap
use spatiad.Base.HashMap.{HashMap}
use spatiad.Platform.{F64, H3, utc_now}
use spatiad.Types.{OfferStatus, OfferRecord, MatchResult, is_pending}
use spatiad.Storage.{StorageBackend, Command}
use spatiad.Core.EventKind.{Codec}
use spatiad.Core.State.{Engine, CoreError}
use spatiad.Core.Mutations.{tick}
use spatiad.Core.Commands.{is_open, cancel_if, set_status, append_and_apply, apply_accept_offer}
use spatiad.Core.Commands.Tables.{get-accept_offer}
use spatiad.Core.Offers.{handle_offer_response}

-- Every offer is stored under its own id.
abbrev pub IsKeyed : HashMap ℕ OfferRecord → Type 0
IsKeyed offers = (k : ℕ) (o : OfferRecord) → HashMap.get k offers ≡ some o → o.offer_id ≡ k

module _ {F S : Type 0} where
  -- The match that an accepted offer gives, at the second reading of the clock.
  abbrev pub match_of : Engine F S → ℕ → OfferRecord → MatchResult
  match_of e offer_id o = record {
    job_id = o.job_id;
    driver_id = o.driver_id;
    offer_id = offer_id;
    matched_at = e.world.clock 1;
  }

module _ {F S : Type 0} ⦃f : F64 F⦄ ⦃h : H3 F⦄ ⦃c : Codec⦄ ⦃b : StorageBackend F S⦄ where
  pub accepted_entry :
      (e : Engine F S) (offer_id : ℕ) (o : OfferRecord)
      → HashMap.get offer_id e.offers ≡ some o
      → HashMap.get offer_id (apply_accept_offer e offer_id).offers
        ≡ some (set_status OfferStatus.accepted o)
  accepted_entry e offer_id o p = ground (arith, p, get-accept_offer e offer_id o offer_id p)

  pub other_entry :
      (e : Engine F S) (offer_id : ℕ) (o : OfferRecord) (k : ℕ)
      → IsKeyed e.offers
      → HashMap.get offer_id e.offers ≡ some o
      → k ≢ offer_id
      → HashMap.get k (apply_accept_offer e offer_id).offers
        ≡ Option.map (cancel_if (is_open o.job_id)) (HashMap.get k e.offers)
  other_entry e offer_id o k keyed p other = elim (Option-cases (HashMap.get k e.offers)) [
    | inl q ↦ ground (arith, p, q, get-accept_offer e offer_id o k p)
    | inr (x, q) ↦
        ground (arith, p, q, keyed offer_id o p, keyed k x q, get-accept_offer e offer_id o k p)
  ]

  pub response-closed :
      (e : Engine F S) (offer_id : ℕ) (o : OfferRecord) (accepted : Bool)
      → HashMap.get offer_id e.offers ≡ some o
      → is_pending o.status ≡ false
      → handle_offer_response e offer_id accepted ≡ (e, err CoreError.offer_not_pending)
  unfolding handle_offer_response
  response-closed e offer_id o accepted p closed = rw (p, handle_offer_response) (rw closed)

  pub response-late :
      (e : Engine F S) (offer_id : ℕ) (o : OfferRecord) (accepted : Bool)
      → HashMap.get offer_id e.offers ≡ some o
      → is_pending o.status ≡ true
      → o.expires_at ≤ utc_now e.world
      → handle_offer_response e offer_id accepted ≡ (
        append_and_apply (tick e) (Command.mark_offer_expired offer_id),
        err CoreError.offer_expired,
      )
  unfolding handle_offer_response
  response-late e offer_id o accepted p pending late =
      let overdue : leb o.expires_at (utc_now e.world) ≡ true = ground arith in
      rw (p, handle_offer_response) (rw (pending, overdue))

  pub response-reject :
      (e : Engine F S) (offer_id : ℕ) (o : OfferRecord)
      → HashMap.get offer_id e.offers ≡ some o
      → is_pending o.status ≡ true
      → utc_now e.world < o.expires_at
      → handle_offer_response e offer_id false ≡ (
        append_and_apply (tick (tick e)) (Command.reject_offer offer_id (e.world.clock 1)),
        ok none,
      )
  unfolding handle_offer_response
  response-reject e offer_id o p pending early =
      let late : leb o.expires_at (utc_now e.world) ≡ false = ground arith in
      rw (p, handle_offer_response) (rw (pending, late))

  pub response-accept :
      (e : Engine F S) (offer_id : ℕ) (o : OfferRecord)
      → HashMap.get offer_id e.offers ≡ some o
      → is_pending o.status ≡ true
      → utc_now e.world < o.expires_at
      → handle_offer_response e offer_id true ≡ (
        append_and_apply (tick (tick e)) (Command.accept_offer offer_id (e.world.clock 1)),
        ok (some (match_of e offer_id o)),
      )
  unfolding handle_offer_response
  response-accept e offer_id o p pending early =
      let late : leb o.expires_at (utc_now e.world) ≡ false = ground arith in
      rw (p, handle_offer_response) (rw (pending, late))
