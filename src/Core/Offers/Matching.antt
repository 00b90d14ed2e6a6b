-- ===== src/Core/Offers/Matching.antt =====
-- The commands, the public methods on offers, and the rule of one match for each job.
use spatiad.Base.{
  ℕ, ◌<◌, ◌≡◌, refl, Bool, true, false, some, Option-cases, Bool-cases, inl, inr, List, [], ◌∷◌,
  nat_eq, arith, any, leb,
}
use spatiad.Base.HashMap
use spatiad.Platform.{F64, H3, utc_now}
use spatiad.Types.{OfferStatus, OfferRecord, is_pending}
use spatiad.Storage.{StorageBackend, Command}
use spatiad.Core.EventKind.{Codec}
use spatiad.Core.State.{Engine}
use spatiad.Core.Journal.Frame.{push_job_event-SameTables}
use spatiad.Core.Mutations.{cancel_job, create_offer}
use spatiad.Core.Search.{is_accepted_for}
use spatiad.Core.Commands.{
  append_and_apply, apply_command, apply_upsert_driver_location, apply_register_job,
  apply_remove_driver, apply_record_webhook_delivery_failed,
}
use spatiad.Core.Offers.{handle_offer_response, mark_offer_status, expire_loop}
use spatiad.Core.Offers.Responses.{response-closed, response-late, response-accept, response-reject}
use spatiad.Core.Offers.Exclusive.{
  IsExclusive, Retires-IsExclusive, mark-Retires, cancel_job-Retires, accept_offer-IsExclusive,
  create_offer-IsExclusive,
}

module _ {F S : Type 0} ⦃f : F64 F⦄ ⦃h : H3 F⦄ ⦃c : Codec⦄ ⦃b : StorageBackend F S⦄ where
  -- What the callers check before they issue a command: only a pending offer is accepted, and a new
  -- offer is pending and for a job with no accepted offer.
  abbrev pub IsAllowed : Engine F S → Command F → Type 0
  IsAllowed e (Command.create_offer o) =
      (is_pending o.status ≡ true)
      × (any (is_accepted_for o.job_id) (HashMap.values e.offers) ≡ false)
  IsAllowed e (Command.accept_offer offer_id _) =
      (o : OfferRecord) × (HashMap.get offer_id e.offers ≡ some o) × (is_pending o.status ≡ true)
  IsAllowed e _ = Unit {0}

  webhook-offers :
      (e : Engine F S) (job_id offer_id : ℕ)
      → (apply_record_webhook_delivery_failed e job_id offer_id).offers ≡ e.offers
  unfolding apply_record_webhook_delivery_failed
  webhook-offers e job_id offer_id = elim (Bool-cases (HashMap.contains_key job_id e.jobs)) [
    | inl p ↦
        rw (p, apply_record_webhook_delivery_failed) ((push_job_event-SameTables e job_id _).offers)
    | inr p ↦ rw (p, apply_record_webhook_delivery_failed) refl
  ]

  -- A command that its caller was allowed to issue keeps every accepted offer the only pending or
  -- accepted offer of its job, and every offer stored under its id.
  pub apply_command-IsExclusive :
      (e : Engine F S) (cmd : Command F)
      → IsAllowed e cmd
      → IsExclusive e.offers
      → IsExclusive (apply_command e cmd).offers
  unfolding apply_command apply_upsert_driver_location apply_register_job apply_remove_driver
  apply_command-IsExclusive e (Command.upsert_driver_location _ _ _ _ _) a x = x
  apply_command-IsExclusive e (Command.register_job job) a x =
      rw ((push_job_event-SameTables _ job.job_id _).offers) x
  apply_command-IsExclusive e (Command.create_offer o) a x = create_offer-IsExclusive e o a.0 a.1 x
  apply_command-IsExclusive e (Command.accept_offer offer_id _) a x =
      accept_offer-IsExclusive e offer_id a.0 a.1 a.2 x
  apply_command-IsExclusive e (Command.reject_offer offer_id _) a x =
      Retires-IsExclusive e.offers _ (mark-Retires e offer_id _ _ refl x.keyed) x
  apply_command-IsExclusive e (Command.mark_offer_expired offer_id) a x =
      Retires-IsExclusive e.offers _ (mark-Retires e offer_id _ _ refl x.keyed) x
  apply_command-IsExclusive e (Command.mark_offer_cancelled offer_id) a x =
      Retires-IsExclusive e.offers _ (mark-Retires e offer_id _ _ refl x.keyed) x
  apply_command-IsExclusive e (Command.cancel_job job_id) a x =
      Retires-IsExclusive e.offers _ (cancel_job-Retires e job_id x.keyed) x
  apply_command-IsExclusive e (Command.remove_driver _) a x = x
  apply_command-IsExclusive e (Command.record_webhook_delivery_failed job_id offer_id) a x =
      rw (webhook-offers e job_id offer_id) x

  pub append_and_apply-IsExclusive :
      (e : Engine F S) (cmd : Command F)
      → IsAllowed e cmd
      → IsExclusive e.offers
      → IsExclusive (append_and_apply e cmd).offers
  unfolding append_and_apply
  append_and_apply-IsExclusive e cmd a x = apply_command-IsExclusive _ cmd a x

  in_time :
      (e : Engine F S) (offer_id : ℕ) (accepted : Bool) (o : OfferRecord)
      → HashMap.get offer_id e.offers ≡ some o
      → is_pending o.status ≡ true
      → utc_now e.world < o.expires_at
      → IsExclusive e.offers
      → IsExclusive (handle_offer_response e offer_id accepted).0.offers
  in_time e offer_id true o p q early x =
      rw (response-accept e offer_id o p q early) (append_and_apply-IsExclusive _ _ (o, p, q) x)
  in_time e offer_id false o p q early x =
      rw (response-reject e offer_id o p q early) (append_and_apply-IsExclusive _ _ tt x)

  pending_response :
      (e : Engine F S) (offer_id : ℕ) (accepted : Bool) (o : OfferRecord)
      → HashMap.get offer_id e.offers ≡ some o
      → is_pending o.status ≡ true
      → IsExclusive e.offers
      → IsExclusive (handle_offer_response e offer_id accepted).0.offers
  pending_response e offer_id accepted o p q x =
      elim (Bool-cases (leb o.expires_at (utc_now e.world))) [
        | inl t ↦
            rw (response-late e offer_id o accepted p q (ground arith))
              (append_and_apply-IsExclusive _ _ tt x)
        | inr t ↦ in_time e offer_id accepted o p q (ground arith) x
      ]

  -- A response to an offer, whatever it is and whatever the outcome, keeps every accepted offer the
  -- only pending or accepted offer of its job, and every offer stored under its id.
  pub handle_offer_response-IsExclusive :
      (e : Engine F S) (offer_id : ℕ) (accepted : Bool)
      → IsExclusive e.offers
      → IsExclusive (handle_offer_response e offer_id accepted).0.offers
  handle_offer_response-IsExclusive e offer_id accepted x =
      elim (Option-cases (HashMap.get offer_id e.offers)) [
        | inl p ↦ unfold handle_offer_response in rw (p, handle_offer_response) x
        | inr (o, p) ↦ elim (Bool-cases (is_pending o.status)) [
          | inl q ↦ pending_response e offer_id accepted o p q x
          | inr q ↦ rw (response-closed e offer_id o accepted p q) x
        ]
      ]

  pub cancel_job-IsExclusive :
      (e : Engine F S) (job_id : ℕ)
      → IsExclusive e.offers
      → IsExclusive (cancel_job e job_id).0.offers
  unfolding cancel_job
  cancel_job-IsExclusive e job_id x = elim (Bool-cases (HashMap.contains_key job_id e.jobs)) [
    | inl p ↦ rw (p, cancel_job) (append_and_apply-IsExclusive e _ tt x)
    | inr p ↦ rw (p, cancel_job) x
  ]

  pub cancel_offer-IsExclusive :
      (e : Engine F S) (offer_id : ℕ)
      → IsExclusive e.offers
      → IsExclusive (mark_offer_status e offer_id OfferStatus.cancelled).0.offers
  unfolding mark_offer_status
  cancel_offer-IsExclusive e offer_id x = elim (Option-cases (HashMap.get offer_id e.offers)) [
    | inl p ↦ rw (p, mark_offer_status) x
    | inr (o, p) ↦ rw (p, mark_offer_status) (append_and_apply-IsExclusive e _ tt x)
  ]

  pub expire_loop-IsExclusive :
      (e : Engine F S) (ids : List ℕ)
      → IsExclusive e.offers
      → IsExclusive (expire_loop e ids).0.offers
  unfolding expire_loop
  expire_loop-IsExclusive e [] x = x
  expire_loop-IsExclusive e (offer_id ∷ ids) x =
      expire_loop-IsExclusive (append_and_apply e (Command.mark_offer_expired offer_id)) ids
        (append_and_apply-IsExclusive e (Command.mark_offer_expired offer_id) tt x)

  -- A new offer for a job with no accepted offer.
  pub create_offer-unmatched :
      (e : Engine F S) (job_id driver_id timeout_seconds : ℕ)
      → any (is_accepted_for job_id) (HashMap.values e.offers) ≡ false
      → IsExclusive e.offers
      → IsExclusive (create_offer e job_id driver_id timeout_seconds).0.offers
  unfolding create_offer
  create_offer-unmatched e job_id driver_id timeout_seconds free x =
      append_and_apply-IsExclusive _ _ (refl, free) x
