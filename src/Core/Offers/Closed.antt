-- ===== src/Core/Offers/Closed.antt =====
-- A job that is cancelled, under the public methods on offers.
use spatiad.Base.{
  ℕ, ◌<◌, ◌≡◌, Bool, true, false, some, Option-cases, Bool-cases, inl, inr, List, [], ◌∷◌, nat_eq,
  nat_beq, nat_beq_iff, ap, arith, leb,
}
use spatiad.Base.HashMap
use spatiad.Base.HashSet
use spatiad.Platform.{F64, H3, utc_now}
use spatiad.Types.{OfferStatus, OfferRecord, JobRequest, is_pending}
use spatiad.Storage.{StorageBackend, Command}
use spatiad.Core.EventKind.{Codec}
use spatiad.Core.State.{Engine}
use spatiad.Core.Mutations.{
  create_offer, register_job, remove_drivers, record_webhook_delivery_failed, cancel_job,
}
use spatiad.Core.Commands.{append_and_apply}
use spatiad.Core.Search.{create_next_offer_for_job}
use spatiad.Core.Search.Reoffer.{create_next_offer_cases}
use spatiad.Core.Offers.{handle_offer_response, mark_offer_status, expire_loop}
use spatiad.Core.Offers.Responses.{response-closed, response-late, response-accept, response-reject}
use spatiad.Core.Offers.Closing.{IsShut, append_and_apply-IsShut}

module _ {F S : Type 0} ⦃f : F64 F⦄ ⦃h : H3 F⦄ ⦃c : Codec⦄ ⦃b : StorageBackend F S⦄
    (job_id : ℕ) where
  pub create_offer-IsShut :
      (e : Engine F S) (other driver_id timeout_seconds : ℕ)
      → nat_beq other job_id ≡ false
      → IsShut job_id e
      → IsShut job_id (create_offer e other driver_id timeout_seconds).0
  unfolding create_offer
  create_offer-IsShut e other driver_id timeout_seconds q s =
      append_and_apply-IsShut job_id _ _ q (record { cancelled = s.cancelled; settled = s.settled })

  pub next_offer-IsShut :
      (e : Engine F S) (other : ℕ)
      → IsShut job_id e
      → IsShut job_id (create_next_offer_for_job e other).0
  next_offer-IsShut e other s = elim (create_next_offer_cases e other) [
    | inl r ↦ rw r s
    | inr (job, driver_id, w, r) ↦
        let running : HashSet.contains other e.cancelled_jobs ≡ false = w.running in
        rw r (
          create_offer-IsShut e other driver_id job.timeout_seconds
            (elim (Bool-cases (nat_beq other job_id)) [
              | inl t ↦ cc (
                s.cancelled,
                running,
                ap (λ j. HashSet.contains j e.cancelled_jobs) ((nat_beq_iff other job_id).0 t),
              )
              | inr t ↦ t
            ])
            s)
  ]

  in_time :
      (e : Engine F S) (offer_id : ℕ) (accepted : Bool) (o : OfferRecord)
      → HashMap.get offer_id e.offers ≡ some o
      → is_pending o.status ≡ true
      → utc_now e.world < o.expires_at
      → IsShut job_id e
      → IsShut job_id (handle_offer_response e offer_id accepted).0
  in_time e offer_id true o p q early s = rw (response-accept e offer_id o p q early) (
      append_and_apply-IsShut job_id _ _ tt
        (record { cancelled = s.cancelled; settled = s.settled }))
  in_time e offer_id false o p q early s = rw (response-reject e offer_id o p q early) (
      append_and_apply-IsShut job_id _ _ tt
        (record { cancelled = s.cancelled; settled = s.settled }))

  pub handle_offer_response-IsShut :
      (e : Engine F S) (offer_id : ℕ) (accepted : Bool)
      → IsShut job_id e
      → IsShut job_id (handle_offer_response e offer_id accepted).0
  handle_offer_response-IsShut e offer_id accepted s =
      elim (Option-cases (HashMap.get offer_id e.offers)) [
        | inl p ↦ unfold handle_offer_response in rw (p, handle_offer_response) s
        | inr (o, p) ↦ elim (Bool-cases (is_pending o.status)) [
          | inl q ↦ elim (Bool-cases (leb o.expires_at (utc_now e.world))) [
            | inl t ↦ rw (response-late e offer_id o accepted p q (ground arith)) (
                append_and_apply-IsShut job_id _ _ tt
                  (record { cancelled = s.cancelled; settled = s.settled }))
            | inr t ↦ in_time e offer_id accepted o p q (ground arith) s
          ]
          | inr q ↦ rw (response-closed e offer_id o accepted p q) s
        ]
      ]

  pub cancel_job-IsShut :
      (e : Engine F S) (other : ℕ) → IsShut job_id e → IsShut job_id (cancel_job e other).0
  unfolding cancel_job
  cancel_job-IsShut e other s = elim (Bool-cases (HashMap.contains_key other e.jobs)) [
    | inl p ↦ rw (p, cancel_job) (append_and_apply-IsShut job_id e _ tt s)
    | inr p ↦ rw (p, cancel_job) s
  ]

  pub cancel_offer-IsShut :
      (e : Engine F S) (offer_id : ℕ)
      → IsShut job_id e
      → IsShut job_id (mark_offer_status e offer_id OfferStatus.cancelled).0
  unfolding mark_offer_status
  cancel_offer-IsShut e offer_id s = elim (Option-cases (HashMap.get offer_id e.offers)) [
    | inl p ↦ rw (p, mark_offer_status) s
    | inr (o, p) ↦ rw (p, mark_offer_status) (append_and_apply-IsShut job_id e _ tt s)
  ]

  pub expire_loop-IsShut :
      (e : Engine F S) (ids : List ℕ) → IsShut job_id e → IsShut job_id (expire_loop e ids).0
  unfolding expire_loop
  expire_loop-IsShut e [] s = s
  expire_loop-IsShut e (offer_id ∷ ids) s =
      expire_loop-IsShut (append_and_apply e (Command.mark_offer_expired offer_id)) ids
        (append_and_apply-IsShut job_id e (Command.mark_offer_expired offer_id) tt s)

  pub register_job-IsShut :
      (e : Engine F S) (job : JobRequest F)
      → nat_beq job_id job.job_id ≡ false
      → IsShut job_id e
      → IsShut job_id (register_job e job)
  unfolding register_job
  register_job-IsShut e job q s = append_and_apply-IsShut job_id e _ q s

  pub webhook_failed-IsShut :
      (e : Engine F S) (other offer_id : ℕ)
      → IsShut job_id e
      → IsShut job_id (record_webhook_delivery_failed e other offer_id)
  unfolding record_webhook_delivery_failed
  webhook_failed-IsShut e other offer_id s = elim (Bool-cases (HashMap.contains_key other e.jobs)) [
    | inl p ↦ rw (p, record_webhook_delivery_failed) (append_and_apply-IsShut job_id e _ tt s)
    | inr p ↦ rw (p, record_webhook_delivery_failed) s
  ]

  pub remove_drivers-IsShut :
      (e : Engine F S) (ids : List ℕ) → IsShut job_id e → IsShut job_id (remove_drivers e ids)
  unfolding remove_drivers
  remove_drivers-IsShut e [] s = s
  remove_drivers-IsShut e (driver_id ∷ ids) s =
      remove_drivers-IsShut (append_and_apply e (Command.remove_driver driver_id)) ids
        (append_and_apply-IsShut job_id e (Command.remove_driver driver_id) tt s)
