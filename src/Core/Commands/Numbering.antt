-- ===== src/Core/Commands/Numbering.antt =====
-- The commands and the numbering of the event histories.
use spatiad.Base.{
  ℕ, ◌+◌, ◌≤◌, ◌<◌, ◌^◌, ◌≡◌, Option-cases, Bool-cases, inl, inr, List, [], ◌∷◌, ◌++◌, map, filter,
  length, arith, length-append, Bool, nat_eq,
}
use spatiad.Base.HashMap
use spatiad.Base.HashSet
use spatiad.Platform.{F64, H3}
use spatiad.Types.{OfferStatus, OfferRecord}
use spatiad.Storage.{StorageBackend, Command}
use spatiad.Core.EventKind.{JobEventKind, Codec}
use spatiad.Core.State.{Engine}
use spatiad.Core.Journal.Numbering.{
  IsLogged, counter, push_job_event-IsLogged, push_job_events-IsLogged,
}
use spatiad.Core.Commands.{
  is_open, is_competing, cancelled_event, set_status, apply_command, apply_register_job,
  apply_create_offer, apply_accept_offer, apply_mark, apply_cancel_job,
  apply_record_webhook_delivery_failed, apply_upsert_driver_location, apply_remove_driver,
}

length-map {ℓ κ} :
    {A : Type ℓ} {B : Type κ} (g : A → B) (xs : List A) → length (map g xs) ≡ length xs
length-map g [] = omega arith
length-map g (x ∷ xs) = omega (arith, length-map g xs)

length-filter-le {ℓ} : {A : Type ℓ} (p : A → Bool) (xs : List A) → length (filter p xs) ≤ length xs
length-filter-le p [] = omega arith
length-filter-le p (x ∷ xs) = ground (arith, length-filter-le p xs)

length-adjust :
    {V : Type 0} (k : ℕ) (g : V → V) (m : HashMap.HashMap ℕ V)
    → length (HashMap.adjust k g m) ≡ length m
unfolding HashMap.adjust
length-adjust k g [] = omega arith
length-adjust k g ((j, v) ∷ m) = ground (arith, length-adjust k g m)

-- The events of a list of offers, and two more at most, are no more than the offers and two.
length-events :
    (p : OfferRecord → Bool) (m : HashMap.HashMap ℕ OfferRecord) (more : List JobEventKind)
    → length (map cancelled_event (filter p (HashMap.values m)) ++ more) ≤ length m + length more
length-events p m more = omega (
  arith,
  length-append (map cancelled_event (filter p (HashMap.values m))) more,
  length-map cancelled_event (filter p (HashMap.values m)),
  length-filter-le p (HashMap.values m),
  length-map {A = ℕ × OfferRecord} (λ e. e.1) m,
)

module _ {F S : Type 0} where
  -- The counter of every job can still count three events and one for each offer.
  abbrev pub HasRoom : Engine F S → Type 0
  HasRoom e = (job_id : ℕ) → counter e job_id + (length e.offers + 3) < 2 ^ 64

module _ {F S : Type 0} ⦃f : F64 F⦄ ⦃h : H3 F⦄ ⦃c : Codec⦄ ⦃b : StorageBackend F S⦄ where
  accept_offer-IsLogged :
      (e : Engine F S) (offer_id : ℕ)
      → HasRoom e
      → IsLogged e
      → IsLogged (apply_accept_offer e offer_id)
  unfolding apply_accept_offer
  accept_offer-IsLogged e offer_id room v = elim (Option-cases (HashMap.get offer_id e.offers)) [
    | inl p ↦ rw (p, apply_accept_offer) v
    | inr (o, p) ↦
        rw (p, apply_accept_offer)
          (push_job_events-IsLogged _ o.job_id _
            (omega (
              arith,
              room o.job_id,
              length-adjust offer_id (set_status OfferStatus.accepted) e.offers,
              length-events (is_competing o.job_id o.offer_id)
                  (HashMap.adjust offer_id (set_status OfferStatus.accepted) e.offers)
                  (JobEventKind.offer_accepted o.offer_id o.driver_id
                    ∷ JobEventKind.match_confirmed o.offer_id o.driver_id
                    ∷ []),
            ))
            (record { numbered = v.numbered; bounded = v.bounded }))
  ]

  mark-IsLogged :
      (e : Engine F S) (offer_id : ℕ) (status : OfferStatus) (event : ℕ → ℕ → JobEventKind)
      → HasRoom e
      → IsLogged e
      → IsLogged (apply_mark e offer_id status event)
  unfolding apply_mark
  mark-IsLogged e offer_id status event room v =
      elim (Option-cases (HashMap.get offer_id e.offers)) [
        | inl p ↦ rw (p, apply_mark) v
        | inr (o, p) ↦
            rw (p, apply_mark)
              (push_job_event-IsLogged _ o.job_id _ (omega (arith, room o.job_id))
                (record { numbered = v.numbered; bounded = v.bounded }))
      ]

  cancel_job-IsLogged :
      (e : Engine F S) (job_id : ℕ) → HasRoom e → IsLogged e → IsLogged (apply_cancel_job e job_id)
  unfolding apply_cancel_job
  cancel_job-IsLogged e job_id room v = elim (Bool-cases (HashMap.contains_key job_id e.jobs)) [
    | inr p ↦ rw (p, apply_cancel_job) v
    | inl p ↦
        rw (p, apply_cancel_job)
          (elim (Bool-cases (HashSet.contains job_id e.cancelled_jobs)) [
            | inl q ↦ rw q (
                push_job_events-IsLogged _ job_id _
                  (omega (arith, room job_id, length-events (is_open job_id) e.offers []))
                  (record { numbered = v.numbered; bounded = v.bounded }))
            | inr q ↦ rw q (
                push_job_events-IsLogged _ job_id _
                  (omega (
                    arith,
                    room job_id,
                    length-events (is_open job_id) e.offers (JobEventKind.job_cancelled ∷ []),
                  ))
                  (record { numbered = v.numbered; bounded = v.bounded }))
          ])
  ]

  webhook-IsLogged :
      (e : Engine F S) (job_id offer_id : ℕ)
      → HasRoom e
      → IsLogged e
      → IsLogged (apply_record_webhook_delivery_failed e job_id offer_id)
  unfolding apply_record_webhook_delivery_failed
  webhook-IsLogged e job_id offer_id room v =
      elim (Bool-cases (HashMap.contains_key job_id e.jobs)) [
        | inl p ↦
            rw (p, apply_record_webhook_delivery_failed)
              (push_job_event-IsLogged e job_id _ (omega (arith, room job_id)) v)
        | inr p ↦ rw (p, apply_record_webhook_delivery_failed) v
      ]

  -- A command keeps every job's history numbered without gaps up to the job's counter and within 200
  -- entries, where no counter is within the command's reach of 2^64.
  pub apply_command-IsLogged :
      (e : Engine F S) (cmd : Command F) → HasRoom e → IsLogged e → IsLogged (apply_command e cmd)
  unfolding apply_command apply_upsert_driver_location apply_register_job apply_create_offer
      apply_remove_driver
  apply_command-IsLogged e (Command.upsert_driver_location _ _ _ _ _) room v = record {
    numbered = v.numbered;
    bounded = v.bounded;
  }
  apply_command-IsLogged e (Command.register_job job) room v =
      push_job_event-IsLogged _ job.job_id _ (omega (arith, room job.job_id))
        (record { numbered = v.numbered; bounded = v.bounded })
  apply_command-IsLogged e (Command.create_offer offer) room v =
      push_job_event-IsLogged _ offer.job_id _ (omega (arith, room offer.job_id))
        (record { numbered = v.numbered; bounded = v.bounded })
  apply_command-IsLogged e (Command.accept_offer offer_id _) room v =
      accept_offer-IsLogged e offer_id room v
  apply_command-IsLogged e (Command.reject_offer offer_id _) room v =
      mark-IsLogged e offer_id _ _ room v
  apply_command-IsLogged e (Command.mark_offer_expired offer_id) room v =
      mark-IsLogged e offer_id _ _ room v
  apply_command-IsLogged e (Command.mark_offer_cancelled offer_id) room v =
      mark-IsLogged e offer_id _ _ room v
  apply_command-IsLogged e (Command.cancel_job job_id) room v = cancel_job-IsLogged e job_id room v
  apply_command-IsLogged e (Command.remove_driver _) room v = record {
    numbered = v.numbered;
    bounded = v.bounded;
  }
  apply_command-IsLogged e (Command.record_webhook_delivery_failed job_id offer_id) room v =
      webhook-IsLogged e job_id offer_id room v
