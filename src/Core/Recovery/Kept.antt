-- ===== src/Core/Recovery/Kept.antt =====
-- What applying commands leaves of the storage: each event is stored, the log and the snapshot are not
-- touched.
use spatiad.Base.{ℕ, ◌≡◌, refl, ◌∙◌, Option-cases, Bool-cases, inl, inr, List, [], ◌∷◌, nat_eq}
use spatiad.Base.HashMap
use spatiad.Platform.{F64, H3}
use spatiad.Types.{OfferStatus}
use spatiad.Storage.{StorageBackend, Command}
use spatiad.Storage.Contract.{Contract}
use spatiad.Core.EventKind.{JobEventKind, Codec}
use spatiad.Core.State.{Engine}
use spatiad.Core.Journal.{push_job_event, push_job_events}
use spatiad.Core.Commands.{
  apply_command, apply_upsert_driver_location, apply_register_job, apply_create_offer,
  apply_accept_offer, apply_mark, apply_cancel_job, apply_remove_driver,
  apply_record_webhook_delivery_failed,
}
use spatiad.Core.Recovery.{replay}

module _ {F S : Type 0} ⦃f : F64 F⦄ ⦃h : H3 F⦄ ⦃c : Codec⦄ ⦃b : StorageBackend F S⦄
    (laws : Contract F S) where
  open laws use {IsValid, log, saved}

  -- A storage that is valid and holds the log and the snapshot of another.
  abbrev pub SameLog : S → S → Type 0
  SameLog s s' = IsValid s' × (log s' ≡ log s) × (saved s' ≡ saved s)

  event-SameLog :
      (e : Engine F S) (job_id : ℕ) (kind : JobEventKind)
      → IsValid e.storage
      → SameLog e.storage (push_job_event e job_id kind).storage
  unfolding push_job_event
  event-SameLog e job_id kind v = elim (Bool-cases (b.is_persistent e.storage)) [
    | inl p ↦ rw p (laws.append_job_event_kept e.storage job_id _ v)
    | inr p ↦ rw p (v, refl, refl)
  ]

  events-SameLog :
      (e : Engine F S) (job_id : ℕ) (kinds : List JobEventKind)
      → IsValid e.storage
      → SameLog e.storage (push_job_events e job_id kinds).storage
  unfolding push_job_events
  events-SameLog e job_id [] v = (v, refl, refl)
  events-SameLog e job_id (kind ∷ kinds) v =
      let one = event-SameLog e job_id kind v in
      let rest = events-SameLog (push_job_event e job_id kind) job_id kinds one.0 in
      (rest.0, rest.1 ∙ one.1, rest.2 ∙ one.2)

  mark-SameLog :
      (e : Engine F S) (offer_id : ℕ) (status : OfferStatus) (event : ℕ → ℕ → JobEventKind)
      → IsValid e.storage
      → SameLog e.storage (apply_mark e offer_id status event).storage
  unfolding apply_mark
  mark-SameLog e offer_id status event v = elim (Option-cases (HashMap.get offer_id e.offers)) [
    | inl p ↦ rw (p, apply_mark) (v, refl, refl)
    | inr (o, p) ↦ rw (p, apply_mark) (event-SameLog _ o.job_id _ v)
  ]

  accept_offer-SameLog :
      (e : Engine F S) (offer_id : ℕ)
      → IsValid e.storage
      → SameLog e.storage (apply_accept_offer e offer_id).storage
  unfolding apply_accept_offer
  accept_offer-SameLog e offer_id v = elim (Option-cases (HashMap.get offer_id e.offers)) [
    | inl p ↦ rw (p, apply_accept_offer) (v, refl, refl)
    | inr (o, p) ↦ rw (p, apply_accept_offer) (events-SameLog _ o.job_id _ v)
  ]

  cancel_job-SameLog :
      (e : Engine F S) (job_id : ℕ)
      → IsValid e.storage
      → SameLog e.storage (apply_cancel_job e job_id).storage
  unfolding apply_cancel_job
  cancel_job-SameLog e job_id v = elim (Bool-cases (HashMap.contains_key job_id e.jobs)) [
    | inl p ↦ rw (p, apply_cancel_job) (events-SameLog _ job_id _ v)
    | inr p ↦ rw (p, apply_cancel_job) (v, refl, refl)
  ]

  webhook-SameLog :
      (e : Engine F S) (job_id offer_id : ℕ)
      → IsValid e.storage
      → SameLog e.storage (apply_record_webhook_delivery_failed e job_id offer_id).storage
  unfolding apply_record_webhook_delivery_failed
  webhook-SameLog e job_id offer_id v = elim (Bool-cases (HashMap.contains_key job_id e.jobs)) [
    | inl p ↦ rw (p, apply_record_webhook_delivery_failed) (event-SameLog e job_id _ v)
    | inr p ↦ rw (p, apply_record_webhook_delivery_failed) (v, refl, refl)
  ]

  -- Applying a command writes neither the log nor the snapshot.
  pub apply_command-SameLog :
      (e : Engine F S) (cmd : Command F)
      → IsValid e.storage
      → SameLog e.storage (apply_command e cmd).storage
  unfolding apply_command apply_upsert_driver_location apply_register_job apply_create_offer
      apply_remove_driver
  apply_command-SameLog e (Command.upsert_driver_location _ _ _ _ _) v = (v, refl, refl)
  apply_command-SameLog e (Command.register_job job) v = event-SameLog _ job.job_id _ v
  apply_command-SameLog e (Command.create_offer offer) v = event-SameLog _ offer.job_id _ v
  apply_command-SameLog e (Command.accept_offer offer_id _) v = accept_offer-SameLog e offer_id v
  apply_command-SameLog e (Command.reject_offer offer_id _) v = mark-SameLog e offer_id _ _ v
  apply_command-SameLog e (Command.mark_offer_expired offer_id) v = mark-SameLog e offer_id _ _ v
  apply_command-SameLog e (Command.mark_offer_cancelled offer_id) v = mark-SameLog e offer_id _ _ v
  apply_command-SameLog e (Command.cancel_job job_id) v = cancel_job-SameLog e job_id v
  apply_command-SameLog e (Command.remove_driver _) v = (v, refl, refl)
  apply_command-SameLog e (Command.record_webhook_delivery_failed job_id offer_id) v =
      webhook-SameLog e job_id offer_id v

  -- A replay stores the events of its commands again, and writes neither the log nor the snapshot.
  pub replay-SameLog :
      (e : Engine F S) (entries : List (ℕ × Command F))
      → IsValid e.storage
      → SameLog e.storage (replay e entries).storage
  unfolding replay
  replay-SameLog e [] v = (v, refl, refl)
  replay-SameLog e ((n, cmd) ∷ rest) v =
      let one = apply_command-SameLog e cmd v in
      let all = replay-SameLog (record (apply_command e cmd) { wal_sequence = n }) rest one.0 in
      (all.0, all.1 ∙ one.1, all.2 ∙ one.2)
