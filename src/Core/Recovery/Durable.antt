-- ===== src/Core/Recovery/Durable.antt =====
-- The durable state as a machine of its own: what a command does to a snapshot, and how
-- `apply_command` relates to it.
use spatiad.Base.{
  ℕ, ◌+◌, ◌≡◌, refl, none, some, Option-cases, Bool-cases, inl, inr, List, [], ◌∷◌, ◌++◌, map,
  filter, u64, nat_eq, if◌then◌else◌,
}
use spatiad.Base.HashMap
use spatiad.Base.HashMap.{HashMap}
use spatiad.Base.HashSet
use spatiad.Platform.{F64, H3}
use spatiad.Types.{OfferStatus}
use spatiad.Storage.{StorageBackend, Command, EngineSnapshot}
use spatiad.Core.EventKind.{JobEventKind, Codec}
use spatiad.Core.State.{Engine}
use spatiad.Core.Journal.{sequence_of, push_job_event, push_job_events}
use spatiad.Core.Commands.{
  is_open, is_competing, cancel_if, cancelled_event, set_status, set_busy, apply_command,
  apply_upsert_driver_location, apply_register_job, apply_create_offer, apply_accept_offer,
  apply_mark, apply_cancel_job, apply_remove_driver, apply_record_webhook_delivery_failed,
}
use spatiad.Core.Recovery.{to_snapshot}

module _ {F : Type 0} where
  -- One event of a job counted, and a number of them.
  count_one : EngineSnapshot F → ℕ → EngineSnapshot F
  count_one s job_id = record s {
    job_event_sequences =
        HashMap.insert job_id (u64 (sequence_of job_id s.job_event_sequences + 1))
          s.job_event_sequences;
  }

  count_all : EngineSnapshot F → ℕ → List JobEventKind → EngineSnapshot F
  count_all s job_id [] = s
  count_all s job_id (_ ∷ kinds) = count_all (count_one s job_id) job_id kinds

  mark_on : EngineSnapshot F → ℕ → OfferStatus → EngineSnapshot F
  mark_on s offer_id status = elim (HashMap.get offer_id s.offers) [
    | none ↦ s
    | some o ↦
        count_one (record s { offers = HashMap.adjust offer_id (set_status status) s.offers })
          o.job_id
  ]

  accept_on : EngineSnapshot F → ℕ → EngineSnapshot F
  accept_on s offer_id = elim (HashMap.get offer_id s.offers) [
    | none ↦ s
    | some o ↦
        let accepted = HashMap.adjust offer_id (set_status OfferStatus.accepted) s.offers in
        let competing = is_competing o.job_id o.offer_id in
        count_all
          (record s {
            offers = HashMap.map_values (cancel_if competing) accepted;
            drivers = HashMap.adjust o.driver_id set_busy s.drivers;
          })
          o.job_id
          (map cancelled_event (filter competing (HashMap.values accepted))
            ++ (JobEventKind.offer_accepted o.offer_id o.driver_id
                ∷ JobEventKind.match_confirmed o.offer_id o.driver_id
                ∷ []))
  ]

  cancel_on : EngineSnapshot F → ℕ → EngineSnapshot F
  cancel_on s job_id =
      if HashMap.contains_key job_id s.jobs
      then count_all
          (record s {
            cancelled_jobs = HashSet.insert job_id s.cancelled_jobs;
            offers = HashMap.map_values (cancel_if (is_open job_id)) s.offers;
          })
          job_id
          (map cancelled_event (filter (is_open job_id) (HashMap.values s.offers))
            ++ (if HashSet.contains job_id s.cancelled_jobs
                then []
                else JobEventKind.job_cancelled ∷ []))
      else s

  -- The effect of a command on the durable state. It reads neither the clock nor the storage, nor
  -- the event histories or the spatial index.
  unfoldable pub step : EngineSnapshot F → Command F → EngineSnapshot F
  unfolding count_one count_all mark_on accept_on cancel_on
  step s (Command.upsert_driver_location driver_id category position status timestamp) = record s {
    drivers =
        HashMap.insert driver_id
          (record {
            driver_id = driver_id;
            category = category;
            status = status;
            position = position;
            last_seen_at = timestamp;
          })
          s.drivers;
  }
  step s (Command.register_job job) =
      count_one
        (record s {
          jobs = HashMap.insert job.job_id job s.jobs;
          cancelled_jobs = HashSet.remove job.job_id s.cancelled_jobs;
        })
        job.job_id
  step s (Command.create_offer offer) =
      count_one (record s { offers = HashMap.insert offer.offer_id offer s.offers }) offer.job_id
  step s (Command.accept_offer offer_id _) = accept_on s offer_id
  step s (Command.reject_offer offer_id _) = mark_on s offer_id OfferStatus.rejected
  step s (Command.mark_offer_expired offer_id) = mark_on s offer_id OfferStatus.expired
  step s (Command.mark_offer_cancelled offer_id) = mark_on s offer_id OfferStatus.cancelled
  step s (Command.cancel_job job_id) = cancel_on s job_id
  step s (Command.remove_driver driver_id) = record s {
    drivers = HashMap.remove driver_id s.drivers;
  }
  step s (Command.record_webhook_delivery_failed job_id _) =
      if HashMap.contains_key job_id s.jobs then count_one s job_id else s

  abbrev pub numbered : EngineSnapshot F → ℕ → EngineSnapshot F
  numbered s n = record s { wal_sequence = n }

  count_all-numbered :
      (s : EngineSnapshot F) (n job_id : ℕ) (kinds : List JobEventKind)
      → count_all (numbered s n) job_id kinds ≡ numbered (count_all s job_id kinds) n
  unfolding count_all count_one
  count_all-numbered s n job_id [] = refl
  count_all-numbered s n job_id (_ ∷ kinds) = count_all-numbered (count_one s job_id) n job_id kinds

  mark_on-numbered :
      (s : EngineSnapshot F) (n offer_id : ℕ) (status : OfferStatus)
      → mark_on (numbered s n) offer_id status ≡ numbered (mark_on s offer_id status) n
  unfolding mark_on count_one
  mark_on-numbered s n offer_id status = elim (Option-cases (HashMap.get offer_id s.offers)) [
    | inl p ↦ rw (p, mark_on)
    | inr (o, p) ↦ rw (p, mark_on)
  ]

  accept_on-numbered :
      (s : EngineSnapshot F) (n offer_id : ℕ)
      → accept_on (numbered s n) offer_id ≡ numbered (accept_on s offer_id) n
  unfolding accept_on
  accept_on-numbered s n offer_id = elim (Option-cases (HashMap.get offer_id s.offers)) [
    | inl p ↦ rw (p, accept_on)
    | inr (o, p) ↦ rw (p, accept_on) (count_all-numbered _ n o.job_id _)
  ]

  cancel_on-numbered :
      (s : EngineSnapshot F) (n job_id : ℕ)
      → cancel_on (numbered s n) job_id ≡ numbered (cancel_on s job_id) n
  unfolding cancel_on
  cancel_on-numbered s n job_id = elim (Bool-cases (HashMap.contains_key job_id s.jobs)) [
    | inl p ↦ rw (p, cancel_on) (count_all-numbered _ n job_id _)
    | inr p ↦ rw (p, cancel_on)
  ]

  -- A command neither reads nor writes the number of the last log entry.
  pub step-numbered :
      (s : EngineSnapshot F) (n : ℕ) (cmd : Command F)
      → step (numbered s n) cmd ≡ numbered (step s cmd) n
  unfolding step count_one
  step-numbered s n (Command.upsert_driver_location _ _ _ _ _) = refl
  step-numbered s n (Command.register_job job) = refl
  step-numbered s n (Command.create_offer offer) = refl
  step-numbered s n (Command.accept_offer offer_id _) = accept_on-numbered s n offer_id
  step-numbered s n (Command.reject_offer offer_id _) = mark_on-numbered s n offer_id _
  step-numbered s n (Command.mark_offer_expired offer_id) = mark_on-numbered s n offer_id _
  step-numbered s n (Command.mark_offer_cancelled offer_id) = mark_on-numbered s n offer_id _
  step-numbered s n (Command.cancel_job job_id) = cancel_on-numbered s n job_id
  step-numbered s n (Command.remove_driver _) = refl
  step-numbered s n (Command.record_webhook_delivery_failed job_id _) =
      elim (Bool-cases (HashMap.contains_key job_id s.jobs)) [
        | inl p ↦ rw (p, step)
        | inr p ↦ rw (p, step)
      ]

module _ {F S : Type 0} ⦃f : F64 F⦄ ⦃h : H3 F⦄ ⦃c : Codec⦄ ⦃b : StorageBackend F S⦄ where
  to_snapshot-push_job_events :
      (e : Engine F S) (job_id : ℕ) (kinds : List JobEventKind)
      → to_snapshot (push_job_events e job_id kinds) ≡ count_all (to_snapshot e) job_id kinds
  unfolding to_snapshot push_job_events push_job_event count_all count_one
  to_snapshot-push_job_events e job_id [] = refl
  to_snapshot-push_job_events e job_id (kind ∷ kinds) =
      to_snapshot-push_job_events (push_job_event e job_id kind) job_id kinds

  to_snapshot-mark :
      (e : Engine F S) (offer_id : ℕ) (status : OfferStatus) (event : ℕ → ℕ → JobEventKind)
      → to_snapshot (apply_mark e offer_id status event) ≡ mark_on (to_snapshot e) offer_id status
  unfolding to_snapshot apply_mark mark_on count_one push_job_event
  to_snapshot-mark e offer_id status event = elim (Option-cases (HashMap.get offer_id e.offers)) [
    | inl p ↦ rw (p, apply_mark, mark_on)
    | inr (o, p) ↦ rw (p, apply_mark, mark_on)
  ]

  to_snapshot-accept_offer :
      (e : Engine F S) (offer_id : ℕ)
      → to_snapshot (apply_accept_offer e offer_id) ≡ accept_on (to_snapshot e) offer_id
  unfolding apply_accept_offer accept_on to_snapshot
  to_snapshot-accept_offer e offer_id = elim (Option-cases (HashMap.get offer_id e.offers)) [
    | inl p ↦ rw (p, apply_accept_offer, accept_on)
    | inr (o, p) ↦ rw (p, apply_accept_offer, accept_on) (to_snapshot-push_job_events _ o.job_id _)
  ]

  to_snapshot-cancel_job :
      (e : Engine F S) (job_id : ℕ)
      → to_snapshot (apply_cancel_job e job_id) ≡ cancel_on (to_snapshot e) job_id
  unfolding apply_cancel_job cancel_on to_snapshot
  to_snapshot-cancel_job e job_id = elim (Bool-cases (HashMap.contains_key job_id e.jobs)) [
    | inl p ↦ rw (p, apply_cancel_job, cancel_on) (to_snapshot-push_job_events _ job_id _)
    | inr p ↦ rw (p, apply_cancel_job, cancel_on)
  ]

  to_snapshot-webhook :
      (e : Engine F S) (job_id offer_id : ℕ)
      → to_snapshot (apply_record_webhook_delivery_failed e job_id offer_id)
        ≡ step (to_snapshot e) (Command.record_webhook_delivery_failed job_id offer_id)
  unfolding apply_record_webhook_delivery_failed step to_snapshot push_job_event
  to_snapshot-webhook e job_id offer_id = elim (Bool-cases (HashMap.contains_key job_id e.jobs)) [
    | inl p ↦ rw (p, apply_record_webhook_delivery_failed, step)
    | inr p ↦ rw (p, apply_record_webhook_delivery_failed, step)
  ]

  -- `apply_command` changes the durable state of the engine as `step` says, whatever the clock, the
  -- storage, the event histories and the spatial index are.
  pub to_snapshot-apply_command :
      (e : Engine F S) (cmd : Command F)
      → to_snapshot (apply_command e cmd) ≡ step (to_snapshot e) cmd
  unfolding apply_command step apply_upsert_driver_location apply_register_job apply_create_offer
      apply_remove_driver to_snapshot push_job_event
  to_snapshot-apply_command e (Command.upsert_driver_location _ _ _ _ _) = refl
  to_snapshot-apply_command e (Command.register_job job) = refl
  to_snapshot-apply_command e (Command.create_offer offer) = refl
  to_snapshot-apply_command e (Command.accept_offer offer_id _) =
      to_snapshot-accept_offer e offer_id
  to_snapshot-apply_command e (Command.reject_offer offer_id _) = to_snapshot-mark e offer_id _ _
  to_snapshot-apply_command e (Command.mark_offer_expired offer_id) =
      to_snapshot-mark e offer_id _ _
  to_snapshot-apply_command e (Command.mark_offer_cancelled offer_id) =
      to_snapshot-mark e offer_id _ _
  to_snapshot-apply_command e (Command.cancel_job job_id) = to_snapshot-cancel_job e job_id
  to_snapshot-apply_command e (Command.remove_driver _) = refl
  to_snapshot-apply_command e (Command.record_webhook_delivery_failed job_id offer_id) =
      to_snapshot-webhook e job_id offer_id
