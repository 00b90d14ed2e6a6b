-- ===== src/Core/Offers/Locking.antt =====
-- What can no longer happen once an offer is accepted or a job is cancelled.
use mathlib.Core.Option
use spatiad.Base.{ℕ, Bool, ◌≡◌, refl, true, none, some, inl, inr, Option-cases, nat_eq, arith, err}
use spatiad.Base.HashMap
use spatiad.Base.HashMap.{HashMap}
use spatiad.Base.HashSet
use spatiad.Platform.{F64, H3}
use spatiad.Types.{OfferRecord}
use spatiad.Storage.{StorageBackend}
use spatiad.Core.EventKind.{Codec}
use spatiad.Core.State.{Engine, CoreError}
use spatiad.Core.Journal.Frame.{push_job_events-SameTables}
use spatiad.Core.Mutations.{cancel_job}
use spatiad.Core.Search.{create_next_offer_for_job}
use spatiad.Core.Commands.{is_open, cancel_if, append_and_apply, apply_command, apply_cancel_job}
use spatiad.Core.Commands.Tables.{get-cancel_job}
use spatiad.Core.Offers.{handle_offer_response}

module _ {F S : Type 0} ⦃f : F64 F⦄ ⦃h : H3 F⦄ ⦃c : Codec⦄ ⦃b : StorageBackend F S⦄ where
  -- Every response to an offer of the job fails and changes nothing.
  abbrev pub IsClosed : Engine F S → Engine F S → ℕ → Type 0
  IsClosed e e' job_id =
      (k : ℕ) (x : OfferRecord) (accepted : Bool)
      → HashMap.get k e.offers ≡ some x
      → x.job_id ≡ job_id
      → handle_offer_response e' k accepted ≡ (e', err CoreError.offer_not_pending)

  pub get-cancel_job_known :
      (e : Engine F S) (job_id k : ℕ)
      → HashMap.contains_key job_id e.jobs ≡ true
      → HashMap.get k (cancel_job e job_id).0.offers
        ≡ Option.map (cancel_if (is_open job_id)) (HashMap.get k e.offers)
  unfolding cancel_job append_and_apply apply_command
  get-cancel_job_known e job_id k known = rw (known, cancel_job) (get-cancel_job _ job_id k known)

  pub cancelled-cancel_job :
      (e : Engine F S) (job_id : ℕ)
      → HashMap.contains_key job_id e.jobs ≡ true
      → HashSet.contains job_id (cancel_job e job_id).0.cancelled_jobs ≡ true
  unfolding cancel_job append_and_apply apply_command apply_cancel_job
  cancelled-cancel_job e job_id known =
      rw (known, cancel_job)
        (rw ((push_job_events-SameTables _ job_id _).cancelled_jobs)
          (ground (arith, HashSet.contains-insert job_id job_id e.cancelled_jobs)))

  pub no_offer-cancelled :
      (e : Engine F S) (job_id : ℕ)
      → HashSet.contains job_id e.cancelled_jobs ≡ true
      → create_next_offer_for_job e job_id ≡ (e, none)
  unfolding create_next_offer_for_job
  no_offer-cancelled e job_id p = elim (Option-cases (HashMap.get job_id e.jobs)) [
    | inl q ↦ rw (q, create_next_offer_for_job) refl
    | inr (job, q) ↦ rw (q, create_next_offer_for_job) (rw p)
  ]
