-- ===== src/Core/Offers/Closing.antt =====
-- A job that is cancelled, under the commands and the public methods on offers.
use mathlib.Core.Option
use spatiad.Base.{
  ℕ, ◌≡◌, refl, Bool, true, false, ◌&&◌, none, some, Option, Option-cases, Bool-cases, inl, inr,
  nat_eq, nat_beq, ◌==◌, arith,
}
use spatiad.Base.HashMap
use spatiad.Base.HashSet
use spatiad.Platform.{F64, H3}
use spatiad.Types.{OfferStatus, OfferRecord, is_pending}
use spatiad.Storage.{StorageBackend, Command}
use spatiad.Core.EventKind.{JobEventKind, Codec}
use spatiad.Core.State.{Engine}
use spatiad.Core.Journal.Frame.{SameTables, push_job_event-SameTables, push_job_events-SameTables}
use spatiad.Core.Commands.{
  is_open, is_competing, cancel_if, set_status, append_and_apply, apply_command,
  apply_upsert_driver_location, apply_register_job, apply_create_offer, apply_accept_offer,
  apply_mark, apply_cancel_job, apply_remove_driver, apply_record_webhook_delivery_failed,
}
use spatiad.Core.Commands.Tables.{get-accept_offer, get-mark, get-cancel_job}

-- The status of an offer of the job is not pending.
abbrev pub IsSettled : ℕ → Option OfferRecord → Type 0
IsSettled job_id none = Unit {0}
IsSettled job_id (some o) = (o.job_id == job_id && is_pending o.status) ≡ false

set_status-IsSettled :
    (job_id : ℕ) (status : OfferStatus) (o : Option OfferRecord)
    → is_pending status ≡ false
    → IsSettled job_id (Option.map (set_status status) o)
set_status-IsSettled job_id status none p = tt
set_status-IsSettled job_id status (some o) p = ground (arith, p)

cancel_if-IsSettled :
    (job_id : ℕ) (p : OfferRecord → Bool) (o : Option OfferRecord)
    → IsSettled job_id o
    → IsSettled job_id (Option.map (cancel_if p) o)
cancel_if-IsSettled job_id p none s = tt
cancel_if-IsSettled job_id p (some o) s = elim (Bool-cases (p o)) [
  | inl t ↦ ground (arith, t)
  | inr t ↦ ground (arith, t, s)
]

pub is_open-IsSettled :
    (job_id : ℕ) (o : Option OfferRecord)
    → IsSettled job_id (Option.map (cancel_if (is_open job_id)) o)
is_open-IsSettled job_id none = tt
is_open-IsSettled job_id (some o) = ground arith

pub found-IsSettled :
    (job_id : ℕ) (found : Option OfferRecord) (o : OfferRecord)
    → found ≡ some o
    → IsSettled job_id found
    → IsSettled job_id (some o)
found-IsSettled job_id none o p s = ground (arith, p)
found-IsSettled job_id (some x) o p s = ground (arith, p, s)

module _ {F S : Type 0} where
  -- A job that is cancelled and has no pending offer.
  pub record IsShut (job_id : ℕ) (e : Engine F S) : Type 0 where
    pub cancelled : HashSet.contains job_id e.cancelled_jobs ≡ true
    pub settled : (k : ℕ) → IsSettled job_id (HashMap.get k e.offers)

  same-IsShut :
      (job_id : ℕ) (e e' : Engine F S) → SameTables e e' → IsShut job_id e → IsShut job_id e'
  same-IsShut job_id e e' t s = record {
    cancelled = rw (t.cancelled_jobs) s.cancelled;
    settled = rw (t.offers) s.settled;
  }

module _ {F : Type 0} where
  -- The command neither registers the job nor makes an offer for it.
  abbrev pub Spares : ℕ → Command F → Type 0
  Spares job_id (Command.register_job job) = nat_beq job_id job.job_id ≡ false
  Spares job_id (Command.create_offer o) = nat_beq o.job_id job_id ≡ false
  Spares job_id _ = Unit {0}

module _ {F S : Type 0} ⦃f : F64 F⦄ ⦃h : H3 F⦄ ⦃c : Codec⦄ ⦃b : StorageBackend F S⦄ where
  cancelled-mark :
      (e : Engine F S) (offer_id : ℕ) (status : OfferStatus) (event : ℕ → ℕ → JobEventKind)
      → (apply_mark e offer_id status event).cancelled_jobs ≡ e.cancelled_jobs
  unfolding apply_mark
  cancelled-mark e offer_id status event = elim (Option-cases (HashMap.get offer_id e.offers)) [
    | inl p ↦ rw (p, apply_mark) refl
    | inr (o, p) ↦ rw (p, apply_mark) ((push_job_event-SameTables _ o.job_id _).cancelled_jobs)
  ]

  cancelled-accept_offer :
      (e : Engine F S) (offer_id : ℕ)
      → (apply_accept_offer e offer_id).cancelled_jobs ≡ e.cancelled_jobs
  unfolding apply_accept_offer
  cancelled-accept_offer e offer_id = elim (Option-cases (HashMap.get offer_id e.offers)) [
    | inl p ↦ rw (p, apply_accept_offer) refl
    | inr (o, p) ↦
        rw (p, apply_accept_offer) ((push_job_events-SameTables _ o.job_id _).cancelled_jobs)
  ]

  mark-IsShut :
      (job_id : ℕ) (e : Engine F S) (offer_id : ℕ) (status : OfferStatus)
      (event : ℕ → ℕ → JobEventKind)
      → is_pending status ≡ false
      → IsShut job_id e
      → IsShut job_id (apply_mark e offer_id status event)
  unfolding apply_mark
  mark-IsShut job_id e offer_id status event closed s =
      elim (Option-cases (HashMap.get offer_id e.offers)) [
        | inl p ↦ rw (p, apply_mark) s
        | inr (o, p) ↦ record {
          cancelled = rw (cancelled-mark e offer_id status event) s.cancelled;
          settled = λ k.
              rw (get-mark e offer_id status event o k p) (elim (Bool-cases (nat_beq k offer_id)) [
                | inl t ↦ rw t (set_status-IsSettled job_id status (some o) closed)
                | inr t ↦ rw t (s.settled k)
              ]);
        }
      ]

  accept_offer-IsShut :
      (job_id : ℕ) (e : Engine F S) (offer_id : ℕ)
      → IsShut job_id e
      → IsShut job_id (apply_accept_offer e offer_id)
  unfolding apply_accept_offer
  accept_offer-IsShut job_id e offer_id s = elim (Option-cases (HashMap.get offer_id e.offers)) [
    | inl p ↦ rw (p, apply_accept_offer) s
    | inr (o, p) ↦ record {
      cancelled = rw (cancelled-accept_offer e offer_id) s.cancelled;
      settled = λ k. rw (get-accept_offer e offer_id o k p) (
          cancel_if-IsSettled job_id (is_competing o.job_id o.offer_id) _
            (elim (Bool-cases (nat_beq k offer_id)) [
              | inl t ↦
                  rw t
                    (set_status-IsSettled job_id OfferStatus.accepted (HashMap.get k e.offers) refl)
              | inr t ↦ rw t (s.settled k)
            ]));
    }
  ]

  cancel_job-IsShut :
      (job_id : ℕ) (e : Engine F S) (other : ℕ)
      → IsShut job_id e
      → IsShut job_id (apply_cancel_job e other)
  unfolding apply_cancel_job
  cancel_job-IsShut job_id e other s = elim (Bool-cases (HashMap.contains_key other e.jobs)) [
    | inl p ↦ record {
      cancelled =
          rw (p, apply_cancel_job)
            (rw ((push_job_events-SameTables _ other _).cancelled_jobs)
              (ground (arith, s.cancelled, HashSet.contains-insert job_id other e.cancelled_jobs)));
      settled = λ k.
          rw (get-cancel_job e other k p)
            (cancel_if-IsSettled job_id (is_open other) (HashMap.get k e.offers) (s.settled k));
    }
    | inr p ↦ rw (p, apply_cancel_job) s
  ]

  apply_command-IsShut :
      (job_id : ℕ) (e : Engine F S) (cmd : Command F)
      → Spares job_id cmd
      → IsShut job_id e
      → IsShut job_id (apply_command e cmd)
  unfolding apply_command apply_upsert_driver_location apply_register_job apply_create_offer
      apply_remove_driver apply_record_webhook_delivery_failed
  apply_command-IsShut job_id e (Command.upsert_driver_location _ _ _ _ _) q s = record {
    cancelled = s.cancelled;
    settled = s.settled;
  }
  apply_command-IsShut job_id e (Command.register_job job) q s =
      same-IsShut job_id _ _ (push_job_event-SameTables _ job.job_id _) (record {
        cancelled =
            ground
              (arith, q, s.cancelled, HashSet.contains-remove job_id job.job_id e.cancelled_jobs);
        settled = s.settled;
      })
  apply_command-IsShut job_id e (Command.create_offer o) q s =
      same-IsShut job_id _ _ (push_job_event-SameTables _ o.job_id _) (record {
        cancelled = s.cancelled;
        settled = λ k.
            rw (HashMap.get-insert k o.offer_id o e.offers)
              (elim (Bool-cases (nat_beq k o.offer_id)) [
                | inl t ↦ rw t (ground (arith, q))
                | inr t ↦ rw t (s.settled k)
              ]);
      })
  apply_command-IsShut job_id e (Command.accept_offer offer_id _) q s =
      accept_offer-IsShut job_id e offer_id s
  apply_command-IsShut job_id e (Command.reject_offer offer_id _) q s =
      mark-IsShut job_id e offer_id _ _ refl s
  apply_command-IsShut job_id e (Command.mark_offer_expired offer_id) q s =
      mark-IsShut job_id e offer_id _ _ refl s
  apply_command-IsShut job_id e (Command.mark_offer_cancelled offer_id) q s =
      mark-IsShut job_id e offer_id _ _ refl s
  apply_command-IsShut job_id e (Command.cancel_job other) q s = cancel_job-IsShut job_id e other s
  apply_command-IsShut job_id e (Command.remove_driver _) q s = record {
    cancelled = s.cancelled;
    settled = s.settled;
  }
  apply_command-IsShut job_id e (Command.record_webhook_delivery_failed other offer_id) q s =
      elim (Bool-cases (HashMap.contains_key other e.jobs)) [
        | inl p ↦
            rw (p, apply_record_webhook_delivery_failed)
              (same-IsShut job_id _ _ (push_job_event-SameTables e other _) s)
        | inr p ↦ rw (p, apply_record_webhook_delivery_failed) s
      ]

  pub append_and_apply-IsShut :
      (job_id : ℕ) (e : Engine F S) (cmd : Command F)
      → Spares job_id cmd
      → IsShut job_id e
      → IsShut job_id (append_and_apply e cmd)
  unfolding append_and_apply
  append_and_apply-IsShut job_id e cmd q s =
      apply_command-IsShut job_id _ cmd q (record { cancelled = s.cancelled; settled = s.settled })
