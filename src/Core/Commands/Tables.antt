-- ===== src/Core/Commands/Tables.antt =====
-- What the commands do to the offers, one entry at a time.
use mathlib.Core.Option
use spatiad.Base.{ℕ, ◌≡◌, ◌∙◌, ap, some, ◌==◌, nat_eq, if◌then◌else◌, true, arith}
use spatiad.Base.HashMap
use spatiad.Platform.{F64, H3}
use spatiad.Types.{OfferStatus, OfferRecord}
use spatiad.Storage.{StorageBackend}
use spatiad.Core.EventKind.{JobEventKind, Codec}
use spatiad.Core.State.{Engine}
use spatiad.Core.Journal.Frame.{push_job_event-SameTables, push_job_events-SameTables}
use spatiad.Core.Commands.{
  is_open, is_competing, cancel_if, set_status, set_busy, apply_accept_offer, apply_mark,
  apply_cancel_job,
}

module _ {F S : Type 0} ⦃f : F64 F⦄ ⦃h : H3 F⦄ ⦃c : Codec⦄ ⦃b : StorageBackend F S⦄ where
  pub get-accept_offer :
      (e : Engine F S) (offer_id : ℕ) (o : OfferRecord) (k : ℕ)
      → HashMap.get offer_id e.offers ≡ some o
      → HashMap.get k (apply_accept_offer e offer_id).offers
        ≡ Option.map (cancel_if (is_competing o.job_id o.offer_id)) (
            if k == offer_id
            then Option.map (set_status OfferStatus.accepted) (HashMap.get k e.offers)
            else HashMap.get k e.offers)
  unfolding apply_accept_offer
  get-accept_offer e offer_id o k p =
      rw (p, apply_accept_offer)
        (rw ((push_job_events-SameTables _ o.job_id _).offers) (
          HashMap.get-map_values k (cancel_if (is_competing o.job_id o.offer_id)) _
          ∙ ap (Option.map (cancel_if (is_competing o.job_id o.offer_id)))
              (HashMap.get-adjust k offer_id (set_status OfferStatus.accepted) e.offers)))

  pub drivers-accept_offer :
      (e : Engine F S) (offer_id : ℕ) (o : OfferRecord)
      → HashMap.get offer_id e.offers ≡ some o
      → (apply_accept_offer e offer_id).drivers ≡ HashMap.adjust o.driver_id set_busy e.drivers
  unfolding apply_accept_offer
  drivers-accept_offer e offer_id o p =
      rw (p, apply_accept_offer) ((push_job_events-SameTables _ o.job_id _).drivers)

  pub get-mark :
      (e : Engine F S) (offer_id : ℕ) (status : OfferStatus) (event : ℕ → ℕ → JobEventKind)
      (o : OfferRecord) (k : ℕ)
      → HashMap.get offer_id e.offers ≡ some o
      → HashMap.get k (apply_mark e offer_id status event).offers
        ≡ (if k == offer_id then some (set_status status o) else HashMap.get k e.offers)
  unfolding apply_mark
  get-mark e offer_id status event o k p =
      rw (p, apply_mark)
        (rw ((push_job_event-SameTables _ o.job_id _).offers)
          (ground (arith, p, HashMap.get-adjust k offer_id (set_status status) e.offers)))

  pub get-cancel_job :
      (e : Engine F S) (job_id k : ℕ)
      → HashMap.contains_key job_id e.jobs ≡ true
      → HashMap.get k (apply_cancel_job e job_id).offers
        ≡ Option.map (cancel_if (is_open job_id)) (HashMap.get k e.offers)
  unfolding apply_cancel_job
  get-cancel_job e job_id k p =
      rw (p, apply_cancel_job)
        (rw ((push_job_events-SameTables _ job_id _).offers)
          (HashMap.get-map_values k (cancel_if (is_open job_id)) e.offers))
