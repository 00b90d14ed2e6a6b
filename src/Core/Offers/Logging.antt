-- ===== src/Core/Offers/Logging.antt =====
-- The methods on offers change the engine by logged commands alone.
use spatiad.Base.{
  ℕ, Bool, true, false, Option-cases, inl, inr, List, [], ◌∷◌, err, nat_eq, Bool-cases, leb,
  if◌then◌else◌,
}
use spatiad.Base.HashMap
use spatiad.Platform.{F64, H3, utc_now, after_now}
use spatiad.Types.{OfferRecord, OfferStatus, is_pending}
use spatiad.Storage.{StorageBackend, Command}
use spatiad.Core.EventKind.{Codec}
use spatiad.Core.State.{Engine, CoreError}
use spatiad.Core.Commands.{append_and_apply}
use spatiad.Core.Mutations.{tick}
use spatiad.Core.Offers.{handle_offer_response, mark_offer_status, mark_found, expire_loop, respond}
use spatiad.Core.Recovery.Logged.{
  IsLogged, unchanged, one_command, now_one, IsLogged-and, read_first,
}

module _ {F S : Type 0} ⦃f : F64 F⦄ ⦃h : H3 F⦄ ⦃c : Codec⦄ ⦃b : StorageBackend F S⦄ where
  respond-IsLogged :
      (e : Engine F S) (offer_id : ℕ) (offer : OfferRecord) (accepted : Bool)
      → IsLogged e (respond e offer_id offer accepted).0
  unfolding respond
  respond-IsLogged e offer_id offer true = one_command e (after_now e.world) _
  respond-IsLogged e offer_id offer false = one_command e (after_now e.world) _

  found-IsLogged :
      (e : Engine F S) (offer_id : ℕ) (offer : OfferRecord) (accepted : Bool)
      → IsLogged e
          (if is_pending offer.status
            then if leb offer.expires_at (utc_now e.world)
              then (
                append_and_apply (tick e) (Command.mark_offer_expired offer_id),
                err CoreError.offer_expired,
              )
              else respond (tick e) offer_id offer accepted
            else (e, err CoreError.offer_not_pending)).0
  found-IsLogged e offer_id offer accepted = elim (Bool-cases (is_pending offer.status)) [
    | inr q ↦ rw q (unchanged e)
    | inl q ↦ elim (Bool-cases (leb offer.expires_at (utc_now e.world))) [
      | inl late ↦ rw q (rw late (one_command e (after_now e.world) _))
      | inr early ↦ rw q (
          rw early (
            read_first e (after_now e.world) _ (respond-IsLogged (tick e) offer_id offer accepted)))
    ]
  ]

  pub response-IsLogged :
      (e : Engine F S) (offer_id : ℕ) (accepted : Bool)
      → IsLogged e (handle_offer_response e offer_id accepted).0
  unfolding handle_offer_response
  response-IsLogged e offer_id accepted = elim (Option-cases (HashMap.get offer_id e.offers)) [
    | inl p ↦ rw (p, handle_offer_response) (unchanged e)
    | inr (o, p) ↦ rw (p, handle_offer_response) (found-IsLogged e offer_id o accepted)
  ]

  pub expire_loop-IsLogged : (e : Engine F S) (ids : List ℕ) → IsLogged e (expire_loop e ids).0
  unfolding expire_loop
  expire_loop-IsLogged e [] = unchanged e
  expire_loop-IsLogged e (offer_id ∷ ids) =
      let marked = append_and_apply e (Command.mark_offer_expired offer_id) in
      IsLogged-and e marked _ (now_one e _) (expire_loop-IsLogged marked ids)

  -- The withdrawal of an offer.
  pub mark_offer_status-IsLogged :
      (e : Engine F S) (offer_id : ℕ)
      → IsLogged e (mark_offer_status e offer_id OfferStatus.cancelled).0
  unfolding mark_offer_status mark_found
  mark_offer_status-IsLogged e offer_id = elim (Option-cases (HashMap.get offer_id e.offers)) [
    | inl p ↦ rw (p, mark_offer_status) (unchanged e)
    | inr (_, p) ↦ rw (p, mark_offer_status) (now_one e _)
  ]
