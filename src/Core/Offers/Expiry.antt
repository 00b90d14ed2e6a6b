-- ===== src/Core/Offers/Expiry.antt =====
-- Which offers the expiry calls expire.
use mathlib.Core.Option
use spatiad.Base.{
  ℕ, Bool, ◌≡◌, refl, ◌∙◌, ap, true, false, Option, none, some, inl, inr, Option-cases, nat_eq,
  ◌==◌, arith, if◌then◌else◌, List, [], ◌∷◌, map, filter, ◌||◌,
}
use spatiad.Base.HashMap
use spatiad.Base.HashMap.{HashMap}
use spatiad.Base.HashSet
use spatiad.Platform.{F64, H3, utc_now}
use spatiad.Types.{OfferStatus, OfferRecord}
use spatiad.Storage.{StorageBackend, Command}
use spatiad.Core.EventKind.{Codec}
use spatiad.Core.State.{Engine}
use spatiad.Core.Mutations.{tick}
use spatiad.Core.Commands.{set_status, append_and_apply, apply_command, apply_mark}
use spatiad.Core.Commands.Tables.{get-mark}
use spatiad.Core.Offers.{
  expire_loop, picked, is_overdue, is_overdue_for, expire_pending_offers_for_driver,
  expire_pending_offers_global,
}

-- No key twice, as in every `HashMap`.
abbrev pub IsDistinct : HashMap ℕ OfferRecord → Type 0
IsDistinct [] = Unit {0}
IsDistinct ((k, _) ∷ m) = (HashMap.get k m ≡ none) × IsDistinct m

-- Every entry under its own id, read off the list.
abbrev pub IsKeyedList : HashMap ℕ OfferRecord → Type 0
IsKeyedList [] = Unit {0}
IsKeyedList ((k, o) ∷ m) = (o.offer_id ≡ k) × IsKeyedList m

abbrev pub passes : (OfferRecord → Bool) → Option OfferRecord → Bool
passes p none = false
passes p (some o) = p o

contains-picked :
    (p : OfferRecord → Bool) (m : HashMap ℕ OfferRecord) (k : ℕ)
    → IsDistinct m
    → IsKeyedList m
    → HashSet.contains k (map (λ o. o.offer_id) (filter p (HashMap.values m)))
      ≡ passes p (HashMap.get k m)
unfolding HashSet.contains HashMap.get
contains-picked p [] k d l = refl
contains-picked p ((i, o) ∷ m) k d l = ground (arith, d.0, l.0, contains-picked p m k d.1 l.1)

-- The offer expired where the test holds.
abbrev pub expired_if : Bool → Option OfferRecord → Option OfferRecord
expired_if t o = if t then Option.map (set_status OfferStatus.expired) o else o

expired_if-twice :
    (s t : Bool) (o : Option OfferRecord) → expired_if s (expired_if t o) ≡ expired_if (t || s) o
expired_if-twice false t o = ground arith
expired_if-twice true false o = refl
expired_if-twice true true none = refl
expired_if-twice true true (some o) = refl

module _ {F S : Type 0} ⦃f : F64 F⦄ ⦃h : H3 F⦄ ⦃c : Codec⦄ ⦃b : StorageBackend F S⦄ where
  get-expire_one :
      (e : Engine F S) (offer_id k : ℕ)
      → HashMap.get k (append_and_apply e (Command.mark_offer_expired offer_id)).offers
        ≡ expired_if (k == offer_id) (HashMap.get k e.offers)
  unfolding append_and_apply apply_command
  get-expire_one e offer_id k = elim (Option-cases (HashMap.get offer_id e.offers)) [
    | inl p ↦ unfold apply_mark in rw (p, apply_mark) (ground (arith, p))
    | inr (o, p) ↦ get-mark _ offer_id _ _ o k p ∙ ground (arith, p)
  ]

  get-expire_loop :
      (e : Engine F S) (ids : List ℕ) (k : ℕ)
      → HashMap.get k (expire_loop e ids).0.offers
        ≡ expired_if (HashSet.contains k ids) (HashMap.get k e.offers)
  unfolding expire_loop HashSet.contains
  get-expire_loop e [] k = refl
  get-expire_loop e (offer_id ∷ ids) k =
      get-expire_loop (append_and_apply e (Command.mark_offer_expired offer_id)) ids k
      ∙ ap (expired_if (HashSet.contains k ids)) (get-expire_one e offer_id k)
      ∙ expired_if-twice (HashSet.contains k ids) (k == offer_id) (HashMap.get k e.offers)

  -- The global expiry marks as expired exactly the offers that are pending and whose deadline has
  -- come at the reading of the clock, where the offers are stored under their ids and no id occurs
  -- twice. Every other offer is as it was.
  pub get-expire_pending_offers_global :
      (e : Engine F S) (k : ℕ)
      → IsDistinct e.offers
      → IsKeyedList e.offers
      → HashMap.get k (expire_pending_offers_global e).0.offers
        ≡ expired_if
            (passes (is_overdue (utc_now e.world)) (HashMap.get k e.offers))
            (HashMap.get k e.offers)
  unfolding expire_pending_offers_global
  get-expire_pending_offers_global e k d l =
      get-expire_loop (tick e) (picked (is_overdue (utc_now e.world)) e) k
      ∙ ap (λ t. expired_if t (HashMap.get k e.offers))
          (contains-picked (is_overdue (utc_now e.world)) e.offers k d l)

  -- The expiry for one driver does the same to the offers of that driver alone.
  pub get-expire_pending_offers_for_driver :
      (e : Engine F S) (driver_id k : ℕ)
      → IsDistinct e.offers
      → IsKeyedList e.offers
      → HashMap.get k (expire_pending_offers_for_driver e driver_id).0.offers
        ≡ expired_if
            (passes (is_overdue_for driver_id (utc_now e.world)) (HashMap.get k e.offers))
            (HashMap.get k e.offers)
  unfolding expire_pending_offers_for_driver
  get-expire_pending_offers_for_driver e driver_id k d l =
      get-expire_loop (tick e) (picked (is_overdue_for driver_id (utc_now e.world)) e) k
      ∙ ap (λ t. expired_if t (HashMap.get k e.offers))
          (contains-picked (is_overdue_for driver_id (utc_now e.world)) e.offers k d l)
