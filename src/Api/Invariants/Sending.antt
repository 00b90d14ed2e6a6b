-- ===== src/Api/Invariants/Sending.antt =====
-- rust/crates/spatiad-api/src/lib.rs: predicates on the service that sending to a driver keeps.
use spatiad.Base.{ℕ, ◌≡◌, Option, none, some, List, [], ◌∷◌, map, ok, err, nat_eq, arith, refl}
use spatiad.Base.Text.{Text}
use spatiad.Platform.{F64, H3}
use spatiad.Storage.{StorageBackend}
use spatiad.Core.EventKind.{Codec}
use spatiad.Core.State.{Engine, PendingDriverOffer}
use spatiad.Dispatch.{ExpirationUpdate, expire_pending_offers_for_driver}
use spatiad.Dispatch.Run.{Step}
use spatiad.Dispatch.Views.{pending_offers_for_driver}
use spatiad.Ws.{DriverOutbound, MessageCodec}
use spatiad.Api.State.{Tasks, acquire}
use spatiad.Api.Sessions.{
  Message, Session, Outcome, and_then, send, send_outbound, send_all, send_json, offer_message,
}
use spatiad.Api.Messages.{
  with_shared, expired_message, flushed, flush_expired_offers, replayed, replay_listed,
  replay_pending_offers,
}
use spatiad.Api.Invariants.{IsKept, acquire-keeps, notify_new_offers-keeps, listed-keeps}

module _ {F S : Type 0} where
  pub send-shared : (s : Session F S) (message : Message) → (send s message).0.shared ≡ s.shared
  unfolding send
  send-shared s message = ground arith

  send_json-shared : (s : Session F S) (json : Option Text) → (send_json s json).0.shared ≡ s.shared
  unfolding send_json
  send_json-shared s none = refl
  send_json-shared s (some json) = send-shared s (Message.text json)

module _ {F S : Type 0} ⦃f : F64 F⦄ ⦃h : H3 F⦄ ⦃c : Codec⦄ ⦃b : StorageBackend F S⦄ ⦃t : Tasks F S⦄
    (P : Engine F S → Type 0) (k : IsKept P) where
  pub and_then-keeps :
      (o : Outcome F S) (rest : Session F S → Outcome F S)
      → ((s : Session F S) → P s.shared.dispatch → P (rest s).0.shared.dispatch)
      → P o.0.shared.dispatch
      → P (and_then o rest).0.shared.dispatch
  and_then-keeps (s, ok _) rest keeps x = keeps s x
  and_then-keeps (s, err e) rest keeps x = x

module _ {F S : Type 0} ⦃f : F64 F⦄ ⦃h : H3 F⦄ ⦃c : Codec⦄ ⦃b : StorageBackend F S⦄ ⦃t : Tasks F S⦄
    ⦃m : MessageCodec F⦄ (P : Engine F S → Type 0) (k : IsKept P) where
  pub send_outbound-keeps :
      (s : Session F S) (payload : DriverOutbound F)
      → P s.shared.dispatch
      → P (send_outbound s payload).0.shared.dispatch
  unfolding send_outbound
  send_outbound-keeps s payload x = rw (send_json-shared s (m.outbound_to_json payload)) x

  send_all-keeps :
      (payloads : List (DriverOutbound F)) (s : Session F S)
      → P s.shared.dispatch
      → P (send_all s payloads).0.shared.dispatch
  unfolding send_all
  send_all-keeps [] s x = x
  send_all-keeps (payload ∷ payloads) s x =
      and_then-keeps P k (send_outbound s payload) (λ s'. send_all s' payloads)
        (send_all-keeps payloads) (send_outbound-keeps s payload x)

  flushed-keeps :
      (s : Session F S) (r : Engine F S × ExpirationUpdate)
      → P r.0
      → P (flushed s r).0.shared.dispatch
  unfolding flushed
  flushed-keeps s (e, update) x =
      and_then-keeps P k _ _ (λ s'. notify_new_offers-keeps P k s'.shared update.new_offers)
        (send_all-keeps (map expired_message update.expired) _ x)

  pub flush_expired_offers-keeps :
      (driver_id : ℕ) (s : Session F S)
      → P s.shared.dispatch
      → P (flush_expired_offers driver_id s).0.shared.dispatch
  unfolding flush_expired_offers
  flush_expired_offers-keeps driver_id s x =
      let shared = acquire s.shared in
      flushed-keeps (with_shared s shared)
        (expire_pending_offers_for_driver shared.dispatch driver_id)
        (k.by_step shared.dispatch _ (Step.expire_for_driver shared.dispatch driver_id)
          (acquire-keeps P k s.shared x))

  replayed-keeps :
      (s : Session F S) (r : Engine F S × List (PendingDriverOffer F))
      → P r.0
      → P (replayed s r).0.shared.dispatch
  unfolding replayed
  replayed-keeps s (e, pending) x = send_all-keeps (map offer_message pending) _ x

  replay_listed-keeps :
      (driver_id : ℕ) (s : Session F S)
      → P s.shared.dispatch
      → P (replay_listed driver_id s).0.shared.dispatch
  unfolding replay_listed
  replay_listed-keeps driver_id s x =
      let shared = acquire s.shared in
      replayed-keeps (with_shared s shared) (pending_offers_for_driver shared.dispatch driver_id)
        (listed-keeps P k shared.dispatch driver_id (acquire-keeps P k s.shared x))

  pub replay_pending_offers-keeps :
      (driver_id : ℕ) (s : Session F S)
      → P s.shared.dispatch
      → P (replay_pending_offers driver_id s).0.shared.dispatch
  unfolding replay_pending_offers
  replay_pending_offers-keeps driver_id s x =
      and_then-keeps P k (flush_expired_offers driver_id s) (replay_listed driver_id)
        (replay_listed-keeps driver_id) (flush_expired_offers-keeps driver_id s x)
