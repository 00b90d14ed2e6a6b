-- ===== src/Api/Connections/Replay.antt =====
-- rust/crates/spatiad-api/src/lib.rs: what a driver is sent when it connects.
use mathlib.Core.List.{append-nil}
use spatiad.Base.{
  snoc-append, ℕ, suc, ◌≡◌, refl, sym, ◌∙◌, ap, true, some, List, [], ◌∷◌, ◌++◌, map, ok, err,
  nat_eq, arith,
}
use spatiad.Base.Text.{Text}
use spatiad.Platform.{F64, H3}
use spatiad.Storage.{StorageBackend}
use spatiad.Core.EventKind.{Codec}
use spatiad.Core.State.{Engine, PendingDriverOffer}
use spatiad.Dispatch.{ExpirationUpdate, expire_pending_offers_for_driver}
use spatiad.Dispatch.Views.{pending_offers_for_driver}
use spatiad.Ws.{DriverOutbound, MessageCodec}
use spatiad.Api.State.{ApiState, Tasks, acquire}
use spatiad.Api.Handlers.{with_dispatch}
use spatiad.Api.Sessions.{
  Message, Session, Outcome, and_then, send, send_json, send_outbound, send_all, offer_message,
  notify_new_offers,
}
use spatiad.Api.Messages.{
  with_shared, expired_message, flushed, flush_expired_offers, replayed, replay_listed,
  replay_pending_offers,
}

abbrev pub texts : {F : Type 0} → (DriverOutbound F → Text) → List (DriverOutbound F) → List Message
texts json payloads = map (λ payload. Message.text (json payload)) payloads

module _ {F S : Type 0} where
  -- A part of a session that succeeds, and what is sent to the driver in it.
  pub record HasSent (before payloads : List Message) (o : Outcome F S) : Type 0 where
    pub result : o.1 ≡ ok tt
    pub sent : o.0.socket.sent ≡ before ++ payloads
    pub stays : (n : ℕ) → o.0.socket.succeeds n ≡ true

  both-HasSent :
      (o : Outcome F S) (rest : Session F S → Outcome F S) (before payloads more : List Message)
      → HasSent before payloads o
      → (((n : ℕ) → o.0.socket.succeeds n ≡ true) → HasSent o.0.socket.sent more (rest o.0))
      → HasSent (before ++ payloads) more (and_then o rest)
  both-HasSent (s, ok _) rest before payloads more x y =
      let z = y x.stays in
      record { result = z.result; sent = z.sent ∙ ap (λ r. r ++ more) x.sent; stays = z.stays }
  both-HasSent (s, err _) rest before payloads more x y = ground (arith, x.result)

  send-HasSent :
      (s : Session F S) (message : Message)
      → ((n : ℕ) → s.socket.succeeds n ≡ true)
      → HasSent s.socket.sent (message ∷ []) (send s message)
  unfolding send
  send-HasSent s message up =
      rw (up 0) (record { result = refl; sent = refl; stays = λ n. up (suc n) })

module _ {F S : Type 0} ⦃m : MessageCodec F⦄ (json : DriverOutbound F → Text) where
  send_outbound-HasSent :
      ((x : DriverOutbound F) → m.outbound_to_json x ≡ some (json x))
      → (s : Session F S) (payload : DriverOutbound F) → ((n : ℕ) → s.socket.succeeds n ≡ true)
      → HasSent s.socket.sent (Message.text (json payload) ∷ []) (send_outbound s payload)
  unfolding send_outbound send_json
  send_outbound-HasSent prints s payload up =
      rw (prints payload) (send-HasSent s (Message.text (json payload)) up)

  send_all-HasSent :
      ((x : DriverOutbound F) → m.outbound_to_json x ≡ some (json x))
      → (payloads : List (DriverOutbound F)) (s : Session F S)
      → ((n : ℕ) → s.socket.succeeds n ≡ true)
      → HasSent s.socket.sent (texts json payloads) (send_all s payloads)
  unfolding send_all
  send_all-HasSent prints [] s up = record {
    result = refl;
    sent = sym (append-nil s.socket.sent);
    stays = up;
  }
  send_all-HasSent prints (payload ∷ payloads) s up =
      let both =
        both-HasSent (send_outbound s payload) (λ s'. send_all s' payloads) s.socket.sent
          (Message.text (json payload) ∷ []) (texts json payloads)
          (send_outbound-HasSent prints s payload up)
          (send_all-HasSent prints payloads (send_outbound s payload).0) in
      record {
        result = both.result;
        sent =
            both.sent
            ∙ snoc-append s.socket.sent (Message.text (json payload)) (texts json payloads);
        stays = both.stays;
      }

module _ {F S : Type 0} ⦃f : F64 F⦄ ⦃h : H3 F⦄ ⦃c : Codec⦄ ⦃b : StorageBackend F S⦄
    ⦃m : MessageCodec F⦄ ⦃t : Tasks F S⦄ (json : DriverOutbound F → Text) where
  quiet-HasSent :
      (o : Outcome F S) (g : Session F S → ApiState F S) (before payloads : List Message)
      → HasSent before payloads o
      → HasSent before payloads (and_then o λ s'. (with_shared s' (g s'), ok tt))
  quiet-HasSent (s, ok _) g before payloads x = record {
    result = refl;
    sent = x.sent;
    stays = x.stays;
  }
  quiet-HasSent (s, err _) g before payloads x = ground (arith, x.result)

  flushed-HasSent :
      ((x : DriverOutbound F) → m.outbound_to_json x ≡ some (json x))
      → (s : Session F S) (r : Engine F S × ExpirationUpdate)
      → ((n : ℕ) → s.socket.succeeds n ≡ true)
      → HasSent s.socket.sent (texts json (map expired_message r.1.expired)) (flushed s r)
  unfolding flushed
  flushed-HasSent prints s (e, update) up =
      quiet-HasSent _ (λ s'. notify_new_offers s'.shared update.new_offers) s.socket.sent _
        (send_all-HasSent json prints (map expired_message update.expired)
          (with_shared s (with_dispatch s.shared e)) up)

  replayed-HasSent :
      ((x : DriverOutbound F) → m.outbound_to_json x ≡ some (json x))
      → (s : Session F S) (r : Engine F S × List (PendingDriverOffer F))
      → ((n : ℕ) → s.socket.succeeds n ≡ true)
      → HasSent s.socket.sent (texts json (map offer_message r.1)) (replayed s r)
  unfolding replayed
  replayed-HasSent prints s (e, pending) up =
      send_all-HasSent json prints (map offer_message pending)
        (with_shared s (with_dispatch s.shared e)) up

  -- The offers of the driver that the service expires, and those that it lists after that.
  abbrev pub expired_for : ApiState F S → ℕ → List (DriverOutbound F)
  expired_for s driver_id =
      map expired_message
        (expire_pending_offers_for_driver (acquire s).dispatch driver_id).1.expired

  abbrev pub listed_for : ApiState F S → ℕ → List (DriverOutbound F)
  listed_for s driver_id =
      map offer_message (pending_offers_for_driver (acquire s).dispatch driver_id).1

  -- A driver that connects, while its socket works and all messages have JSON texts, is sent the
  -- expiries of its overdue offers and then the offers that the service lists as pending for it,
  -- in that order and nothing else, and the replay succeeds.
  pub replay_pending_offers-HasSent :
      (s : Session F S) (driver_id : ℕ)
      → ((x : DriverOutbound F) → m.outbound_to_json x ≡ some (json x))
      → ((n : ℕ) → s.socket.succeeds n ≡ true)
      → HasSent
          (s.socket.sent ++ texts json (expired_for s.shared driver_id))
          (texts json (listed_for (flush_expired_offers driver_id s).0.shared driver_id))
          (replay_pending_offers driver_id s)
  unfolding flush_expired_offers replay_listed replay_pending_offers
  replay_pending_offers-HasSent s driver_id prints up =
      let shared = acquire s.shared in
      let flush = flush_expired_offers driver_id s in
      let later = acquire flush.0.shared in
      both-HasSent flush (replay_listed driver_id) s.socket.sent
        (texts json (expired_for s.shared driver_id))
        (texts json (listed_for flush.0.shared driver_id))
        (flushed-HasSent prints (with_shared s shared)
          (expire_pending_offers_for_driver shared.dispatch driver_id) up)
        (replayed-HasSent prints (with_shared flush.0 later)
          (pending_offers_for_driver later.dispatch driver_id))
