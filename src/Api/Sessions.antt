-- ===== src/Api/Sessions.antt =====
-- rust/crates/spatiad-api/src/lib.rs: the channels between the tasks and the sessions of drivers, and
-- what is sent to a driver.
pub mod Cancellations
use spatiad.Base.{
  ℕ, suc, Bool, Option, none, some, List, [], ◌∷◌, ◌++◌, find, Result, ok, err, nat_eq, nat_beq,
  if◌then◌else◌,
}
use spatiad.Base.Text.{Text}
use spatiad.Base.HashMap
use spatiad.Types.{OfferRecord}
use spatiad.Core.State.{Engine, PendingDriverOffer, CancelledDriverOffer, ExpiredOffer}
use spatiad.Dispatch.Views.{pending_offers_for_driver, cancelled_offers_for_job}
use spatiad.Ws.{DriverOutbound, MessageCodec}
use spatiad.Api.State.{ApiState, Tasks, acquire}

-- `axum::extract::ws::Message`.
pub data Message : Type 0 where
  text : Text → Message
  binary ping pong : List ℕ → Message
  close : Message

-- A `WebSocket`: the messages that were sent, oldest first, and whether the sends that are still to
-- come succeed.
pub record WebSocket : Type 0 where
  pub sent : List Message
  pub succeeds : ℕ → Bool

-- A task that serves a driver: the shared state and its socket.
pub record Session (F S : Type 0) : Type 0 where
  pub shared : ApiState F S
  pub socket : WebSocket

-- What an `async fn .. -> Result<(), ()>` of a session leaves.
abbrev pub Outcome : Type 0 → Type 0 → Type 0
Outcome F S = Session F S × Result (Unit {0}) (Unit {0})

-- `expr.await?; rest`.
abbrev pub and_then : {F S : Type 0} → Outcome F S → (Session F S → Outcome F S) → Outcome F S
and_then (s, ok _) rest = rest s
and_then (s, err e) rest = (s, err e)

-- `socket.send(message).await.map_err(|_| ())`.
unfoldable pub send : {F S : Type 0} → Session F S → Message → Outcome F S
send s message =
    if s.socket.succeeds 0
    then (
      record s {
        socket = record {
          sent = s.socket.sent ++ (message ∷ []);
          succeeds = λ n. s.socket.succeeds (suc n);
        };
      },
      ok tt,
    )
    else (
      record s {
        socket = record { sent = s.socket.sent; succeeds = λ n. s.socket.succeeds (suc n) };
      },
      err tt,
    )

abbrev pub offer_message : {F : Type 0} → PendingDriverOffer F → DriverOutbound F
offer_message pending =
    DriverOutbound.offer pending.offer_id pending.job_id pending.pickup pending.dropoff
      pending.expires_at

module _ {F S : Type 0} where
  -- `tx.send(message)` on the sender of a driver, if it has one. A channel without receiver drops
  -- the message.
  unfoldable pub deliver : ApiState F S → ℕ → DriverOutbound F → ApiState F S
  deliver s driver_id message = elim (HashMap.get driver_id s.sessions) [
    | none ↦ s
    | some channel ↦ record s {
      channels = HashMap.adjust channel (λ queue. queue ++ (message ∷ [])) s.channels;
    }
  ]

  unfoldable pub deliver_cancelled : ApiState F S → ℕ → List CancelledDriverOffer → ApiState F S
  deliver_cancelled s job_id [] = s
  deliver_cancelled s job_id (item ∷ items) =
      deliver_cancelled
        (deliver s item.driver_id (DriverOutbound.offer_cancelled item.offer_id job_id)) job_id
        items

  unfoldable pub deliver_expired : ApiState F S → List ExpiredOffer → ApiState F S
  deliver_expired s [] = s
  deliver_expired s (item ∷ items) =
      deliver_expired (deliver s item.driver_id (DriverOutbound.offer_expired item.offer_id)) items

module _ {F S : Type 0} ⦃t : Tasks F S⦄ where
  -- The service and the sessions are locked one after the other.
  abbrev pub cancelled_from : ℕ → ApiState F S → List CancelledDriverOffer → ApiState F S
  cancelled_from job_id s [] = s
  cancelled_from job_id s (item ∷ items) = deliver_cancelled (acquire s) job_id (item ∷ items)

  unfoldable pub notify_competing_cancellations : ApiState F S → ℕ → ApiState F S
  notify_competing_cancellations s job_id =
      let s' = acquire s in cancelled_from job_id s' (cancelled_offers_for_job s'.dispatch job_id)

  -- One round of the loop of `notify_new_offers` that finds the offer still pending, or not.
  abbrev pub notify_found : ApiState F S → ℕ → Option (PendingDriverOffer F) → ApiState F S
  notify_found s driver_id none = s
  notify_found s driver_id (some pending) = deliver (acquire s) driver_id (offer_message pending)

  unfoldable pub notify_listed :
      ApiState F S → OfferRecord → Engine F S × List (PendingDriverOffer F) → ApiState F S
  notify_listed s offer (e, listed) =
      notify_found (record s { dispatch = e }) offer.driver_id
        (find (λ pending. nat_beq pending.offer_id offer.offer_id) listed)

  unfoldable pub notify_new_offers : ApiState F S → List OfferRecord → ApiState F S
  unfolding notify_listed
  notify_new_offers s [] = s
  notify_new_offers s (offer ∷ offers) =
      let s' = acquire s in
      notify_new_offers
        (notify_listed s' offer (pending_offers_for_driver s'.dispatch offer.driver_id)) offers

-- A message without JSON text fails before it is sent.
unfoldable pub send_json : {F S : Type 0} → Session F S → Option Text → Outcome F S
send_json s none = (s, err tt)
send_json s (some json) = send s (Message.text json)

module _ {F S : Type 0} ⦃m : MessageCodec F⦄ where
  unfoldable pub send_outbound : Session F S → DriverOutbound F → Outcome F S
  send_outbound s payload = send_json s (m.outbound_to_json payload)

  unfoldable pub send_all : Session F S → List (DriverOutbound F) → Outcome F S
  send_all s [] = (s, ok tt)
  send_all s (payload ∷ payloads) = and_then (send_outbound s payload) λ s'. send_all s' payloads
