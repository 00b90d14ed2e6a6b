-- ===== src/Api/Sessions/Cancellations.antt =====
-- rust/crates/spatiad-api/src/lib.rs: what `notify_competing_cancellations` puts on the channels.
use mathlib.Core.List.{append-nil}
use spatiad.Base.{
  ℕ, ◌≡◌, sym, ◌∙◌, ap, Bool, false, Option, none, some, Option-cases, Bool-cases, inl, inr, List,
  [], ◌∷◌, ◌++◌, is_empty, nat_eq, nat_beq, snoc-append, arith, if◌then◌else◌,
}
use spatiad.Base.HashMap
use spatiad.Base.HashMap.{HashMap}
use spatiad.Core.State.{CancelledDriverOffer}
use spatiad.Dispatch.Views.{cancelled_offers_for_job}
use spatiad.Ws.{DriverOutbound}
use spatiad.Api.State.{ApiState, Tasks, acquire}
use spatiad.Api.Sessions.{
  deliver, deliver_cancelled, cancelled_from, notify_competing_cancellations,
}

-- Whether a driver is connected by a channel.
abbrev leads_to : ℕ → Option ℕ → Bool
leads_to channel none = false
leads_to channel (some c) = nat_beq c channel

-- The cancellations for the drivers that a channel connects, in the order of the offers.
unfoldable pub messages_on :
    {F : Type 0} → HashMap ℕ ℕ → ℕ → ℕ → List CancelledDriverOffer → List (DriverOutbound F)
messages_on sessions channel job_id [] = []
messages_on sessions channel job_id (item ∷ items) =
    let rest = messages_on sessions channel job_id items in
    if leads_to channel (HashMap.get item.driver_id sessions)
    then DriverOutbound.offer_cancelled item.offer_id job_id ∷ rest
    else rest

module _ {F S : Type 0} where
  deliver-sessions :
      (s : ApiState F S) (driver_id : ℕ) (message : DriverOutbound F)
      → (deliver s driver_id message).sessions ≡ s.sessions
  unfolding deliver
  deliver-sessions s driver_id message = ground arith

  get-deliver :
      (s : ApiState F S) (driver_id channel : ℕ) (message : DriverOutbound F)
      (queue : List (DriverOutbound F))
      → HashMap.get channel s.channels ≡ some queue
      → HashMap.get channel (deliver s driver_id message).channels
        ≡ some (
            if leads_to channel (HashMap.get driver_id s.sessions)
            then queue ++ (message ∷ [])
            else queue)
  unfolding deliver
  get-deliver s driver_id channel message queue p =
      elim (Option-cases (HashMap.get driver_id s.sessions)) [
        | inl q ↦ rw (q, deliver) p
        | inr (c, q) ↦
            rw (q, deliver)
              (ground (
                arith,
                p,
                HashMap.get-adjust channel c (λ found. found ++ (message ∷ [])) s.channels,
              ))
      ]

  get-deliver_cancelled :
      (items : List CancelledDriverOffer) (s : ApiState F S) (channel job_id : ℕ)
      (queue : List (DriverOutbound F))
      → HashMap.get channel s.channels ≡ some queue
      → HashMap.get channel (deliver_cancelled s job_id items).channels
        ≡ some (queue ++ messages_on s.sessions channel job_id items)
  unfolding deliver_cancelled messages_on
  get-deliver_cancelled [] s channel job_id queue p = p ∙ ap some (sym (append-nil queue))
  get-deliver_cancelled (item ∷ items) s channel job_id queue p =
      let message : DriverOutbound F = DriverOutbound.offer_cancelled item.offer_id job_id in
      let s' = deliver s item.driver_id message in
      let next = get-deliver s item.driver_id channel message queue p in
      let rest : (found : List (DriverOutbound F))
          → HashMap.get channel s'.channels ≡ some found
          → HashMap.get channel (deliver_cancelled s' job_id items).channels
            ≡ some (found ++ messages_on s.sessions channel job_id items) =
        λ found q.
          get-deliver_cancelled items s' channel job_id found q
          ∙ ap (λ sessions. some (found ++ messages_on sessions channel job_id items))
              (deliver-sessions s item.driver_id message) in
      elim (Bool-cases (leads_to channel (HashMap.get item.driver_id s.sessions))) [
        | inl q ↦ rw q (
            rest (queue ++ (message ∷ []))
              (next ∙ ap (λ b. some (if b then queue ++ (message ∷ []) else queue)) q)
            ∙ ap some (snoc-append queue message (messages_on s.sessions channel job_id items)))
        | inr q ↦
            rw q
              (rest queue (next ∙ ap (λ b. some (if b then queue ++ (message ∷ []) else queue)) q))
      ]

module _ {F S : Type 0} ⦃t : Tasks F S⦄ where
  cancelled_from-messages_on :
      (items : List CancelledDriverOffer) (s : ApiState F S) (channel job_id : ℕ)
      (queue : List (DriverOutbound F))
      → is_empty items ≡ false
      → HashMap.get channel (acquire s).channels ≡ some queue
      → HashMap.get channel (cancelled_from job_id s items).channels
        ≡ some (queue ++ messages_on (acquire s).sessions channel job_id items)
  cancelled_from-messages_on [] s channel job_id queue some_items p = ground (arith, some_items)
  cancelled_from-messages_on (item ∷ items) s channel job_id queue some_items p =
      get-deliver_cancelled (item ∷ items) (acquire s) channel job_id queue p

  -- When a job has cancelled offers, `notify_competing_cancellations` puts on each channel, behind
  -- what is there when it holds the sessions, one message for each cancelled offer of the job whose
  -- driver is connected by that channel, in the order of the offers, and nothing else.
  pub notify_competing_cancellations-messages_on :
      (s : ApiState F S) (job_id channel : ℕ) (queue : List (DriverOutbound F))
      → is_empty (cancelled_offers_for_job (acquire s).dispatch job_id) ≡ false
      → HashMap.get channel (acquire (acquire s)).channels ≡ some queue
      → HashMap.get channel (notify_competing_cancellations s job_id).channels
        ≡ some (
            queue
            ++ messages_on
                (acquire (acquire s)).sessions
                channel
                job_id
                (cancelled_offers_for_job (acquire s).dispatch job_id))
  unfolding notify_competing_cancellations
  notify_competing_cancellations-messages_on s job_id channel queue some_items p =
      cancelled_from-messages_on (cancelled_offers_for_job (acquire s).dispatch job_id) (acquire s)
        channel job_id queue some_items p
