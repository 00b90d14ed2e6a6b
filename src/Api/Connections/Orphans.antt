-- ===== src/Api/Connections/Orphans.antt =====
-- rust/crates/spatiad-api/src/lib.rs: a channel that has lost its sender.
use mathlib.Core.Option
use spatiad.Base.{
  ℕ, zero, suc, ◌<◌, ◌≡◌, ◌≢◌, refl, false, Option, none, some, List, [], ◌∷◌, ◌++◌, drop, nat_beq,
  nat_eq, arith, Bool-cases, Option-cases, inl, inr,
}
use spatiad.Base.HashMap
use spatiad.Ws.{DriverOutbound}
use spatiad.Api.State.{ApiState}
use spatiad.Api.Sessions.{deliver}
use spatiad.Api.Connections.{Received, recv, has_sender, after_recv, tail, register, unregister}
use spatiad.Api.Connections.Activity.{
  Activity, connects, leaves, delivers, receives, elsewhere, Later, here, next, deliver-sessions,
  deliver-next_channel,
}

tail-drop : {A : Type 0} (n : ℕ) (xs : List A) → tail (drop n xs) ≡ drop (suc n) xs
tail-drop zero [] = refl
tail-drop zero (x ∷ xs) = refl
tail-drop (suc n) [] = refl
tail-drop (suc n) (x ∷ xs) = tail-drop n xs

module _ {F : Type 0} where
  -- What is left of a queue: the channel is gone, or some of the first messages are received.
  pub data Rest (queue : List (DriverOutbound F)) : Option (List (DriverOutbound F)) → Type 0 where
    gone : Rest queue none
    left : (n : ℕ) → Rest queue (some (drop n queue))

  tail-Rest :
      (queue : List (DriverOutbound F)) (found : Option (List (DriverOutbound F)))
      → Rest queue found
      → Rest queue (Option.map tail found)
  tail-Rest queue none r = Rest.gone
  tail-Rest queue (some _) (left n) = rw (tail-drop n queue) (Rest.left (suc n))

module _ {F S : Type 0} where
  -- A channel that was opened and has no sender, and what is left of its queue.
  pub record IsOrphan (queue : List (DriverOutbound F)) (channel : ℕ) (s : ApiState F S)
      : Type 0 where
    pub opened : channel < s.next_channel
    pub senderless : has_sender s channel ≡ false
    pub rest : Rest queue (HashMap.get channel s.channels)

  deliver-channels :
      (s : ApiState F S) (driver_id channel : ℕ) (message : DriverOutbound F)
      → has_sender s channel ≡ false
      → HashMap.get channel (deliver s driver_id message).channels ≡ HashMap.get channel s.channels
  unfolding deliver
  deliver-channels s driver_id channel message p =
      elim (Option-cases (HashMap.get driver_id s.sessions)) [
        | inl q ↦ rw (q, deliver) refl
        | inr (c, q) ↦
            rw (q, deliver)
              (ground (
                arith,
                HashMap.get-adjust channel c
                    (λ (queue : List (DriverOutbound F)). queue ++ (message ∷ [])) s.channels,
                HashMap.any-values-get (λ x. nat_beq x channel) driver_id c s.sessions p q,
              ))
      ]

  register-IsOrphan :
      (queue : List (DriverOutbound F)) (channel : ℕ) (s : ApiState F S) (driver_id : ℕ)
      → IsOrphan queue channel s
      → IsOrphan queue channel (register s driver_id)
  unfolding register
  register-IsOrphan queue channel s driver_id o =
      let n = s.next_channel in
      let other : nat_beq n channel ≡ false = ground (arith, o.opened) in
      let kept : HashMap.get channel (HashMap.insert n [] s.channels)
          ≡ HashMap.get channel s.channels =
        ground (
          arith,
          other,
          HashMap.get-insert {V = List (DriverOutbound F)} channel n [] s.channels,
        ) in
      record {
        opened = ground (arith, o.opened);
        senderless =
            HashMap.any-values-insert (λ x. nat_beq x channel) driver_id n s.sessions other
              o.senderless;
        rest = rw kept o.rest;
      }

  unregister-IsOrphan :
      (queue : List (DriverOutbound F)) (channel : ℕ) (s : ApiState F S) (driver_id c : ℕ)
      → IsOrphan queue channel s
      → IsOrphan queue channel (unregister s driver_id c)
  unfolding unregister
  unregister-IsOrphan queue channel s driver_id c o = record {
    opened = o.opened;
    senderless =
        HashMap.any-values-remove (λ x. nat_beq x channel) driver_id s.sessions o.senderless;
    rest =
        rw (HashMap.get-remove channel c s.channels)
          (elim (Bool-cases (nat_beq channel c)) [ inl t ↦ rw t Rest.gone | inr t ↦ rw t o.rest ]);
  }

  received-IsOrphan :
      (queue : List (DriverOutbound F)) (channel : ℕ) (s : ApiState F S) (c : ℕ)
      → IsOrphan queue channel s
      → IsOrphan queue channel (after_recv s c)
  received-IsOrphan queue channel s c o = record {
    opened = o.opened;
    senderless = o.senderless;
    rest =
        rw (HashMap.get-adjust channel c tail s.channels) (elim (Bool-cases (nat_beq channel c)) [
          | inl t ↦ rw t (tail-Rest queue (HashMap.get channel s.channels) o.rest)
          | inr t ↦ rw t o.rest
        ]);
  }

  Activity-IsOrphan :
      (queue : List (DriverOutbound F)) (channel : ℕ) {s s' : ApiState F S}
      → Activity s s'
      → IsOrphan queue channel s
      → IsOrphan queue channel s'
  Activity-IsOrphan queue channel (connects s driver_id) o =
      register-IsOrphan queue channel s driver_id o
  Activity-IsOrphan queue channel (leaves s driver_id c) o =
      unregister-IsOrphan queue channel s driver_id c o
  Activity-IsOrphan queue channel (delivers s driver_id message) o = record {
    opened = rw (deliver-next_channel s driver_id message) o.opened;
    senderless = rw (deliver-sessions s driver_id message) o.senderless;
    rest = rw (deliver-channels s driver_id channel message o.senderless) o.rest;
  }
  Activity-IsOrphan queue channel (receives s c) o = received-IsOrphan queue channel s c o
  Activity-IsOrphan queue channel (elsewhere s s' p q r) o = record {
    opened = rw r o.opened;
    senderless = rw p o.senderless;
    rest = rw q o.rest;
  }

  pub Later-IsOrphan :
      (queue : List (DriverOutbound F)) (channel : ℕ) {s s' : ApiState F S}
      → Later s s'
      → IsOrphan queue channel s
      → IsOrphan queue channel s'
  Later-IsOrphan queue channel here o = o
  Later-IsOrphan queue channel (next l a) o =
      Activity-IsOrphan queue channel a (Later-IsOrphan queue channel l o)

  -- The channel never waits, and shows what is left of the queue.
  abbrev pub IsEnding : List (DriverOutbound F) → ApiState F S → ℕ → Type 0
  IsEnding queue s channel =
      (recv s channel ≢ Received.waiting) × Rest queue (HashMap.get channel s.channels)

  pub IsOrphan-IsEnding :
      (queue : List (DriverOutbound F)) (channel : ℕ) (s : ApiState F S)
      → IsOrphan queue channel s
      → IsEnding queue s channel
  unfolding recv
  IsOrphan-IsEnding queue channel s o = (
    elim (Option-cases (HashMap.get channel s.channels)) [
      | inl p ↦ rw (p, recv) (ground arith)
      | inr ([], p) ↦ rw (p, recv) (rw (o.senderless) (ground arith))
      | inr (m ∷ ms, p) ↦ rw (p, recv) (ground arith)
    ],
    o.rest,
  )
