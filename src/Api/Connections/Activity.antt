-- ===== src/Api/Connections/Activity.antt =====
-- rust/crates/spatiad-api/src/lib.rs: what happens to the table of the sessions and to the channels,
-- by any number of tasks.
use spatiad.Base.{
  ℕ, ◌+◌, ◌≡◌, refl, true, false, List, [], ◌∷◌, any, leb, nat_beq, nat_eq, Option-cases, inl, inr,
  arith,
}
use spatiad.Base.HashMap
use spatiad.Ws.{DriverOutbound}
use spatiad.Api.State.{ApiState}
use spatiad.Api.Sessions.{deliver}
use spatiad.Api.Connections.{after_recv, register, unregister}
use spatiad.Api.Connections.Apart.{IsApart, insert-IsApart, remove-IsApart}

pub older :
    (n c : ℕ) (sessions : List ℕ)
    → leb n c ≡ true
    → any (λ x. leb n x) sessions ≡ false
    → any (λ x. nat_beq x c) sessions ≡ false
older n c [] p q = refl
older n c (x ∷ xs) p q = ground (arith, p, q, older n c xs)

grown :
    (n : ℕ) (sessions : List ℕ)
    → any (λ x. leb n x) sessions ≡ false
    → any (λ x. leb (n + 1) x) sessions ≡ false
grown n [] q = refl
grown n (x ∷ xs) q = ground (arith, q, grown n xs)

module _ {F S : Type 0} where
  -- One use of the table or of a channel, or a step that leaves both.
  pub data Activity : ApiState F S → ApiState F S → Type 0 where
    connects : (s : ApiState F S) (driver_id : ℕ) → Activity s (register s driver_id)
    leaves :
        (s : ApiState F S) (driver_id channel : ℕ) → Activity s (unregister s driver_id channel)
    delivers :
        (s : ApiState F S) (driver_id : ℕ) (message : DriverOutbound F)
        → Activity s (deliver s driver_id message)
    receives : (s : ApiState F S) (channel : ℕ) → Activity s (after_recv s channel)
    elsewhere :
        (s s' : ApiState F S)
        → s'.sessions ≡ s.sessions
        → s'.channels ≡ s.channels
        → s'.next_channel ≡ s.next_channel
        → Activity s s'

  pub data Later (start : ApiState F S) : ApiState F S → Type 0 where
    here : Later start start
    next : {s s' : ApiState F S} → Later start s → Activity s s' → Later start s'

  -- The sessions have channels below the next one, each its own.
  pub record IsNumbered (s : ApiState F S) : Type 0 where
    pub below : any (λ c. leb s.next_channel c) (HashMap.values s.sessions) ≡ false
    pub apart : IsApart s.sessions

  pub deliver-sessions :
      (s : ApiState F S) (driver_id : ℕ) (message : DriverOutbound F)
      → (deliver s driver_id message).sessions ≡ s.sessions
  unfolding deliver
  deliver-sessions s driver_id message = elim (Option-cases (HashMap.get driver_id s.sessions)) [
    | inl p ↦ rw (p, deliver) refl
    | inr (c, p) ↦ rw (p, deliver) refl
  ]

  pub deliver-next_channel :
      (s : ApiState F S) (driver_id : ℕ) (message : DriverOutbound F)
      → (deliver s driver_id message).next_channel ≡ s.next_channel
  unfolding deliver
  deliver-next_channel s driver_id message =
      elim (Option-cases (HashMap.get driver_id s.sessions)) [
        | inl p ↦ rw (p, deliver) refl
        | inr (c, p) ↦ rw (p, deliver) refl
      ]

  pub register-IsNumbered :
      (s : ApiState F S) (driver_id : ℕ) → IsNumbered s → IsNumbered (register s driver_id)
  unfolding register
  register-IsNumbered s driver_id v = record {
    below =
        HashMap.any-values-insert (λ c. leb (s.next_channel + 1) c) driver_id s.next_channel
          s.sessions (ground arith) (grown s.next_channel (HashMap.values s.sessions) v.below);
    apart =
        insert-IsApart driver_id s.next_channel s.sessions
          (older s.next_channel s.next_channel (HashMap.values s.sessions) (ground arith) v.below)
          v.apart;
  }

  Activity-IsNumbered : {s s' : ApiState F S} → Activity s s' → IsNumbered s → IsNumbered s'
  unfolding unregister
  Activity-IsNumbered (connects s driver_id) v = register-IsNumbered s driver_id v
  Activity-IsNumbered (leaves s driver_id channel) v = record {
    below = HashMap.any-values-remove (λ c. leb s.next_channel c) driver_id s.sessions v.below;
    apart = remove-IsApart driver_id s.sessions v.apart;
  }
  Activity-IsNumbered (delivers s driver_id message) v = record {
    below =
        rw (deliver-next_channel s driver_id message, deliver-sessions s driver_id message) v.below;
    apart = rw (deliver-sessions s driver_id message) v.apart;
  }
  Activity-IsNumbered (receives s channel) v = record { below = v.below; apart = v.apart }
  Activity-IsNumbered (elsewhere s s' p q r) v = record {
    below = rw (p, r) v.below;
    apart = rw p v.apart;
  }

  pub Later-IsNumbered : {s s' : ApiState F S} → Later s s' → IsNumbered s → IsNumbered s'
  Later-IsNumbered here v = v
  Later-IsNumbered (next l a) v = Activity-IsNumbered a (Later-IsNumbered l v)
