-- ===== src/Api/Connections/Takeover.antt =====
-- rust/crates/spatiad-api/src/lib.rs: a driver that connects again while its old session still runs.
use spatiad.Base.{ℕ, ◌≡◌, refl, false, some, List, [], nat_beq, nat_eq, arith, leb}
use spatiad.Base.HashMap
use spatiad.Ws.{DriverOutbound}
use spatiad.Api.State.{ApiState}
use spatiad.Api.Connections.{register, unregister}
use spatiad.Api.Connections.Apart.{replaced, removed}
use spatiad.Api.Connections.Activity.{Later, IsNumbered, Later-IsNumbered, register-IsNumbered}
use spatiad.Api.Connections.Orphans.{Rest, IsOrphan, Later-IsOrphan, IsEnding, IsOrphan-IsEnding}

module _ {F S : Type 0} where
  replaced-IsOrphan :
      (queue : List (DriverOutbound F)) (channel : ℕ) (s : ApiState F S) (driver_id : ℕ)
      → IsNumbered s
      → HashMap.get driver_id s.sessions ≡ some channel
      → HashMap.get channel s.channels ≡ some queue
      → IsOrphan queue channel (register s driver_id)
  unfolding register
  replaced-IsOrphan queue channel s driver_id v p q =
      let n = s.next_channel in
      let older : leb n channel ≡ false =
        HashMap.any-values-get (λ c. leb n c) driver_id channel s.sessions v.below p in
      let other : nat_beq n channel ≡ false = ground (arith, older) in
      let kept : HashMap.get channel (HashMap.insert n [] s.channels) ≡ some queue = ground (
        arith,
        other,
        q,
        HashMap.get-insert {V = List (DriverOutbound F)} channel n [] s.channels,
      ) in
      record {
        opened = ground (arith, older);
        senderless = replaced driver_id channel n s.sessions v.apart p other;
        rest = rw kept (Rest.left 0);
      }

  removed-IsOrphan :
      (queue : List (DriverOutbound F)) (channel old : ℕ) (s : ApiState F S) (driver_id : ℕ)
      → IsNumbered s
      → HashMap.get driver_id s.sessions ≡ some channel
      → HashMap.get channel s.channels ≡ some queue
      → nat_beq channel old ≡ false
      → IsOrphan queue channel (unregister s driver_id old)
  unfolding unregister
  removed-IsOrphan queue channel old s driver_id v p q other =
      let older : leb s.next_channel channel ≡ false =
        HashMap.any-values-get (λ c. leb s.next_channel c) driver_id channel s.sessions v.below p in
      let kept : HashMap.get channel (HashMap.remove old s.channels) ≡ some queue =
        ground (arith, other, q, HashMap.get-remove channel old s.channels) in
      record {
        opened = ground (arith, older);
        senderless = removed driver_id channel s.sessions v.apart p;
        rest = rw kept (Rest.left 0);
      }

  start-IsNumbered : (s : ApiState F S) → s.sessions ≡ [] → IsNumbered s
  start-IsNumbered s p = record { below = rw p refl; apart = rw p tt }

  -- A driver whose session runs over the channel `old` connects again, in a server that started
  -- with no session; any number of drivers connect, leave, get and receive messages before, between
  -- and after. As long as the driver has a session after that, the old session finds what is left of
  -- the queue that its channel had, and else its channel closed: it never waits again. Once the old
  -- session has cleaned up, the session that the driver had then, over the channel `current`, does
  -- not wait again either: it finds what is left of its own queue, and else its channel closed.
  pub reconnected-IsEnding :
      (start s s1 s2 : ApiState F S) (driver_id old current : ℕ)
      (old_queue queue : List (DriverOutbound F))
      → start.sessions ≡ []
      → Later start s
      → HashMap.get driver_id s.sessions ≡ some old
      → HashMap.get old s.channels ≡ some old_queue
      → Later (register s driver_id) s1
      → HashMap.get driver_id s1.sessions ≡ some current
      → HashMap.get current s1.channels ≡ some queue
      → Later (unregister s1 driver_id old) s2
      → IsEnding old_queue s1 old × IsEnding queue s2 current
  reconnected-IsEnding start s s1 s2 driver_id old current old_queue queue fresh before p q between
        p1 q1 after =
      let v : IsNumbered s = Later-IsNumbered before (start-IsNumbered start fresh) in
      let v1 : IsNumbered s1 = Later-IsNumbered between (register-IsNumbered s driver_id v) in
      let o : IsOrphan old_queue old s1 =
        Later-IsOrphan old_queue old between (replaced-IsOrphan old_queue old s driver_id v p q) in
      let other : nat_beq current old ≡ false =
        HashMap.any-values-get (λ x. nat_beq x old) driver_id current s1.sessions o.senderless p1 in
      (
        IsOrphan-IsEnding old_queue old s1 o,
        IsOrphan-IsEnding queue current s2 (
            Later-IsOrphan queue current after
              (removed-IsOrphan queue current old s1 driver_id v1 p1 q1 other)),
      )
