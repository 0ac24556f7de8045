-- ===== src/Core/Lock/Exclusion.antt =====
-- Mutual exclusion: what holds in every state that the sessions reach.
use polymarket_market_discov.Base.{ℕ, ◌≡◌, refl, Bool, true, some, arith}
use polymarket_market_discov.Core.Lock.Sessions.{
  outside, inside, Server, enter, leave, enters, leaves, Reach, start, later,
}

-- The lock's owner is the session that is inside with the lock, and the only one.
record IsOwned (server : Server) : Type 0 where
  postgresql : server.lock.postgresql ≡ true
  owns : (i : ℕ) → server.place i ≡ inside true → server.lock.owner ≡ some i
  owned : (i : ℕ) → server.lock.owner ≡ some i → server.place i ≡ inside true

enter-IsOwned :
    (server : Server) (me : ℕ)
    → server.place me ≡ outside
    → IsOwned server
    → IsOwned (enter me server)
unfolding enter
enter-IsOwned server me out inv = record {
  postgresql = ground (arith, inv.postgresql);
  owns = λ i here. ground (arith, inv.postgresql, inv.owns i);
  owned = λ i has. ground (arith, inv.postgresql, inv.owned i);
}

leave-IsOwned :
    (server : Server) (me : ℕ) (acquired : Bool)
    → server.place me ≡ inside acquired
    → IsOwned server
    → IsOwned (leave me acquired server)
unfolding leave
leave-IsOwned server me acquired here inv = record {
  postgresql = ground (arith, inv.postgresql);
  owns = λ i there. ground (arith, inv.postgresql, inv.owns i, inv.owns me);
  owned = λ i has. ground (arith, inv.postgresql, inv.owned i, inv.owns i, inv.owns me);
}

Reach-IsOwned : {server : Server} → Reach true server → IsOwned server
Reach-IsOwned start = record { postgresql = refl; owns = λ i h. cc; owned = λ i h. cc }
Reach-IsOwned (later r (enters me out)) = enter-IsOwned _ me out (Reach-IsOwned r)
Reach-IsOwned (later r (leaves me acquired here)) =
    leave-IsOwned _ me acquired here (Reach-IsOwned r)

-- On PostgreSQL, however the steps of the sessions interleave, two sessions are never inside of their
-- blocks with the lock together.
pub mutual_exclusion :
    (server : Server) (i j : ℕ)
    → Reach true server
    → server.place i ≡ inside true
    → server.place j ≡ inside true
    → i ≡ j
mutual_exclusion server i j reached first second =
    let owned = Reach-IsOwned reached in
    let a = owned.owns i first in let b = owned.owns j second in cc
