-- ===== src/Core/Lock/Sessions.antt =====
-- Many processes at the lock of `core/db/lock.py`: each enters and leaves its `with` block, in any
-- order of the steps.
use polymarket_market_discov.Base.{ℕ, ◌≡◌, Bool, none, eqb, if◌then◌else◌}
use polymarket_market_discov.Core.Lock.{Lock, acquires, take_lock, give_back}

-- Where a session stands: outside of its block, or inside with what the block was told.
pub data Place : Type 0 where
  outside : Place
  inside : (acquired : Bool) → Place

pub record Server : Type 0 where
  pub lock : Lock
  pub place : ℕ → Place

abbrev pub put : ℕ → Place → (ℕ → Place) → ℕ → Place
put me now place session = if eqb me session then now else place session

unfoldable pub enter : ℕ → Server → Server
unfolding take_lock
enter me server = record {
  lock = take_lock me server.lock;
  place = put me (inside (acquires me server.lock)) server.place;
}

unfoldable pub leave : ℕ → Bool → Server → Server
unfolding give_back
leave me acquired server = record {
  lock = give_back acquired server.lock;
  place = put me outside server.place;
}

-- One step of one session.
pub data Step (server : Server) : Server → Type 0 where
  enters : (me : ℕ) → server.place me ≡ outside → Step server (enter me server)
  leaves :
      (me : ℕ) (acquired : Bool)
      → server.place me ≡ inside acquired
      → Step server (leave me acquired server)

abbrev pub all_outside : Lock → Server
all_outside lock = record { lock = lock; place = λ session. outside }

-- The states that are reached from a lock that no session holds.
pub data Reach (postgresql : Bool) : Server → Type 0 where
  start : Reach postgresql (all_outside (record { postgresql = postgresql; owner = none }))
  later : {s t : Server} → Reach postgresql s → Step s t → Reach postgresql t
