-- ===== src/Core/Lock.antt =====
-- `core/db/lock.py`: the advisory lock that every service holds for its whole run.
pub mod Sessions
pub mod Exclusion
use polymarket_market_discov.Base.{
  ℕ, ◌≡◌, Bool, true, false, Option, none, some, ap, refl, ◌&&◌, if◌then◌else◌,
}
use polymarket_market_discov.Base.Result.{Result, Exec}

-- The lock on the server: the session that holds it, and whether the server is PostgreSQL.
pub record Lock : Type 0 where
  pub postgresql : Bool
  pub owner : Option ℕ

-- `pg_try_advisory_lock`, by a session that holds no lock yet.
abbrev pub try_lock : ℕ → Option ℕ → Bool
try_lock me none = true
try_lock me (some other) = false

-- What the lock's holder is told: a server that is not PostgreSQL has no such lock to wait for.
abbrev pub acquires : ℕ → Lock → Bool
acquires me lock = if lock.postgresql then try_lock me lock.owner else true

-- `pg_try_advisory_lock` of the session `me`, where the server is PostgreSQL.
unfoldable pub take_lock : ℕ → Lock → Lock
take_lock me lock =
    if lock.postgresql && try_lock me lock.owner then record lock { owner = some me } else lock

-- The `finally` block: `pg_advisory_unlock` by the holder.
unfoldable pub give_back : Bool → Lock → Lock
give_back acquired lock = if lock.postgresql && acquired then record lock { owner = none } else lock

-- A body that works on the state behind the lock, and leaves the lock alone.
abbrev pub behind_lock {ℓ κ} : {S : Type ℓ} {A : Type κ} → Exec S A → Exec (Lock × S) A
behind_lock body (lock, s) = let (result, s') = body s in (result, (lock, s'))

-- The owner while the body runs: the session itself, if the server has the lock and it was free.
abbrev pub holder : Bool → ℕ → Option ℕ → Option ℕ
holder false me owner = owner
holder true me none = some me
holder true me (some other) = some other

-- `with pipeline_lock() as acquired: body(acquired)`. The lock is taken before the body, and given
-- back when the body returns and when it raises.
module _ {ℓ κ} {S : Type ℓ} {A : Type κ} where
  abbrev released : Bool → Result A × (Lock × S) → Result A × (Lock × S)
  released acquired (result, (lock, s)) = (result, (give_back acquired lock, s))

  unfoldable pub with_pipeline_lock : ℕ → (Bool → Exec (Lock × S) A) → Exec (Lock × S) A
  with_pipeline_lock me body (lock, s) =
      let acquired = acquires me lock in released acquired (body acquired (take_lock me lock, s))

  -- The body runs once. It is told that it holds the lock exactly where no other session does, or the
  -- server has no advisory locks, and on PostgreSQL the lock that was free is its session's while it
  -- runs. Where the body leaves the lock alone then the lock is behind the block as it was before,
  -- whether the body returns or raises, and the body's result and state are passed on.
  pub with_pipeline_lock_lem :
      (me : ℕ) (body : Bool → Exec (Lock × S) A) (lock : Lock) (s : S)
      → (let held = record lock { owner = holder lock.postgresql me lock.owner } in
          (body (acquires me lock) (held, s)).1.0 ≡ held)
      → (let held = record lock { owner = holder lock.postgresql me lock.owner } in
          with_pipeline_lock me body (lock, s) ≡ (
            (body (acquires me lock) (held, s)).0,
            (lock, (body (acquires me lock) (held, s)).1.1),
          ))
  unfolding with_pipeline_lock take_lock give_back
  with_pipeline_lock_lem me body lock s = go lock.postgresql lock.owner
    where
      go :
          (postgresql : Bool) (owner : Option ℕ)
          → (let lock : Lock = record { postgresql = postgresql; owner = owner } in
              let held = record lock { owner = holder postgresql me owner } in
              (body (acquires me lock) (held, s)).1.0 ≡ held
              → with_pipeline_lock me body (lock, s) ≡ (
                (body (acquires me lock) (held, s)).0,
                (lock, (body (acquires me lock) (held, s)).1.1),
              ))
      go false owner kept =
          let end = body true (record { postgresql = false; owner = owner }, s) in
          ap (λ (l : Lock). (end.0, (give_back true l, end.1.1))) kept
      go true none kept =
          let end = body true (record { postgresql = true; owner = some me }, s) in
          ap (λ (l : Lock). (end.0, (give_back true l, end.1.1))) kept
      go true (some other) kept =
          let end = body false (record { postgresql = true; owner = some other }, s) in
          ap (λ (l : Lock). (end.0, (give_back false l, end.1.1))) kept

  -- The same for a body that cannot touch the lock.
  pub with_pipeline_lock-behind_lock :
      (me : ℕ) (body : Bool → Exec S A) (lock : Lock) (s : S)
      → with_pipeline_lock me (λ acquired. behind_lock (body acquired)) (lock, s)
        ≡ ((body (acquires me lock) s).0, (lock, (body (acquires me lock) s).1))
  with_pipeline_lock-behind_lock me body lock s =
      with_pipeline_lock_lem me (λ acquired. behind_lock (body acquired)) lock s refl
