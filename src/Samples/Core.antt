-- ===== src/Samples/Core.antt =====
-- Tests of the lock, the recovery and the batches.
use polymarket_market_discov.Base.{
  ℕ, ◌+◌, String, ◌≡◌, Bool, true, false, none, some, refl, List, [], ◌∷◌, All, arith,
}
use polymarket_market_discov.Base.Batches.{batches, concat, IsBatch, batches_partition}
use polymarket_market_discov.Base.Result.{ok, raise, value_error, Exec}
use polymarket_market_discov.Core.Lock.{Lock, with_pipeline_lock, with_pipeline_lock_lem}
use polymarket_market_discov.Core.Recovery.{recover_orphaned_runs}
use polymarket_market_discov.Core.Recovery.Settled.{
  IsSettled, recover_orphaned_runs-IsSettled, recover-recover,
}
use polymarket_market_discov.Samples.{discovered}

abbrev free_lock : Lock
free_lock = record { postgresql = true; owner = none }

-- A body that writes, and raises where it holds the lock.
abbrev sample_body : Bool → Exec (Lock × ℕ) ℕ
sample_body true (lock, s) = (raise (value_error "lost"), (lock, s + 1))
sample_body false (lock, s) = (ok s, (lock, s))

abbrev held_lock : Lock
held_lock = record { postgresql = true; owner = some 7 }

with_pipeline_lock_lem_example :
    with_pipeline_lock 7 sample_body (free_lock, 3)
    ≡ ((sample_body true (held_lock, 3)).0, (free_lock, (sample_body true (held_lock, 3)).1.1))
with_pipeline_lock_lem_example = with_pipeline_lock_lem 7 sample_body free_lock 3 refl

recover_orphaned_runs-IsSettled_example : IsSettled (recover_orphaned_runs 9 discovered)
recover_orphaned_runs-IsSettled_example = recover_orphaned_runs-IsSettled 9 discovered

recover-recover_example :
    recover_orphaned_runs 10 (recover_orphaned_runs 9 discovered)
    ≡ recover_orphaned_runs 9 discovered
recover-recover_example = recover-recover 9 10 discovered

abbrev sample_items : List String
sample_items = "a" ∷ "b" ∷ "c" ∷ []

batches_partition_example :
    (concat (batches sample_items 2) ≡ sample_items) × All (IsBatch 2) (batches sample_items 2)
batches_partition_example = batches_partition sample_items 2 (omega arith)
