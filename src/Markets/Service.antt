-- ===== src/Markets/Service.antt =====
-- `MarketRegistryService` of `markets/service.py`.
pub mod Outcome
pub mod Promises
pub mod Settled
use polymarket_market_discov.Base.{
  ℕ, ◌+◌, String, Bool, true, false, not, ◌&&◌, ◌||◌, Option, none, some, List, [], ◌∷◌, ◌++◌,
  length, ltb, if◌then◌else◌,
}
use polymarket_market_discov.Base.Batches.{batches}
use polymarket_market_discov.Base.Result.{
  Exception, Result, ok, raise, str, value_error, raise_if, Exec, ◌>>=◌, ◌>>◌,
}
use polymarket_market_discov.Base.Runtime.{Runtime}
use polymarket_market_discov.Base.Text.{f_string}
use polymarket_market_discov.Core.Lock.{Lock, behind_lock, with_pipeline_lock}
use polymarket_market_discov.Core.Models.{Database}
use polymarket_market_discov.Core.Recovery.{recover_orphaned_runs}
use polymarket_market_discov.Core.Status.{completed, skipped}
use polymarket_market_discov.Core.Time.{Timestamp, Datetime, ensure_utc}
use polymarket_market_discov.Markets.Domain.{PolymarketMarketPayload, MarketRegistrySyncResult}
use polymarket_market_discov.Markets.Retrieval.{Gamma, is_empty, retrieve_market_batch}
use polymarket_market_discov.Markets.Repository.{
  MarketSyncInput, get_market_sync_input, create_market_sync_run, complete_market_sync_run,
  fail_market_sync_run,
}

-- `MarketRegistryService(batch_size=...)`: the batch size that is kept.
unfoldable pub market_registry_service : ℕ → Result ℕ
market_registry_service batch_size = do
  raise_if (ltb batch_size 1 || ltb 100 batch_size)
      (value_error "Gamma market batch size must be between 1 and 100")
  ok batch_size

unfoldable pub build_market_run_id : Runtime → Timestamp → String
build_market_run_id py generated_at = f_string (py.strftime generated_at ∷ "-markets" ∷ [])

abbrev pub skipped_sync : Timestamp → String → MarketRegistrySyncResult
skipped_sync started_at reason = record {
  run_id = none;
  status = skipped;
  input_discovery_run_ids = [];
  checked_market_count = 0;
  created_market_count = 0;
  updated_market_count = 0;
  generated_at = started_at;
  skip_reason = some reason;
}

abbrev pub completed_sync :
    Timestamp → String → MarketSyncInput → ℕ × (ℕ × ℕ) → MarketRegistrySyncResult
completed_sync started_at run_id input (checked, (created, updated)) = record {
  run_id = some run_id;
  status = completed;
  input_discovery_run_ids = input.discovery_run_ids;
  checked_market_count = checked;
  created_market_count = created;
  updated_market_count = updated;
  generated_at = started_at;
  skip_reason = none;
}

abbrev pub with_count : ℕ → Result (ℕ × ℕ) × Database → Result (ℕ × (ℕ × ℕ)) × Database
with_count checked (ok counts, db) = (ok (checked, counts), db)
with_count checked (raise exc, db) = (raise exc, db)

abbrev pub nothing_to_sync : MarketSyncInput → Bool
nothing_to_sync input = is_empty input.discovery_run_ids && is_empty input.condition_ids

module _ (py : Runtime) (gamma : Gamma) where
  -- The `for` loop over the batches, and its `payloads.extend`.
  unfoldable pub retrieve_batches : List (List String) → Result (List PolymarketMarketPayload)
  retrieve_batches [] = ok []
  retrieve_batches (condition_batch ∷ rest) = do
    payloads ← retrieve_market_batch py gamma condition_batch
    others ← retrieve_batches rest
    ok (payloads ++ others)

-- `checked_at` and `finished_at` are the readings of the clock behind the retrieval.
module _ (py : Runtime) (gamma : Gamma) (batch_size : ℕ)
    (started_at checked_at finished_at : Timestamp) where
  -- The block under `try`.
  abbrev pub store :
      String → MarketSyncInput → Result (List PolymarketMarketPayload) → Exec Database (ℕ × (ℕ × ℕ))
  store run_id input (raise exc) db = (raise exc, db)
  store run_id input (ok payloads) db =
      with_count (length payloads)
        (complete_market_sync_run run_id payloads input.discovery_run_ids checked_at db)

  unfoldable pub sync_input : String → MarketSyncInput → Exec Database (ℕ × (ℕ × ℕ))
  sync_input run_id input db =
      store run_id input (retrieve_batches py gamma (batches input.condition_ids batch_size)) db

  -- The block under `except`, which raises again, and the result behind it.
  abbrev pub finish :
      String
      → MarketSyncInput
      → Result (ℕ × (ℕ × ℕ)) × Database
      → Result MarketRegistrySyncResult × Database
  finish run_id input (ok counts, db) = (ok (completed_sync started_at run_id input counts), db)
  finish run_id input (raise exc, db) =
      (raise exc, fail_market_sync_run run_id finished_at (str exc) db)

  abbrev pub after_create :
      String
      → MarketSyncInput
      → Result (Unit {0}) × Database
      → Result MarketRegistrySyncResult × Database
  after_create run_id input (raise exc, db) = (raise exc, db)
  after_create run_id input (ok u, db) = finish run_id input (sync_input run_id input db)

  unfoldable pub sync_pending : MarketSyncInput → Exec Database MarketRegistrySyncResult
  sync_pending input db =
      let run_id = build_market_run_id py started_at in
      after_create run_id input
        (create_market_sync_run run_id started_at input.discovery_run_ids db)

  unfoldable pub run_markets_locked : Exec Database MarketRegistrySyncResult
  run_markets_locked db =
      let input = get_market_sync_input db in
      if nothing_to_sync input
      then (ok (skipped_sync started_at "no_markets_to_sync"), db)
      else sync_pending input db

-- `run(now=...)`, by the session `me`.
module _ (py : Runtime) (gamma : Gamma) (batch_size : ℕ) (checked_at finished_at : Timestamp)
    (me : ℕ) where
  abbrev pub markets_body : Timestamp → Bool → Exec Database MarketRegistrySyncResult
  markets_body started_at false db = (ok (skipped_sync started_at "pipeline_locked"), db)
  markets_body started_at true db =
      run_markets_locked py gamma batch_size started_at checked_at finished_at
        (recover_orphaned_runs started_at db)

  unfoldable pub run_markets : Datetime → Exec (Lock × Database) MarketRegistrySyncResult
  run_markets now =
      with_pipeline_lock me (λ acquired. behind_lock (markets_body (ensure_utc now) acquired))
