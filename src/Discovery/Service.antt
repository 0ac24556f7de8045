-- ===== src/Discovery/Service.antt =====
-- `MarketDiscoveryService` of `discovery/service.py`.
pub mod Loop
pub mod Settled
pub mod Returned
pub mod Completed
use polymarket_market_discov.Base.{
  ℕ, String, Bool, true, false, not, Option, none, some, List, [], ◌∷◌, ◌++◌, map, length, ◌==◌,
}
use polymarket_market_discov.Base.Dict.{distinct}
use polymarket_market_discov.Base.Result.{
  Exception, Result, ok, raise, str, value_error, raise_if, Exec, ◌>>=◌, ◌>>◌,
}
use polymarket_market_discov.Base.Runtime.{Runtime}
use polymarket_market_discov.Base.Text.{f_string}
use polymarket_market_discov.Core.Lock.{Lock, behind_lock, with_pipeline_lock}
use polymarket_market_discov.Core.Models.{Database}
use polymarket_market_discov.Core.Recovery.{recover_orphaned_runs}
use polymarket_market_discov.Core.Status.{completed, skipped}
use polymarket_market_discov.Core.Time.{Timestamp, Datetime, ensure_utc}
use polymarket_market_discov.Discovery.Domain.{StrategyDiscoveryResult, DiscoveryRunResult}
use polymarket_market_discov.Discovery.Repository.{
  create_discovery_run, start_strategy, complete_strategy, complete_discovery_run,
  fail_discovery_run, observation_rows, observed_conditions,
}

-- `BaseMarketDiscoveryStrategy`, with the client in it, and the readings of the clock before and
-- behind its discovery.
pub record Strategy : Type 0 where
  pub name : String
  pub version : String
  pub discover : Timestamp → Result StrategyDiscoveryResult
  pub begun_at : Timestamp
  pub ended_at : Timestamp

unfoldable pub build_discovery_run_id : Runtime → Timestamp → String
build_discovery_run_id py generated_at = f_string (py.strftime generated_at ∷ "-discovery" ∷ [])

-- The tests of a strategy's result.
unfoldable pub checked_result :
    Strategy → Result StrategyDiscoveryResult → Result StrategyDiscoveryResult
checked_result strategy discovered = do
  result ← discovered
  raise_if (not (result.strategy == strategy.name))
      (value_error "Strategy result name does not match registered strategy")
  raise_if (not (result.strategy_version == strategy.version))
      (value_error "Strategy result version does not match registered strategy")
  ok result

abbrev pub with_result :
    StrategyDiscoveryResult
    → Result (Unit {0}) × Database
    → Result StrategyDiscoveryResult × Database
with_result result (ok u, db) = (ok result, db)
with_result result (raise exc, db) = (raise exc, db)

-- What the loop leaves: `current_strategy`, the results or the exception, and the database.
pub record LoopEnd : Type 0 where
  pub current_strategy : Option String
  pub results : Result (List StrategyDiscoveryResult)
  pub database : Database

module _ (run_id : String) (started_at : Timestamp) where
  abbrev pub after_discover :
      Strategy → Result StrategyDiscoveryResult → Exec Database StrategyDiscoveryResult
  after_discover strategy (raise exc) db = (raise exc, db)
  after_discover strategy (ok result) db =
      with_result result (complete_strategy run_id strategy.name strategy.ended_at db)

  abbrev pub after_start :
      Strategy → Result (Unit {0}) × Database → Result StrategyDiscoveryResult × Database
  after_start strategy (raise exc, db) = (raise exc, db)
  after_start strategy (ok u, db) =
      after_discover strategy (checked_result strategy (strategy.discover started_at)) db

  -- The body of the loop over the strategies.
  unfoldable pub run_strategy : Strategy → Exec Database StrategyDiscoveryResult
  run_strategy strategy db =
      after_start strategy
        (start_strategy run_id strategy.name strategy.version strategy.begun_at db)

  unfoldable pub run_strategies : List Strategy → List StrategyDiscoveryResult → Database → LoopEnd
  run_strategies [] results db = record {
    current_strategy = none;
    results = ok results;
    database = db;
  }
  run_strategies (strategy ∷ strategies) results db =
      let next = run_strategy strategy db in
      elim next.0 [
        | raise exc ↦ record {
          current_strategy = some strategy.name;
          results = raise exc;
          database = next.1;
        }
        | ok result ↦ run_strategies strategies (results ++ result ∷ []) next.1
      ]

abbrev pub completed_discovery :
    Timestamp → String → List StrategyDiscoveryResult → DiscoveryRunResult
completed_discovery started_at run_id results = record {
  run_id = some run_id;
  status = completed;
  strategies = map (λ result. result.strategy) results;
  observation_count = length (observation_rows run_id results);
  discovered_market_count =
      length (distinct (observed_conditions (observation_rows run_id results)));
  generated_at = started_at;
  skip_reason = none;
}

module _ (py : Runtime) (strategies : List Strategy) (started_at finished_at : Timestamp) where
  -- The block under `except`: where the failure cannot be recorded, its own exception is raised.
  abbrev pub raised :
      Exception → Result (Unit {0}) × Database → Result DiscoveryRunResult × Database
  raised exc (ok u, db) = (raise exc, db)
  raised exc (raise other, db) = (raise other, db)

  abbrev pub fail_with :
      String → Option String → Exception → Database → Result DiscoveryRunResult × Database
  fail_with run_id strategy exc db =
      raised exc (fail_discovery_run run_id strategy finished_at (str exc) db)

  abbrev pub after_complete :
      String
      → List StrategyDiscoveryResult
      → Result (Unit {0}) × Database
      → Result DiscoveryRunResult × Database
  after_complete run_id results (ok u, db) =
      (ok (completed_discovery started_at run_id results), db)
  after_complete run_id results (raise exc, db) = fail_with run_id none exc db

  abbrev pub after_loop :
      String
      → Option String
      → Result (List StrategyDiscoveryResult)
      → Database
      → Result DiscoveryRunResult × Database
  after_loop run_id strategy (raise exc) db = fail_with run_id strategy exc db
  after_loop run_id strategy (ok results) db =
      after_complete run_id results (complete_discovery_run run_id results finished_at db)

  abbrev pub after_create_discovery :
      String → Result (Unit {0}) × Database → Result DiscoveryRunResult × Database
  after_create_discovery run_id (raise exc, db) = (raise exc, db)
  after_create_discovery run_id (ok u, db) =
      let end = run_strategies run_id started_at strategies [] db in
      after_loop run_id end.current_strategy end.results end.database

  unfoldable pub run_discovery_locked : Exec Database DiscoveryRunResult
  run_discovery_locked db =
      let run_id = build_discovery_run_id py started_at in
      after_create_discovery run_id (create_discovery_run run_id started_at db)

abbrev pub skipped_discovery : Timestamp → String → DiscoveryRunResult
skipped_discovery started_at reason = record {
  run_id = none;
  status = skipped;
  strategies = [];
  observation_count = 0;
  discovered_market_count = 0;
  generated_at = started_at;
  skip_reason = some reason;
}

-- `run(now=...)`, by the session `me`.
module _ (py : Runtime) (strategies : List Strategy) (finished_at : Timestamp) (me : ℕ) where
  abbrev pub discovery_body : Timestamp → Bool → Exec Database DiscoveryRunResult
  discovery_body started_at false db = (ok (skipped_discovery started_at "pipeline_locked"), db)
  discovery_body started_at true db =
      run_discovery_locked py strategies started_at finished_at
        (recover_orphaned_runs started_at db)

  unfoldable pub run_discovery : Datetime → Exec (Lock × Database) DiscoveryRunResult
  run_discovery now =
      with_pipeline_lock me (λ acquired. behind_lock (discovery_body (ensure_utc now) acquired))
