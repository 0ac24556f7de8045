-- ===== src/Discovery/Service/Completed.antt =====
-- What a discovery that returns has stored: `_run_locked` in `discovery/service.py` and
-- `complete_discovery_run` in `discovery/repository.py`.
use polymarket_market_discov.Base.{String, ◌≡◌, List, ◌++◌}
use polymarket_market_discov.Base.Result.{Result}
use polymarket_market_discov.Base.Runtime.{Runtime}
use polymarket_market_discov.Core.Models.{Database}
use polymarket_market_discov.Core.Time.{Timestamp}
use polymarket_market_discov.Discovery.Domain.{StrategyDiscoveryResult, DiscoveryRunResult}
use polymarket_market_discov.Discovery.Repository.{observation_rows}
use polymarket_market_discov.Discovery.Service.{
  Strategy, build_discovery_run_id, completed_discovery, run_discovery_locked,
}
use polymarket_market_discov.Discovery.Service.Returned.{AllReturned}

module _ (py : Runtime) (strategies : List Strategy) (started_at finished_at : Timestamp) where
  abbrev run_id : String
  run_id = build_discovery_run_id py started_at

  abbrev locked : Database → Result DiscoveryRunResult × Database
  locked db = run_discovery_locked py strategies started_at finished_at db

  -- What has become of the database `start` and the result, where the run returns.
  pub record IsStored (start : Database) (result : DiscoveryRunResult) (after : Database)
      : Type 0 where
    pub results : List StrategyDiscoveryResult
    pub all_returned : AllReturned started_at strategies results
    pub counted : result ≡ completed_discovery started_at run_id results
    pub stored : after ≡ record start {
      discovery_runs = after.discovery_runs;
      observations = start.observations ++ observation_rows run_id results;
    }
