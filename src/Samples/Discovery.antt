-- ===== src/Samples/Discovery.antt =====
-- Tests of the discovery service.
use polymarket_market_discov.Base.{◌≡◌, refl, true, none, some, List, [], ◌∷◌}
use polymarket_market_discov.Base.Result.{ok, raise, api_error}
use polymarket_market_discov.Core.Recovery.Settled.{IsSettled}
use polymarket_market_discov.Core.Session.{transaction}
use polymarket_market_discov.Core.Time.{east}
use polymarket_market_discov.Discovery.Repository.{
  create_discovery_run, get_run, change_run, begin_strategy, start_strategy, end_strategy,
  complete_strategy, fail_discovery, fail_discovery_run, change_last, finish_strategy_log_entry,
}
use polymarket_market_discov.Discovery.Service.{
  Strategy, build_discovery_run_id, checked_result, run_strategy, run_strategies,
  run_discovery_locked, run_discovery,
}
use polymarket_market_discov.Core.Status.{completed}
use polymarket_market_discov.Discovery.Domain.{DiscoveryRunResult}
use polymarket_market_discov.Discovery.Service.Settled.{
  run_discovery_locked-raise, run_discovery-IsSettled,
}
use polymarket_market_discov.Samples.{py, discovered}

-- A strategy that finds a market, and one whose API is down.
abbrev finds : Strategy
finds = record {
  name = "finds";
  version = "v1";
  discover = λ t. ok (record {
    strategy = "finds";
    strategy_version = "v1";
    observations =
        record {
          condition_id = "c2";
          observed_at = t;
          evidence_json = record { schema_version = 1; items = [] };
        }
        ∷ [];
    generated_at = t;
  });
  begun_at = 6;
  ended_at = 7;
}

abbrev fails : Strategy
fails = record {
  name = "fails";
  version = "v1";
  discover = λ t. raise (api_error "down");
  begun_at = 8;
  ended_at = 9;
}

abbrev pub two_strategies : List Strategy
two_strategies = finds ∷ fails ∷ []

discovery_raises :
    (run_discovery_locked py two_strategies 5 10 discovered).0 ≡ raise (api_error "down")
unfolding run_discovery_locked build_discovery_run_id create_discovery_run transaction
    run_strategies run_strategy start_strategy change_run get_run begin_strategy checked_result
    complete_strategy end_strategy fail_discovery_run fail_discovery finish_strategy_log_entry
    change_last
discovery_raises = refl

run_discovery_locked-raise_example :
    (run_discovery_locked py two_strategies 5 10 discovered).1 ≡ record discovered {
      discovery_runs = (run_discovery_locked py two_strategies 5 10 discovered).1.discovery_runs;
    }
run_discovery_locked-raise_example =
    run_discovery_locked-raise py two_strategies 5 10 discovered (api_error "down") refl
      discovery_raises

run_discovery-IsSettled_example :
    IsSettled
      (run_discovery py two_strategies 10 3
        (record { wall = 5; tzinfo = east 0 })
        (record { postgresql = true; owner = none }, discovered)).1.1
run_discovery-IsSettled_example =
    run_discovery-IsSettled py two_strategies 10 3 (record { wall = 5; tzinfo = east 0 })
      (record { postgresql = true; owner = none }) discovered refl

abbrev found_run : DiscoveryRunResult
found_run = record {
  run_id = some "T-discovery";
  status = completed;
  strategies = "finds" ∷ [];
  observation_count = 1;
  discovered_market_count = 1;
  generated_at = 5;
  skip_reason = none;
}
