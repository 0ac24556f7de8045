-- ===== src/Samples/Cli.antt =====
-- Tests of the command line, and of the lock under several sessions.
use polymarket_market_discov.Base.{
  ℕ, ◌*◌, String, List, true, ◌&&◌, none, some, [], ◌∷◌, ◌≡◌, refl, leb,
}
use polymarket_market_discov.Base.Result.{ok, is_ok}
use polymarket_market_discov.Cli.{
  Options, ServiceArguments, once, scheduled, all, run, schedule, World, Coordinator,
  available_strategies, build_pipeline_coordinator, build_discovery_service, schedule_arguments,
  service_arguments,
}
use polymarket_market_discov.Cli.Built.{Keeps, schedule_arguments_build}
use polymarket_market_discov.Cli.Logging.{
  Loggers, stdout_handler_name, configure_logging, log_level,
}
use polymarket_market_discov.Cli.Run.{Call, main}
use polymarket_market_discov.Cli.Run.Exit.{main_all-IsSettled}
use polymarket_market_discov.Core.Lock.{Lock}
use polymarket_market_discov.Core.Lock.Exclusion.{mutual_exclusion}
use polymarket_market_discov.Core.Lock.Sessions.{
  Reach, start, later, enters, enter, all_outside, Server,
}
use polymarket_market_discov.Core.Models.{Database, empty_database}
use polymarket_market_discov.Core.Recovery.Settled.{IsSettled}
use polymarket_market_discov.Discovery.Registry.{build_strategies}
use polymarket_market_discov.Discovery.Strategies.Whale.{whale_name, whale_strategy}
use polymarket_market_discov.Markets.Service.{market_registry_service}
use polymarket_market_discov.Base.Sort.{sorted_set}
use polymarket_market_discov.Orderbooks.Service.{orderbook_collection_service}
use polymarket_market_discov.Pipeline.{Layers}
use polymarket_market_discov.Pipeline.Schedule.{coordinator_intervals}
use polymarket_market_discov.Samples.{py}
use polymarket_market_discov.Samples.Markets.{gamma}
use polymarket_market_discov.Samples.Orderbooks.{get_books}
use polymarket_market_discov.Samples.Strategies.{data_api}

abbrev world : World
world = record {
  py = py;
  api = data_api;
  gamma = gamma;
  get_order_books = get_books;
  begun_at = 6;
  ended_at = 7;
  clock = 9;
  session = 3;
}

abbrev one_strategy : Options
one_strategy = record {
  strategies = whale_name ∷ [];
  market_batch_size = none;
  orderbook_batch_size = none;
  market_registry_max_age_seconds = none;
  discovery_interval = none;
  markets_interval = none;
  orderbooks_interval = none;
}

abbrev arguments : ServiceArguments
arguments = record {
  strategy = some (whale_name ∷ []);
  market_batch_size = 100;
  orderbook_batch_size = 50;
}

abbrev intervals : Layers ℕ
intervals = record { discovery = 900; markets = 900; orderbooks = 300 }

schedule_read :
    schedule_arguments py (available_strategies world) one_strategy
    ≡ ok (schedule arguments intervals)
unfolding schedule_arguments service_arguments
schedule_read = refl

schedule_arguments_build_example :
    (is_ok (build_pipeline_coordinator world arguments (scheduled intervals))
      ≡ leb 100 100 && leb 50 500)
    × Keeps arguments
        (900 * 2)
        intervals
        (build_pipeline_coordinator world arguments (scheduled intervals))
schedule_arguments_build_example =
    schedule_arguments_build world one_strategy arguments intervals schedule_read

abbrev coordinator : Coordinator
coordinator = record {
  services = record {
    py = py;
    strategies = whale_strategy py data_api 6 7 ∷ [];
    gamma = gamma;
    get_order_books = get_books;
    market_batch_size = 100;
    orderbook_batch_size = 50;
    max_age = 1800;
    clock = 9;
    session = 3;
  };
  intervals = intervals;
}

coordinator_built : build_pipeline_coordinator world arguments (once 1800) ≡ ok coordinator
unfolding build_pipeline_coordinator build_discovery_service build_strategies sorted_set
    market_registry_service orderbook_collection_service coordinator_intervals
coordinator_built = refl

abbrev call : Call
call = record { now = 5; upgrade = λ s. (ok tt, s) }

abbrev free_server : Lock
free_server = record { postgresql = true; owner = none }

nothing_running : IsSettled empty_database
nothing_running = record { discovery = refl; sync = refl; collection = refl }

-- The loggers before the program's first call, and behind it.
abbrev fresh_loggers : Loggers
fresh_loggers = record { handlers = none ∷ []; level = 30; httpcore_level = 0; httpx_level = 0 }

abbrev set_loggers : Loggers
set_loggers = record {
  handlers = none ∷ some stdout_handler_name ∷ [];
  level = 20;
  httpcore_level = 30;
  httpx_level = 30;
}

loggers_set : configure_logging py "INFO" fresh_loggers ≡ ok set_loggers
unfolding configure_logging log_level
loggers_set = refl

main_all-IsSettled_example :
    (lines : List String) × (db : Database) × (main world call 10 0 [] "INFO" fresh_loggers
        (ok (run all arguments 1800))
        (free_server, empty_database)
      ≡ ok (set_loggers, (0, lines, (free_server, db))))
    × IsSettled db
main_all-IsSettled_example =
    main_all-IsSettled world call 10 0 [] "INFO" fresh_loggers set_loggers arguments 1800
      coordinator free_server empty_database loggers_set coordinator_built refl nothing_running

-- Session 3 is inside with the lock, and session 4 inside without it.
abbrev two_inside : Server
two_inside = enter 4 (enter 3 (all_outside free_server))

two_inside_reached : Reach true two_inside
unfolding enter
two_inside_reached = later (later start (enters 3 refl)) (enters 4 refl)

mutual_exclusion_example : ◌≡◌ {A = ℕ} 3 3
unfolding enter
mutual_exclusion_example = mutual_exclusion two_inside 3 3 two_inside_reached refl refl
