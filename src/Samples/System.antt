-- ===== src/Samples/System.antt =====
-- Tests of the coordinator over the three services.
use polymarket_market_discov.Base.{◌≡◌, refl, Bool, true, none}
use polymarket_market_discov.Base.Result.{ok}
use polymarket_market_discov.Core.Lock.{Lock}
use polymarket_market_discov.Core.Models.{Database, empty_database}
use polymarket_market_discov.Core.Recovery.Settled.{IsSettled}
use polymarket_market_discov.Core.Time.{east}
use polymarket_market_discov.Orderbooks.Service.{run_orderbooks}
use polymarket_market_discov.Orderbooks.Service.Settled.{run_orderbooks-IsSettled}
use polymarket_market_discov.Pipeline.{Layers, manual, Cycle, PipelineRunResult, run_cycle}
use polymarket_market_discov.Pipeline.Cascade.{IsCascade, run_cycle-IsCascade}
use polymarket_market_discov.Pipeline.Services.{Settings, service_runners, service_cycle-IsSettled}
use polymarket_market_discov.Samples.{py, discovered}
use polymarket_market_discov.Samples.Discovery.{two_strategies}
use polymarket_market_discov.Samples.Markets.{gamma}
use polymarket_market_discov.Samples.Orderbooks.{get_books}

abbrev settings : Settings
settings = record {
  py = py;
  strategies = two_strategies;
  gamma = gamma;
  get_order_books = get_books;
  market_batch_size = 100;
  orderbook_batch_size = 50;
  max_age = 1800;
  clock = 9;
  session = 3;
}

abbrev free_server : Lock
free_server = record { postgresql = true; owner = none }

run_orderbooks-IsSettled_example :
    IsSettled
      (run_orderbooks py get_books 50 1800 9 3
        (record { wall = 5; tzinfo = east 0 })
        (free_server, discovered)).1.1
run_orderbooks-IsSettled_example =
    run_orderbooks-IsSettled py get_books 50 1800 9 3 (record { wall = 5; tzinfo = east 0 })
      free_server discovered refl

nothing_running : IsSettled empty_database
nothing_running = record { discovery = refl; sync = refl; collection = refl }

abbrev everything : Layers Bool
everything = record { discovery = true; markets = true; orderbooks = true }

-- What the cycle returns, which it always does.
abbrev ran :
    (r : PipelineRunResult) × (c : Cycle (Lock × Database)) × (run_cycle
        (service_runners settings)
        everything
        manual
        5
        (free_server, empty_database)
      ≡ ok (r, c))
    × IsCascade everything manual r
ran =
    run_cycle-IsCascade (service_runners settings) everything manual 5 (free_server, empty_database)

service_cycle-IsSettled_example : (ran.1.state.0 ≡ free_server) × IsSettled ran.1.state.1
service_cycle-IsSettled_example =
    service_cycle-IsSettled settings everything manual 5 free_server empty_database ran.0 ran.1 refl
      nothing_running ran.2
