-- ===== src/Cli.antt =====
-- `cli.py`: the arguments of the command line, the services that they build, and the exit code.
-- `argparse` is Python's: here are the texts that it finds for each option, and the types, choices
-- and defaults that the parser declares for them.
pub mod Logging
pub mod Run
pub mod Built
use polymarket_market_discov.Base.{
  ℕ, ◌*◌, String, Bool, true, false, not, Option, none, some, List, [], ◌∷◌, ltb,
}
use polymarket_market_discov.Base.Dict.{contains, keys}
use polymarket_market_discov.Base.Int.{ℤ, pos, negsuc}
use polymarket_market_discov.Base.Json.{Json}
use polymarket_market_discov.Base.Result.{Result, ok, raise, value_error, raise_if, ◌>>=◌, ◌>>◌}
use polymarket_market_discov.Base.Runtime.{Runtime}
use polymarket_market_discov.Core.Time.{Timestamp}
use polymarket_market_discov.Discovery.Registry.{Factories, strategy_factories, build_strategies}
use polymarket_market_discov.Discovery.Service.{Strategy}
use polymarket_market_discov.Discovery.Strategies.Rows.{DataApi}
use polymarket_market_discov.Markets.Retrieval.{Gamma}
use polymarket_market_discov.Markets.Service.{market_registry_service}
use polymarket_market_discov.Orderbooks.Service.{orderbook_collection_service}
use polymarket_market_discov.Pipeline.{Layers}
use polymarket_market_discov.Pipeline.Schedule.{coordinator_intervals}
use polymarket_market_discov.Pipeline.Services.{Settings}

-- `SERVICES`
pub data ServiceName : Type 0 where
  discovery markets orderbooks all : ServiceName

-- The texts of the options that the command line gives; `strategies` has one for each `--strategy`.
pub record Options : Type 0 where
  pub strategies : List String
  pub market_batch_size : Option String
  pub orderbook_batch_size : Option String
  pub market_registry_max_age_seconds : Option String
  pub discovery_interval : Option String
  pub markets_interval : Option String
  pub orderbooks_interval : Option String

pub record ServiceArguments : Type 0 where
  pub strategy : Option (List String)
  pub market_batch_size : ℕ
  pub orderbook_batch_size : ℕ

-- What a coordinator is built for: one run, with the age that `run` takes, or a schedule.
pub data Mode : Type 0 where
  once : (market_registry_max_age_seconds : ℕ) → Mode
  scheduled : (intervals : Layers ℕ) → Mode

pub data Arguments : Type 0 where
  init_db : Arguments
  run : ServiceName → ServiceArguments → (market_registry_max_age_seconds : ℕ) → Arguments
  schedule : ServiceArguments → Layers ℕ → Arguments

module _ (py : Runtime) where
  abbrev checked_int : Option ℤ → Result ℕ
  checked_int none = raise (value_error "invalid positive_int value")
  checked_int (some (negsuc n)) = raise (value_error "Must be greater than zero.")
  checked_int (some (pos n)) = do
    raise_if (ltb n 1) (value_error "Must be greater than zero.")
    ok n

  unfoldable pub positive_int : String → Result ℕ
  positive_int value = checked_int (py.integer value)

  abbrev or_default : ℕ → Option String → Result ℕ
  or_default default none = ok default
  or_default default (some value) = positive_int value

  -- `choices=...` of an option that may be repeated.
  unfoldable pub check_choices : List String → List String → Result (Unit {0})
  check_choices choices [] = ok tt
  check_choices choices (value ∷ given) = do
    raise_if (not (contains value choices)) (value_error "invalid choice")
    check_choices choices given

  -- `action="append"`: the default is `None`.
  abbrev pub appended : List String → Option (List String)
  appended [] = none
  appended (value ∷ given) = some (value ∷ given)

  unfoldable pub service_arguments : List String → Options → Result ServiceArguments
  unfolding positive_int check_choices
  service_arguments choices given = do
    check_choices choices given.strategies
    market_batch_size ← or_default 100 given.market_batch_size
    orderbook_batch_size ← or_default 50 given.orderbook_batch_size
    ok (record {
      strategy = appended given.strategies;
      market_batch_size = market_batch_size;
      orderbook_batch_size = orderbook_batch_size;
    })

  -- The arguments of `run` and of `schedule`, as `build_parser` declares them.
  unfoldable pub run_arguments : List String → ServiceName → Options → Result Arguments
  run_arguments choices service given = do
    arguments ← service_arguments choices given
    max_age ← or_default 1800 given.market_registry_max_age_seconds
    ok (run service arguments max_age)

  unfoldable pub schedule_arguments : List String → Options → Result Arguments
  schedule_arguments choices given = do
    discovery_interval ← or_default 900 given.discovery_interval
    markets_interval ← or_default 900 given.markets_interval
    orderbooks_interval ← or_default 300 given.orderbooks_interval
    arguments ← service_arguments choices given
    ok (
        schedule arguments (record {
          discovery = discovery_interval;
          markets = markets_interval;
          orderbooks = orderbooks_interval;
        }))

-- What the services stand on, beside their arguments: the calls of the client, and the clock.
pub record World : Type 0 where
  pub py : Runtime
  pub api : DataApi
  pub gamma : Gamma
  pub get_order_books : List String → Result Json
  pub begun_at : Timestamp
  pub ended_at : Timestamp
  pub clock : Timestamp
  pub session : ℕ

abbrev pub factories : World → Factories
factories w = strategy_factories w.py w.api w.begun_at w.ended_at

abbrev pub available_strategies : World → List String
available_strategies w = keys (factories w)

-- `registry_max_age`, and `coordinator_options` with the defaults of the coordinator.
abbrev pub registry_max_age : Mode → ℕ
registry_max_age (once max_age) = max_age
registry_max_age (scheduled intervals) = intervals.markets * 2

abbrev pub coordinator_options : Mode → Layers ℕ
coordinator_options (once max_age) = record { discovery = 900; markets = 900; orderbooks = 300 }
coordinator_options (scheduled intervals) = intervals

pub record Coordinator : Type 0 where
  pub services : Settings
  pub intervals : Layers ℕ

module _ (w : World) where
  unfoldable pub build_discovery_service : Option (List String) → Result (List Strategy)
  unfolding build_strategies
  build_discovery_service names = build_strategies (factories w) names

  abbrev settings : List Strategy → ℕ → ℕ → ℕ → Settings
  settings strategies market_batch_size orderbook_batch_size max_age = record {
    py = w.py;
    strategies = strategies;
    gamma = w.gamma;
    get_order_books = w.get_order_books;
    market_batch_size = market_batch_size;
    orderbook_batch_size = orderbook_batch_size;
    max_age = max_age;
    clock = w.clock;
    session = w.session;
  }

  unfoldable pub build_pipeline_coordinator : ServiceArguments → Mode → Result Coordinator
  build_pipeline_coordinator arguments mode = do
    let options = coordinator_options mode
    strategies ← build_discovery_service arguments.strategy
    market_batch_size ← market_registry_service arguments.market_batch_size
    (orderbook_batch_size, max_age) ←
        orderbook_collection_service arguments.orderbook_batch_size (registry_max_age mode)
    intervals ← coordinator_intervals options.discovery options.markets options.orderbooks
    ok (record {
      services = settings strategies market_batch_size orderbook_batch_size max_age;
      intervals = intervals;
    })
