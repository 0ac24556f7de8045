-- ===== src/Cli/Built.antt =====
-- Which accepted arguments the constructors behind the command line refuse.
use polymarket_market_discov.Base.{
  ℕ, suc, ◌*◌, ◌≤◌, String, Bool, true, ◌&&◌, Option, none, some, List, [], ◌∷◌, leb, ◌≡◌, refl,
  arith, ◌∙◌, subst, inl, inr,
}
use polymarket_market_discov.Base.Result.{Result, ok, raise, is_ok, >>=-eq-ok, Result-cases}
use polymarket_market_discov.Base.Runtime.{Runtime}
use polymarket_market_discov.Cli.{
  Options, ServiceArguments, Mode, scheduled, schedule, or_default, positive_int, check_choices,
  appended, service_arguments, schedule_arguments, World, factories, available_strategies,
  registry_max_age, coordinator_options, Coordinator, build_discovery_service,
  build_pipeline_coordinator,
}
use polymarket_market_discov.Discovery.Registry.{selected_names, build_strategies}
use polymarket_market_discov.Discovery.Registry.Built.{
  all_in, build_strategies_cases, strategy_factories-IsNamed,
}
use polymarket_market_discov.Markets.Service.{market_registry_service}
use polymarket_market_discov.Orderbooks.Service.{orderbook_collection_service}
use polymarket_market_discov.Pipeline.{Layers}
use polymarket_market_discov.Pipeline.Schedule.{coordinator_intervals}

module _ (py : Runtime) where
  positive_int-positive : (value : String) (n : ℕ) → positive_int py value ≡ ok n → 1 ≤ n
  unfolding positive_int
  positive_int-positive value n read = ground arith

  or_default-positive :
      (default n : ℕ) (value : Option String) → or_default py (suc default) value ≡ ok n → 1 ≤ n
  or_default-positive default n none read = ground arith
  or_default-positive default n (some value) read = positive_int-positive value n read

  check_choices-all_in :
      (choices given : List String)
      → check_choices py choices given ≡ ok tt
      → all_in choices given ≡ true
  unfolding check_choices
  check_choices-all_in choices [] checked = refl
  check_choices-all_in choices (value ∷ given) checked =
      ground (arith, check_choices-all_in choices given)

-- What the parser's types and choices give.
abbrev names_of : Option (List String) → List String
names_of none = []
names_of (some names) = names

names_of-appended :
    (py : Runtime) (choices given : List String)
    → all_in choices (names_of (appended py given)) ≡ all_in choices given
names_of-appended py choices [] = refl
names_of-appended py choices (value ∷ given) = refl

record IsChecked (choices : List String) (arguments : ServiceArguments) : Type 0 where
  known : all_in choices (names_of arguments.strategy) ≡ true
  market_positive : 1 ≤ arguments.market_batch_size
  orderbook_positive : 1 ≤ arguments.orderbook_batch_size

service_arguments-IsChecked :
    (py : Runtime) (choices : List String) (given : Options) (arguments : ServiceArguments)
    → service_arguments py choices given ≡ ok arguments
    → IsChecked choices arguments
unfolding service_arguments
service_arguments-IsChecked py choices given arguments read =
    let (done, checked, first) = >>=-eq-ok (check_choices py choices given.strategies) _ read in
    let (market, m, second) = >>=-eq-ok (or_default py 100 given.market_batch_size) _ first in
    let (orderbook, o, last) = >>=-eq-ok (or_default py 50 given.orderbook_batch_size) _ second in
    let made : ServiceArguments = record {
      strategy = appended py given.strategies;
      market_batch_size = market;
      orderbook_batch_size = orderbook;
    } in
    let same : made ≡ arguments = cc in
    subst (IsChecked choices) same (record {
      known =
          names_of-appended py choices given.strategies
          ∙ check_choices-all_in py choices given.strategies checked;
      market_positive = or_default-positive py 99 market given.market_batch_size m;
      orderbook_positive = or_default-positive py 49 orderbook given.orderbook_batch_size o;
    })

record IsPositive (intervals : Layers ℕ) : Type 0 where
  discovery : 1 ≤ intervals.discovery
  markets : 1 ≤ intervals.markets
  orderbooks : 1 ≤ intervals.orderbooks

all_in-selected_names :
    (w : World) (names : Option (List String))
    → all_in (available_strategies w) (names_of names) ≡ true
    → all_in (available_strategies w) (selected_names (factories w) names) ≡ true
all_in-selected_names w none known = refl
all_in-selected_names w (some []) known = refl
all_in-selected_names w (some (name ∷ names)) known = known

-- What a coordinator, where one is built, has of its arguments.
abbrev pub Keeps : ServiceArguments → ℕ → Layers ℕ → Result Coordinator → Type 0
Keeps arguments max_age intervals (raise exc) = Unit
Keeps arguments max_age intervals (ok coordinator) =
    (coordinator.services.market_batch_size ≡ arguments.market_batch_size)
    × (coordinator.services.orderbook_batch_size ≡ arguments.orderbook_batch_size)
    × (coordinator.services.max_age ≡ max_age)
    × (coordinator.intervals ≡ intervals)

module _ (w : World) (arguments : ServiceArguments) (mode : Mode) where
  abbrev within_bounds : Bool
  within_bounds = leb arguments.market_batch_size 100 && leb arguments.orderbook_batch_size 500

  build_pipeline_coordinator-checked :
      IsChecked (available_strategies w) arguments
      → IsPositive (coordinator_options mode)
      → 1 ≤ registry_max_age mode
      → (is_ok (build_pipeline_coordinator w arguments mode) ≡ within_bounds)
        × Keeps arguments
            (registry_max_age mode)
            (coordinator_options mode)
            (build_pipeline_coordinator w arguments mode)
  unfolding build_pipeline_coordinator build_discovery_service market_registry_service
      orderbook_collection_service coordinator_intervals
  build_pipeline_coordinator-checked checked positive aged =
      let (accepted, _) =
        build_strategies_cases (factories w) arguments.strategy
          (strategy_factories-IsNamed w.py w.api w.begun_at w.ended_at) in
      let known = all_in-selected_names w arguments.strategy checked.known in
      elim (Result-cases (build_strategies (factories w) arguments.strategy)) [
        | inl (exc, e) ↦
            let accepted' = rw e at accepted in let accepted'' = rw known at accepted' in cc
        | inr (strategies, e) ↦ rw e (ground arith, ground arith)
      ]

module _ (w : World) (given : Options) (arguments : ServiceArguments) where
  -- The arguments of `schedule` that the parser accepts build a coordinator exactly where the batch
  -- sizes are at most those of the two APIs, 100 markets and 500 orderbooks; the coordinator then
  -- has these batch sizes and the intervals as given, and takes a registry of up to twice the interval
  -- of the markets.
  pub schedule_arguments_build :
      (intervals : Layers ℕ)
      → schedule_arguments w.py (available_strategies w) given ≡ ok (schedule arguments intervals)
      → (is_ok (build_pipeline_coordinator w arguments (scheduled intervals))
          ≡ leb arguments.market_batch_size 100 && leb arguments.orderbook_batch_size 500)
        × Keeps arguments
            (intervals.markets * 2)
            intervals
            (build_pipeline_coordinator w arguments (scheduled intervals))
  unfolding schedule_arguments
  schedule_arguments_build intervals read =
      let (d, e1, r1) = >>=-eq-ok (or_default w.py 900 given.discovery_interval) _ read in
      let (m, e2, r2) = >>=-eq-ok (or_default w.py 900 given.markets_interval) _ r1 in
      let (o, e3, r3) = >>=-eq-ok (or_default w.py 300 given.orderbooks_interval) _ r2 in
      let (made, e4, last) =
        >>=-eq-ok (service_arguments w.py (available_strategies w) given) _ r3 in
      let same : made ≡ arguments = cc in
      let found : Layers ℕ = record { discovery = d; markets = m; orderbooks = o } in
      let same' : found ≡ intervals = cc in
      let positive : IsPositive found = record {
        discovery = or_default-positive w.py 899 d given.discovery_interval e1;
        markets = or_default-positive w.py 899 m given.markets_interval e2;
        orderbooks = or_default-positive w.py 299 o given.orderbooks_interval e3;
      } in
      let checked =
        service_arguments-IsChecked w.py (available_strategies w) given arguments (rw same at e4) in
      let positive' = subst IsPositive same' positive in
      build_pipeline_coordinator-checked w arguments (scheduled intervals) checked positive'
        (omega (arith, positive'.markets))
