-- ===== src/Cli/Run.antt =====
-- `main`, `run_once`, `schedule` and the printed lines of `cli.py`. A command works on the server's
-- lock and the database; it leaves its exit code and the lines that it prints.
pub mod Exit
use polymarket_market_discov.Base.{ℕ, String, Bool, Option, none, some, List, [], ◌∷◌, ◌++◌}
use polymarket_market_discov.Base.Int.{pos}
use polymarket_market_discov.Base.Json.{int}
use polymarket_market_discov.Base.Result.{Result, ok, raise, Exec, ◌>>=◌}
use polymarket_market_discov.Base.Runtime.{Runtime}
use polymarket_market_discov.Base.Text.{f_string}
use polymarket_market_discov.Cli.{
  ServiceName, discovery, markets, orderbooks, all, ServiceArguments, once, scheduled, Arguments,
  init_db, run, schedule, World, Coordinator, build_discovery_service, build_pipeline_coordinator,
}
use polymarket_market_discov.Cli.Logging.{Loggers, configure_logging}
use polymarket_market_discov.Core.Lock.{Lock}
use polymarket_market_discov.Core.Models.{Database}
use polymarket_market_discov.Core.Status.{
  Status, pending, running, completed, partial, failed, skipped,
}
use polymarket_market_discov.Core.Time.{Timestamp, Datetime, east}
use polymarket_market_discov.Discovery.Domain.{DiscoveryRunResult}
use polymarket_market_discov.Discovery.Service.{Strategy, run_discovery}
use polymarket_market_discov.Markets.Domain.{MarketRegistrySyncResult}
use polymarket_market_discov.Markets.Service.{market_registry_service, run_markets}
use polymarket_market_discov.Orderbooks.Domain.{OrderBookCollectionResult}
use polymarket_market_discov.Orderbooks.Service.{orderbook_collection_service, run_orderbooks}
use polymarket_market_discov.Pipeline.{Layers, Cycle, PipelineRunResult}
use polymarket_market_discov.Pipeline
use polymarket_market_discov.Pipeline.Schedule.{Reading, Progress, run_forever}
use polymarket_market_discov.Pipeline.Services.{service_runners}

abbrev pub State : Type 0
State = Lock × Database

abbrev status_text : Status → String
status_text pending = "pending"
status_text running = "running"
status_text completed = "completed"
status_text partial = "partial"
status_text failed = "failed"
status_text skipped = "skipped"

-- `f"{run_id}"` of an id or `None`.
abbrev id_text : Option String → String
id_text none = "None"
id_text (some run_id) = run_id

module _ (py : Runtime) where
  abbrev number : ℕ → String
  number n = py.repr (int (pos n))

  abbrev pub discovery_line : DiscoveryRunResult → String
  discovery_line result = f_string (
      "Discovery "
      ∷ status_text result.status
      ∷ ": run_id="
      ∷ id_text result.run_id
      ∷ " markets="
      ∷ number result.discovered_market_count
      ∷ " observations="
      ∷ number result.observation_count
      ∷ [])

  abbrev pub markets_line : MarketRegistrySyncResult → String
  markets_line result = f_string (
      "Markets "
      ∷ status_text result.status
      ∷ ": run_id="
      ∷ id_text result.run_id
      ∷ " checked="
      ∷ number result.checked_market_count
      ∷ " created="
      ∷ number result.created_market_count
      ∷ " updated="
      ∷ number result.updated_market_count
      ∷ [])

  abbrev pub orderbooks_line : OrderBookCollectionResult → String
  orderbooks_line result = f_string (
      "Orderbooks "
      ∷ status_text result.status
      ∷ ": run_id="
      ∷ id_text result.run_id
      ∷ " markets="
      ∷ number result.selected_market_count
      ∷ " tokens="
      ∷ number result.selected_token_count
      ∷ " success="
      ∷ number result.success_count
      ∷ " failure="
      ∷ number result.failure_count
      ∷ [])

-- One layer's line, where the layer has a result or an error.
abbrev layer_line {ℓ} :
    {A : Type ℓ} → String → (A → Status) → (A → Option String) → Option A → List String
layer_line name status run_id none = []
layer_line name status run_id (some result) =
    f_string (name ∷ " " ∷ status_text (status result) ∷ ": run_id=" ∷ id_text (run_id result) ∷ [])
    ∷ []

abbrev error_line : String → Option String → List String
error_line name none = []
error_line name (some error) = f_string (name ∷ " failed: error=" ∷ error ∷ []) ∷ []

-- The errors of a cycle are filed in the order of its layers.
unfoldable pub print_pipeline_result : PipelineRunResult → List String
print_pipeline_result result =
    f_string ("Pipeline " ∷ status_text result.status ∷ [])
    ∷ (layer_line "Discovery" (λ (d : DiscoveryRunResult). d.status) (λ d. d.run_id)
          result.discovery
        ++ (layer_line "Markets" (λ (m : MarketRegistrySyncResult). m.status) (λ m. m.run_id)
              result.markets
            ++ (layer_line "Orderbooks" (λ (o : OrderBookCollectionResult). o.status)
                  (λ o. o.run_id) result.orderbooks
                ++ (error_line "Discovery" result.errors.discovery
                    ++ (error_line "Markets" result.errors.markets
                        ++ error_line "Orderbooks" result.errors.orderbooks)))))

-- The clock at the command's call, and `alembic`'s upgrade, which is not the program's own.
pub record Call : Type 0 where
  pub now : Timestamp
  pub upgrade : Exec State (Unit {0})

module _ (w : World) (call : Call) where
  abbrev utc_now : Datetime
  utc_now = record { wall = call.now; tzinfo = east 0 }

  abbrev printed {ℓ} : {A : Type ℓ} → (A → String) → Result A × State → Result (List String) × State
  printed line (ok result, s) = (ok (line result ∷ []), s)
  printed line (raise exc, s) = (raise exc, s)

  abbrev built {ℓ} :
      {A : Type ℓ}
      → Result A
      → (A → State → Result (List String) × State)
      → Exec State (List String)
  built (ok service) body s = body service s
  built (raise exc) body s = (raise exc, s)

  abbrev printed_cycle :
      State → Result (PipelineRunResult × Cycle State) → Result (List String) × State
  printed_cycle s (ok (result, cycle)) = (ok (print_pipeline_result result), cycle.state)
  printed_cycle s (raise exc) = (raise exc, s)

  abbrev pub all_body : Coordinator → Exec State (List String)
  all_body coordinator s =
      printed_cycle s (Pipeline.run_once (service_runners coordinator.services) call.now s)

  unfoldable pub run_once : ServiceName → ServiceArguments → ℕ → Exec State (List String)
  run_once all arguments max_age s =
      built (build_pipeline_coordinator w arguments (once max_age)) all_body s
  run_once discovery arguments max_age s =
      built (build_discovery_service w arguments.strategy)
        (λ strategies s'.
          printed (discovery_line w.py)
            (run_discovery w.py strategies w.clock w.session utc_now s'))
        s
  run_once markets arguments max_age s =
      built (market_registry_service arguments.market_batch_size)
        (λ batch_size s'.
          printed (markets_line w.py)
            (run_markets w.py w.gamma batch_size w.clock w.clock w.session utc_now s'))
        s
  run_once orderbooks arguments max_age s =
      built (orderbook_collection_service arguments.orderbook_batch_size max_age)
        (λ kept s'.
          printed (orderbooks_line w.py)
            (run_orderbooks w.py w.get_order_books kept.0 kept.1 w.clock w.session utc_now s'))
        s

  -- The scheduler runs until the keyboard interrupts it, behind the last of the readings.
  abbrev stopped : State → Result (Progress State) → Result (List String) × State
  stopped s (ok progress) = (ok ("Scheduler stopped." ∷ []), progress.state)
  stopped s (raise exc) = (raise exc, s)

  abbrev pub forever_body :
      ℕ → ℕ → List Reading → Coordinator → State → Result (List String) × State
  forever_body second started_at readings coordinator s = stopped s (
      run_forever (service_runners coordinator.services) second coordinator.intervals call.now
        started_at readings s)

  abbrev initialized : Result (Unit {0}) × State → Result (List String) × State
  initialized (ok done, s) = (ok ("Database initialized." ∷ []), s)
  initialized (raise exc, s) = (raise exc, s)

  module _ (second started_at : ℕ) (readings : List Reading) where
    unfoldable pub command : Arguments → Exec State (List String)
    command init_db s = initialized (call.upgrade s)
    command (run service arguments max_age) s = run_once service arguments max_age s
    command (schedule arguments intervals) s =
        built (build_pipeline_coordinator w arguments (scheduled intervals))
          (forever_body second started_at readings) s

    -- The `try` block: the exit code, the lines and the state.
    abbrev pub exit : Result (List String) × State → ℕ × List String × State
    exit (ok lines, s) = (0, lines, s)
    exit (raise exc, s) = (1, [], s)

    -- `parsed` is what the parser makes of `argv`. An unknown log level or bad arguments end `main`
    -- before its `try`, with an exception and nothing run.
    unfoldable pub main :
        String → Loggers → Result Arguments → State → Result (Loggers × (ℕ × List String × State))
    main level root parsed s = do
      loggers ← configure_logging w.py level root
      arguments ← parsed
      ok (loggers, exit (command arguments s))
