-- ===== src/Cli/Run/Exit.antt =====
-- The exit codes of the commands that run the coordinator.
use polymarket_market_discov.Base.{ℕ, String, true, List, ◌≡◌, ap, refl, ◌∙◌}
use polymarket_market_discov.Base.Result.{ok}
use polymarket_market_discov.Cli.{
  all, ServiceArguments, once, run, World, Coordinator, build_pipeline_coordinator,
}
use polymarket_market_discov.Cli.Logging.{Loggers, configure_logging}
use polymarket_market_discov.Cli.Run.{Call, run_once, command, main, print_pipeline_result}
use polymarket_market_discov.Core.Lock.{Lock, acquires}
use polymarket_market_discov.Core.Models.{Database}
use polymarket_market_discov.Core.Recovery.Settled.{IsSettled}
use polymarket_market_discov.Pipeline.{
  Layers, manual, Cycle, PipelineRunResult, all_layers, run_cycle,
}
use polymarket_market_discov.Pipeline
use polymarket_market_discov.Pipeline.Cascade.{run_cycle-IsCascade}
use polymarket_market_discov.Pipeline.Schedule.{Reading}
use polymarket_market_discov.Pipeline.Services.{service_runners, service_cycle-IsSettled}

module _ (w : World) (call : Call) (second started_at : ℕ) (readings : List Reading) where
  pub main_all_lem :
      (level : String) (root loggers : Loggers) (arguments : ServiceArguments) (max_age : ℕ)
      (coordinator : Coordinator) (s : Lock × Database)
      → configure_logging w.py level root ≡ ok loggers
      → build_pipeline_coordinator w arguments (once max_age) ≡ ok coordinator
      → (r : PipelineRunResult) × (c : Cycle (Lock × Database)) × (run_cycle
            (service_runners coordinator.services)
            (all_layers true)
            manual
            call.now
            s
          ≡ ok (r, c))
        × (main w call second started_at readings level root (ok (run all arguments max_age)) s
            ≡ ok (loggers, (0, print_pipeline_result r, c.state)))
  unfolding main command run_once Pipeline.run_once
  main_all_lem level root loggers arguments max_age coordinator s logged built =
      let runners = service_runners coordinator.services in
      let (r, c, e, _) = run_cycle-IsCascade runners (all_layers true) manual call.now s in
      (r, c, e, rw logged (rw built (rw e refl)))

  -- At a log level that the program knows, once its coordinator is built, and from a lock that the
  -- process can get and a database in which nothing is running, `run all` ends with the exit code 0
  -- and leaves the loggers configured, the lock as it was and nothing running, whatever the APIs
  -- answer and however the layers end.
  pub main_all-IsSettled :
      (level : String) (root loggers : Loggers) (arguments : ServiceArguments) (max_age : ℕ)
      (coordinator : Coordinator) (lock : Lock) (db : Database)
      → configure_logging w.py level root ≡ ok loggers
      → build_pipeline_coordinator w arguments (once max_age) ≡ ok coordinator
      → acquires coordinator.services.session lock ≡ true
      → IsSettled db
      → (lines : List String) × (db' : Database) × (main w call second started_at readings level
            root
            (ok (run all arguments max_age))
            (lock, db)
          ≡ ok (loggers, (0, lines, (lock, db'))))
        × IsSettled db'
  main_all-IsSettled level root loggers arguments max_age coordinator lock db logged built free
        settled =
      let (r, c, e, exits) =
        main_all_lem level root loggers arguments max_age coordinator (lock, db) logged built in
      let (same, idle) =
        service_cycle-IsSettled coordinator.services (all_layers true) manual call.now lock db r c
          free settled e in
      (
        print_pipeline_result r,
        c.state.1,
        exits ∙ ap (λ held. ok (loggers, (0, print_pipeline_result r, (held, c.state.1)))) same,
        idle,
      )
