-- ===== src/Discovery/Service/Loop.antt =====
-- The loop over the strategies in `discovery/service.py` changes the row of its run only.
use polymarket_market_discov.Base.{
  String, ◌≡◌, refl, false, Option, none, some, List, [], ◌∷◌, ◌++◌, arith,
}
use polymarket_market_discov.Base.Result.{Result, ok, raise, >>=-eq-ok}
use polymarket_market_discov.Core.Models.{Database, MarketDiscoveryRun}
use polymarket_market_discov.Core.Recovery.{discovery_running}
use polymarket_market_discov.Core.Time.{Timestamp}
use polymarket_market_discov.Discovery.Domain.{StrategyDiscoveryResult, StrategyExecutionLogEntry}
use polymarket_market_discov.Discovery.Repository.{
  begin_strategy, end_strategy, start_strategy, complete_strategy, fail_discovery, failed_log,
  required_log, change_last, finish_strategy_log_entry,
}
use polymarket_market_discov.Discovery.Repository.Ownership.{Owns, change_run-Owns}
use polymarket_market_discov.Discovery.Service.{
  Strategy, LoopEnd, checked_result, with_result, after_discover, after_start, run_strategy,
  run_strategies,
}

begin_strategy-run_id :
    (strategy version : String) (t : Timestamp) (run run' : MarketDiscoveryRun)
    → begin_strategy strategy version t run ≡ ok run'
    → run'.run_id ≡ run.run_id
unfolding begin_strategy
begin_strategy-run_id strategy version t run run' h = ground arith

end_strategy-run_id :
    (strategy : String) (t : Timestamp) (run run' : MarketDiscoveryRun)
    → end_strategy strategy t run ≡ ok run'
    → run'.run_id ≡ run.run_id
unfolding end_strategy
end_strategy-run_id strategy t run run' h = ground arith

failed_log-runs :
    (strategy : Option String) (t : Timestamp) (error : String)
    (log : List StrategyExecutionLogEntry)
    → (log' : List StrategyExecutionLogEntry) × (failed_log strategy t error log ≡ ok log')
unfolding finish_strategy_log_entry
failed_log-runs none t error log = (log, refl)
failed_log-runs (some strategy) t error log = go (change_last _ _ log)
  where
    go :
        (changed : Option (List StrategyExecutionLogEntry))
        → (log' : List StrategyExecutionLogEntry) × (required_log strategy false log changed
            ≡ ok log')
    go none = (log, refl)
    go (some log') = (log', refl)

pub fail_discovery-runs :
    (strategy : Option String) (t : Timestamp) (error : String) (run : MarketDiscoveryRun)
    → (run' : MarketDiscoveryRun) × (fail_discovery strategy t error run ≡ ok run')
unfolding fail_discovery
fail_discovery-runs strategy t error run =
    let (log, ended) = failed_log-runs strategy t error run.strategy_log in rw ended (_, refl)

pub fail_discovery-ends :
    (strategy : Option String) (t : Timestamp) (error : String) (run run' : MarketDiscoveryRun)
    → fail_discovery strategy t error run ≡ ok run'
    → (run'.run_id ≡ run.run_id) × (discovery_running run' ≡ false)
unfolding fail_discovery
fail_discovery-ends strategy t error run run' h =
    let (log, ended, last) = >>=-eq-ok (failed_log strategy t error run.strategy_log) _ h in
    (ground arith, ground arith)

module _ (run_id : String) (started_at : Timestamp) where
  run_strategy-Owns :
      (strategy : Strategy) (start db : Database)
      → Owns run_id start db
      → Owns run_id start (run_strategy run_id started_at strategy db).1
  unfolding run_strategy start_strategy complete_strategy
  run_strategy-Owns strategy start db o = started _ (
      change_run-Owns run_id _ start db
        (begin_strategy-run_id strategy.name strategy.version strategy.begun_at) o)
    where
      completed :
          (db' : Database) (result : StrategyDiscoveryResult) (end : Result (Unit {0}))
          → Owns run_id start db'
          → Owns run_id start (with_result result (end, db')).1
      completed db' result (ok u) o' = o'
      completed db' result (raise exc) o' = o'

      discovered :
          (db' : Database) (result : Result StrategyDiscoveryResult)
          → Owns run_id start db'
          → Owns run_id start (after_discover run_id started_at strategy result db').1
      discovered db' (raise exc) o' = o'
      discovered db' (ok result) o' = completed _ result _ (
          change_run-Owns run_id _ start db' (end_strategy-run_id strategy.name strategy.ended_at)
            o')

      started :
          {db' : Database} (result : Result (Unit {0}))
          → Owns run_id start db'
          → Owns run_id start (after_start run_id started_at strategy (result, db')).1
      started (raise exc) o' = o'
      started (ok u) o' = discovered _ (checked_result strategy (strategy.discover started_at)) o'

  pub run_strategies-Owns :
      (strategies : List Strategy) (results : List StrategyDiscoveryResult) (start db : Database)
      → Owns run_id start db
      → Owns run_id start (run_strategies run_id started_at strategies results db).database
  unfolding run_strategies
  run_strategies-Owns [] results start db o = o
  run_strategies-Owns (strategy ∷ strategies) results start db o =
      elim (run_strategy run_id started_at strategy db).0
        as (λ x.
          Owns run_id start
            (elim x as (λ y. LoopEnd) [
              | ok result ↦
                  run_strategies run_id started_at strategies (results ++ result ∷ [])
                    (run_strategy run_id started_at strategy db).1
              | raise exc ↦ record {
                current_strategy = some strategy.name;
                results = raise exc;
                database = (run_strategy run_id started_at strategy db).1;
              }
            ]).database) [
              | ok result ↦
                  run_strategies-Owns strategies (results ++ result ∷ []) start _
                    (run_strategy-Owns strategy start db o)
              | raise exc ↦ run_strategy-Owns strategy start db o
            ]
