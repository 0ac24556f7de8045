-- ===== src/Discovery/Repository.antt =====
-- `discovery/repository.py`: the row of a discovery run, its strategy log and its observations.
pub mod Ownership
use polymarket_market_discov.Base.{
  ℕ, ◌+◌, String, Bool, true, false, not, ◌&&◌, Option, none, some, List, [], ◌∷◌, ◌++◌, map,
  length, ◌==◌, if◌then◌else◌, find, update_where, any_of,
}
use polymarket_market_discov.Base.Dict.{contains, distinct}
use polymarket_market_discov.Base.Result.{
  Result, ok, raise, value_error, raise_if, Exec, ◌>>=◌, ◌>>◌,
}
use polymarket_market_discov.Base.Text.{f_string}
use polymarket_market_discov.Core.Models.{Database, MarketDiscoveryRun, MarketDiscoveryObservation}
use polymarket_market_discov.Core.Session.{transaction, constraint}
use polymarket_market_discov.Core.Status.{Status, running, completed, failed, status_eq}
use polymarket_market_discov.Core.Time.{Timestamp}
use polymarket_market_discov.Discovery.Domain.{
  StrategyDiscoveryResult, StrategyExecutionLogEntry, MarketDiscoveryObservationPayload,
}

abbrev pub is_discovery_run : String → MarketDiscoveryRun → Bool
is_discovery_run run_id run = run.run_id == run_id

abbrev pub new_discovery_run : String → Timestamp → MarketDiscoveryRun
new_discovery_run run_id started_at = record {
  run_id = run_id;
  status = running;
  started_at = started_at;
  finished_at = none;
  strategies = [];
  strategy_log = [];
  observation_count = 0;
  discovered_market_count = 0;
  registry_synced_at = none;
  error_message = none;
}

unfoldable pub create_discovery_run : String → Timestamp → Exec Database (Unit {0})
create_discovery_run run_id started_at = transaction λ db. do
  constraint (any_of (is_discovery_run run_id) db.discovery_runs) "market_discovery_runs_pkey"
  ok (
    tt,
    record db { discovery_runs = db.discovery_runs ++ new_discovery_run run_id started_at ∷ [] },
  )

unfoldable pub get_run : String → Option MarketDiscoveryRun → Result MarketDiscoveryRun
get_run run_id none = raise (value_error (f_string ("Unknown discovery run: " ∷ run_id ∷ [])))
get_run run_id (some run) = ok run

-- The row of the run is read, changed and written back, in one transaction.
abbrev pub write_run : String → MarketDiscoveryRun → Database → Database
write_run run_id run db = record db {
  discovery_runs = update_where (is_discovery_run run_id) (λ old. run) db.discovery_runs;
}

unfoldable pub change_run :
    String → (MarketDiscoveryRun → Result MarketDiscoveryRun) → Exec Database (Unit {0})
change_run run_id change = transaction λ db. do
  run ← get_run run_id (find (is_discovery_run run_id) db.discovery_runs)
  run' ← change run
  ok (tt, write_run run_id run' db)

abbrev pub new_entry : String → String → Timestamp → StrategyExecutionLogEntry
new_entry strategy version started_at = record {
  strategy = strategy;
  version = version;
  status = running;
  started_at = started_at;
  finished_at = none;
  error_message = none;
}

unfoldable pub begin_strategy :
    String → String → Timestamp → MarketDiscoveryRun → Result MarketDiscoveryRun
begin_strategy strategy version started_at run = do
  raise_if (contains strategy run.strategies) (
      value_error
        (f_string ("Strategy already started for run " ∷ run.run_id ∷ ": " ∷ strategy ∷ [])))
  ok (record run {
    strategies = run.strategies ++ strategy ∷ [];
    strategy_log = run.strategy_log ++ new_entry strategy version started_at ∷ [];
  })

unfoldable pub start_strategy : String → String → String → Timestamp → Exec Database (Unit {0})
start_strategy run_id strategy version started_at =
    change_run run_id (begin_strategy strategy version started_at)

abbrev pub is_running_entry : String → StrategyExecutionLogEntry → Bool
is_running_entry strategy entry = entry.strategy == strategy && status_eq entry.status running

abbrev pub finish_entry :
    Status → Timestamp → Option String → StrategyExecutionLogEntry → StrategyExecutionLogEntry
finish_entry status finished_at error_message entry = record entry {
  status = status;
  finished_at = some finished_at;
  error_message = error_message;
}

-- The loop from the last entry to the first: the log with the last entry that passes the test
-- changed, or none where no entry does.
abbrev pub or_head :
    (StrategyExecutionLogEntry → Bool)
    → (StrategyExecutionLogEntry → StrategyExecutionLogEntry)
    → StrategyExecutionLogEntry
    → List StrategyExecutionLogEntry
    → Option (List StrategyExecutionLogEntry)
    → Option (List StrategyExecutionLogEntry)
or_head test change entry entries (some changed) = some (entry ∷ changed)
or_head test change entry entries none = if test entry then some (change entry ∷ entries) else none

unfoldable pub change_last :
    (StrategyExecutionLogEntry → Bool)
    → (StrategyExecutionLogEntry → StrategyExecutionLogEntry)
    → List StrategyExecutionLogEntry
    → Option (List StrategyExecutionLogEntry)
change_last test change [] = none
change_last test change (entry ∷ entries) =
    or_head test change entry entries (change_last test change entries)

abbrev pub required_log :
    String
    → Bool
    → List StrategyExecutionLogEntry
    → Option (List StrategyExecutionLogEntry)
    → Result (List StrategyExecutionLogEntry)
required_log strategy required log (some changed) = ok changed
required_log strategy true log none =
    raise (value_error (f_string ("No running strategy log for " ∷ strategy ∷ [])))
required_log strategy false log none = ok log

unfoldable pub finish_strategy_log_entry :
    List StrategyExecutionLogEntry
    → String
    → Status
    → Timestamp
    → Option String
    → Bool
    → Result (List StrategyExecutionLogEntry)
finish_strategy_log_entry log strategy status finished_at error_message required =
    required_log strategy required log
      (change_last (is_running_entry strategy) (finish_entry status finished_at error_message) log)

unfoldable pub end_strategy : String → Timestamp → MarketDiscoveryRun → Result MarketDiscoveryRun
end_strategy strategy finished_at run = do
  log ← finish_strategy_log_entry run.strategy_log strategy completed finished_at none true
  ok (record run { strategy_log = log })

unfoldable pub complete_strategy : String → String → Timestamp → Exec Database (Unit {0})
complete_strategy run_id strategy finished_at =
    change_run run_id (end_strategy strategy finished_at)

abbrev pub observation_row :
    String
    → StrategyDiscoveryResult
    → MarketDiscoveryObservationPayload
    → MarketDiscoveryObservation
observation_row run_id result observation = record {
  discovery_run_id = run_id;
  strategy = result.strategy;
  strategy_version = result.strategy_version;
  condition_id = observation.condition_id;
  observed_at = observation.observed_at;
  evidence_json = observation.evidence_json;
}

abbrev pub same_observation : MarketDiscoveryObservation → MarketDiscoveryObservation → Bool
same_observation new row =
    row.discovery_run_id == new.discovery_run_id
    && row.strategy == new.strategy
    && row.condition_id == new.condition_id

unfoldable pub add_observations :
    List MarketDiscoveryObservation
    → List MarketDiscoveryObservation
    → Result (List MarketDiscoveryObservation)
add_observations [] rows = ok rows
add_observations (new ∷ news) rows = do
  constraint (any_of (same_observation new) rows) "uq_discovery_observation_run_strategy_condition"
  add_observations news (rows ++ new ∷ [])

-- The observations of all results, in order.
unfoldable pub observation_rows :
    String → List StrategyDiscoveryResult → List MarketDiscoveryObservation
observation_rows run_id [] = []
observation_rows run_id (result ∷ results) =
    map (observation_row run_id result) result.observations ++ observation_rows run_id results

abbrev pub observed_conditions : List MarketDiscoveryObservation → List String
observed_conditions rows = map (λ row. row.condition_id) rows

abbrev pub complete_discovery :
    Timestamp → List MarketDiscoveryObservation → MarketDiscoveryRun → MarketDiscoveryRun
complete_discovery finished_at news run = record run {
  status = completed;
  finished_at = some finished_at;
  observation_count = length news;
  discovered_market_count = length (distinct (observed_conditions news));
}

unfoldable pub complete_discovery_run :
    String → List StrategyDiscoveryResult → Timestamp → Exec Database (Unit {0})
complete_discovery_run run_id results finished_at = transaction λ db. do
  run ← get_run run_id (find (is_discovery_run run_id) db.discovery_runs)
  let news = observation_rows run_id results
  rows ← add_observations news db.observations
  ok (
    tt,
    write_run run_id (complete_discovery finished_at news run) (record db { observations = rows }),
  )

-- `if strategy is not None`
abbrev pub failed_log :
    Option String
    → Timestamp
    → String
    → List StrategyExecutionLogEntry
    → Result (List StrategyExecutionLogEntry)
failed_log none finished_at error_message log = ok log
failed_log (some strategy) finished_at error_message log =
    finish_strategy_log_entry log strategy failed finished_at (some error_message) false

unfoldable pub fail_discovery :
    Option String → Timestamp → String → MarketDiscoveryRun → Result MarketDiscoveryRun
fail_discovery strategy finished_at error_message run = do
  log ← failed_log strategy finished_at error_message run.strategy_log
  ok (record run {
    strategy_log = log;
    status = failed;
    finished_at = some finished_at;
    error_message = some error_message;
  })

unfoldable pub fail_discovery_run :
    String → Option String → Timestamp → String → Exec Database (Unit {0})
fail_discovery_run run_id strategy finished_at error_message =
    change_run run_id (fail_discovery strategy finished_at error_message)
