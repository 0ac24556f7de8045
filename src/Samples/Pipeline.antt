-- ===== src/Samples/Pipeline.antt =====
-- Tests of the coordinator in `pipeline/coordinator.py`.
use polymarket_market_discov.Base.{
  ℕ, ◌+◌, ◌≡◌, refl, ◌↔◌, Bool, true, false, not, ◌||◌, none, some, List, [], ◌∷◌, length, arith,
  inl, if◌then◌else◌,
}
use polymarket_market_discov.Base.Result.{ok, raise, value_error}
use polymarket_market_discov.Core.Status.{completed, partial, failed, skipped}
use polymarket_market_discov.Discovery.Domain.{DiscoveryRunResult}
use polymarket_market_discov.Pipeline.{
  Layers, manual, cascade, Runners, Cycle, PipelineRunResult, run_cycle, run_layer,
  aggregate_status, discovery_step, markets_step, orderbooks_step, after_discovery, after_markets,
  after_orderbooks,
}
use polymarket_market_discov.Pipeline.Cascade.{
  IsCascade, effect, run_cycle-IsCascade, run_cycle-effects,
}
use polymarket_market_discov.Pipeline.Verdict.{
  any_succeeded, any_went_wrong, any_result, run_cycle-status,
}
use polymarket_market_discov.Pipeline.Schedule.{
  Reading, Progress, run_forever, in_ticks, coordinator_intervals, due_layers, next_deadlines,
  sleep_time,
}
use polymarket_market_discov.Pipeline.Schedule.Deadlines.{
  IsNext, IsPositive, coordinator_intervals_iff, round-IsNext,
}
use polymarket_market_discov.Pipeline.Schedule.Rounds.{IsSteady, run_forever-IsSteady}

abbrev discovered : DiscoveryRunResult
discovered = record {
  run_id = some "d";
  status = completed;
  strategies = [];
  observation_count = 1;
  discovered_market_count = 1;
  generated_at = 5;
  skip_reason = none;
}

-- A discovery that completes, and a registry sync that raises, in a state that counts the calls.
abbrev sample_runners : Runners ℕ
sample_runners = record {
  discovery = λ now s. (ok discovered, s + 1);
  markets = λ now s. (raise (value_error "Gamma is down"), s + 10);
  orderbooks = λ now s. (raise (value_error "CLOB is down"), s + 100);
}

-- Only the discovery is due.
abbrev sample_due : Layers Bool
sample_due = record { discovery = true; markets = false; orderbooks = false }

abbrev sample_result : PipelineRunResult
sample_result = record {
  status = partial;
  discovery = some discovered;
  markets = none;
  orderbooks = none;
  triggers = record { discovery = some manual; markets = some cascade; orderbooks = none };
  errors = record { discovery = none; markets = some "Gamma is down"; orderbooks = none };
  generated_at = 5;
}

abbrev sample_end : Cycle ℕ
sample_end = record {
  due = record { discovery = true; markets = true; orderbooks = false };
  triggers = record { discovery = some manual; markets = some cascade; orderbooks = none };
  errors = record { discovery = none; markets = some "Gamma is down"; orderbooks = none };
  discovery = some discovered;
  markets = none;
  orderbooks = none;
  state = 11;
}

sample_run : run_cycle sample_runners sample_due manual 5 0 ≡ ok (sample_result, sample_end)
unfolding run_cycle run_layer aggregate_status discovery_step markets_step orderbooks_step
    after_discovery after_markets after_orderbooks
sample_run = refl

run_cycle-IsCascade_example :
    (r : PipelineRunResult) × (c : Cycle ℕ) × (run_cycle sample_runners sample_due manual 5 0
      ≡ ok (r, c))
    × IsCascade sample_due manual r
run_cycle-IsCascade_example = run_cycle-IsCascade sample_runners sample_due manual 5 0

run_cycle-effects_example :
    sample_end.state
    ≡ effect sample_result.triggers.orderbooks (sample_runners.orderbooks 5) (
        effect sample_result.triggers.markets
          (sample_runners.markets 5)
          (effect sample_result.triggers.discovery (sample_runners.discovery 5) 0))
run_cycle-effects_example =
    run_cycle-effects sample_runners sample_due manual 5 0 sample_result sample_end sample_run

run_cycle-status_example : sample_result.status ≡ (
    if any_went_wrong sample_result
    then (if any_succeeded sample_result then partial else failed)
    else if any_succeeded sample_result || not (any_result sample_result)
    then completed
    else skipped)
run_cycle-status_example =
    run_cycle-status sample_runners sample_due manual 5 0 sample_result sample_end sample_run
      (inl refl, tt, tt)

abbrev sample_intervals : Layers ℕ
sample_intervals = record { discovery = 900; markets = 900; orderbooks = 300 }

sample_intervals-IsPositive : IsPositive sample_intervals
sample_intervals-IsPositive = record {
  discovery = omega arith;
  markets = omega arith;
  orderbooks = omega arith;
}

abbrev sample_readings : List Reading
sample_readings = record { monotonic = 4000; wall = 6 } ∷ []

run_forever-IsSteady_example :
    (progress : Progress ℕ) × (run_forever sample_runners 10 sample_intervals 5 1000 sample_readings
        0
      ≡ ok progress)
    × IsSteady 1000 (in_ticks 10 sample_intervals) (length sample_readings + 1) progress
run_forever-IsSteady_example =
    run_forever-IsSteady sample_runners 10 sample_intervals 5 1000 sample_readings 0 (omega arith)
      sample_intervals-IsPositive

coordinator_intervals_iff_example :
    ((intervals : Layers ℕ) × (coordinator_intervals 900 900 300 ≡ ok intervals))
    ↔ IsPositive sample_intervals
coordinator_intervals_iff_example = coordinator_intervals_iff 900 900 300

-- Two orderbook ticks were missed.
abbrev sample_deadlines : Layers ℕ
sample_deadlines = record { discovery = 900; markets = 900; orderbooks = 300 }

round-IsNext_example :
    let due = due_layers sample_deadlines 1000 in
    let next = next_deadlines sample_deadlines sample_intervals 1000 in
    (due.discovery || (due.markets || due.orderbooks) ≡ true)
    × IsNext 900 900 1000 next.discovery
    × IsNext 900 900 1000 next.markets
    × IsNext 300 300 1000 next.orderbooks
unfolding sleep_time
round-IsNext_example =
    round-IsNext sample_deadlines sample_intervals 100 1000 sample_intervals-IsPositive
      (omega arith)
