-- ===== src/Pipeline/Schedule.antt =====
-- The deadlines of `PipelineCoordinator.run_forever` in `pipeline/coordinator.py`.
-- The monotonic clock counts ticks, so many to the second, where Python's is a float of seconds. The
-- coordinator's intervals are whole seconds, and the deadlines' arithmetic is in ticks.
pub mod Deadlines
pub mod Rounds
use polymarket_market_discov.Base.{
  ℕ, ◌+◌, ◌-◌, ◌*◌, ◌/◌, min, Bool, List, [], ◌∷◌, ltb, leb, if◌then◌else◌,
}
use polymarket_market_discov.Base.Result.{Result, ok, value_error, raise_if, ◌>>=◌, ◌>>◌}
use polymarket_market_discov.Core.Time.{Timestamp}
use polymarket_market_discov.Pipeline.{
  Layers, all_layers, bootstrap, scheduled, Runners, PipelineRunResult, run_cycle,
}

abbrev pub smallest : Layers ℕ → ℕ
smallest l = min l.discovery (min l.markets l.orderbooks)

-- `PipelineCoordinator.__init__`: the intervals that the coordinator keeps.
unfoldable pub coordinator_intervals : ℕ → ℕ → ℕ → Result (Layers ℕ)
coordinator_intervals discovery_interval market_interval orderbook_interval = do
  raise_if (ltb (min discovery_interval (min market_interval orderbook_interval)) 1)
      (value_error "Pipeline intervals must be greater than zero")
  ok (record {
    discovery = discovery_interval;
    markets = market_interval;
    orderbooks = orderbook_interval;
  })

-- The intervals in ticks, at `second` ticks to the second.
abbrev pub in_ticks : ℕ → Layers ℕ → Layers ℕ
in_ticks second intervals = record {
  discovery = intervals.discovery * second;
  markets = intervals.markets * second;
  orderbooks = intervals.orderbooks * second;
}

-- `started_at + interval` for each layer.
unfoldable pub first_deadlines : Layers ℕ → ℕ → Layers ℕ
first_deadlines intervals started_at = record {
  discovery = started_at + intervals.discovery;
  markets = started_at + intervals.markets;
  orderbooks = started_at + intervals.orderbooks;
}

-- `max(0.0, min(deadlines.values()) - now)`: the subtraction stops at 0.
unfoldable pub sleep_time : Layers ℕ → ℕ → ℕ
sleep_time deadlines now = smallest deadlines - now

unfoldable pub is_due : ℕ → ℕ → Bool
is_due deadline now = leb deadline now

-- The loop body for one layer that is due: `elapsed_intervals` intervals are skipped at once.
unfoldable pub next_deadline : ℕ → ℕ → ℕ → ℕ
unfolding is_due
next_deadline deadline interval now =
    let elapsed_intervals = (now - deadline) / interval + 1 in
    if is_due deadline now then deadline + elapsed_intervals * interval else deadline

unfoldable pub due_layers : Layers ℕ → ℕ → Layers Bool
unfolding is_due
due_layers deadlines now = record {
  discovery = is_due deadlines.discovery now;
  markets = is_due deadlines.markets now;
  orderbooks = is_due deadlines.orderbooks now;
}

unfoldable pub next_deadlines : Layers ℕ → Layers ℕ → ℕ → Layers ℕ
unfolding next_deadline
next_deadlines deadlines intervals now = record {
  discovery = next_deadline deadlines.discovery intervals.discovery now;
  markets = next_deadline deadlines.markets intervals.markets now;
  orderbooks = next_deadline deadlines.orderbooks intervals.orderbooks now;
}

-- The two clocks, read after one sleep.
pub record Reading : Type 0 where
  pub monotonic : ℕ
  pub wall : Timestamp

-- What a run of the scheduler has made so far: a result for each cycle, in order.
pub record Progress {ℓ} (S : Type ℓ) : Type ℓ where
  pub results : List PipelineRunResult
  pub deadlines : Layers ℕ
  pub state : S

-- The `while True` loop, for the rounds whose clock readings are given. The intervals are in ticks.
unfoldable pub rounds {ℓ} :
    {S : Type ℓ} → Runners S → Layers ℕ → List Reading → Layers ℕ → S → Result (Progress S)
rounds runners intervals [] deadlines s =
    ok (record { results = []; deadlines = deadlines; state = s })
rounds runners intervals (reading ∷ later) deadlines s = do
  (result, c) ← run_cycle runners (due_layers deadlines reading.monotonic) scheduled reading.wall s
  rest ←
      rounds runners intervals later (next_deadlines deadlines intervals reading.monotonic) c.state
  ok (record rest { results = result ∷ rest.results })

unfoldable pub run_forever {ℓ} :
    {S : Type ℓ}
    → Runners S
    → (second : ℕ) → Layers ℕ
    → Timestamp
    → (started_at : ℕ) → List Reading
    → S
    → Result (Progress S)
run_forever runners second intervals generated_at started_at readings s = do
  (result, c) ← run_cycle runners (all_layers Bool.true) bootstrap generated_at s
  rest ←
      rounds runners (in_ticks second intervals) readings
        (first_deadlines (in_ticks second intervals) started_at) c.state
  ok (record rest { results = result ∷ rest.results })
