-- ===== src/Pipeline/Schedule/Rounds.antt =====
-- Any number of rounds of the scheduler.
use polymarket_market_discov.Base.{
  ℕ, Bool, suc, ◌+◌, ◌*◌, ◌<◌, ◌≡◌, refl, List, [], ◌∷◌, length, arith,
}
use polymarket_market_discov.Base.Result.{ok}
use polymarket_market_discov.Core.Time.{Timestamp}
use polymarket_market_discov.Pipeline.{Layers, all_layers, bootstrap, scheduled, Runners}
use polymarket_market_discov.Pipeline.Cascade.{run_cycle-IsCascade}
use polymarket_market_discov.Pipeline.Schedule.{
  Reading, Progress, rounds, run_forever, first_deadlines, next_deadlines, due_layers, in_ticks,
}
use polymarket_market_discov.Pipeline.Schedule.Deadlines.{
  IsNext, IsPositive, next_deadline-IsNext, in_ticks-IsPositive,
}

-- `deadline` is a whole number of intervals, at least one, after `started_at`.
pub record OnGrid (started_at interval deadline : ℕ) : Type 0 where
  pub rounds : ℕ
  pub equation : deadline ≡ started_at + suc rounds * interval

pub record AllOnGrid (started_at : ℕ) (intervals deadlines : Layers ℕ) : Type 0 where
  pub discovery : OnGrid started_at intervals.discovery deadlines.discovery
  pub markets : OnGrid started_at intervals.markets deadlines.markets
  pub orderbooks : OnGrid started_at intervals.orderbooks deadlines.orderbooks

IsNext-OnGrid :
    (started_at interval deadline now next : ℕ)
    → OnGrid started_at interval deadline
    → IsNext deadline interval now next
    → OnGrid started_at interval next
IsNext-OnGrid started_at interval deadline now next g n = record {
  rounds = g.rounds + n.skipped;
  equation = omega (arith, g.equation, n.on_grid);
}

first_deadlines-AllOnGrid :
    (intervals : Layers ℕ) (started_at : ℕ)
    → AllOnGrid started_at intervals (first_deadlines intervals started_at)
unfolding first_deadlines
first_deadlines-AllOnGrid intervals started_at = record {
  discovery = record { rounds = 0; equation = omega arith };
  markets = record { rounds = 0; equation = omega arith };
  orderbooks = record { rounds = 0; equation = omega arith };
}

next_deadlines-AllOnGrid :
    (started_at now : ℕ) (intervals deadlines : Layers ℕ)
    → IsPositive intervals
    → AllOnGrid started_at intervals deadlines
    → AllOnGrid started_at intervals (next_deadlines deadlines intervals now)
unfolding next_deadlines
next_deadlines-AllOnGrid started_at now intervals deadlines p g = record {
  discovery =
      IsNext-OnGrid _ _ deadlines.discovery now _ g.discovery
        (next_deadline-IsNext _ _ now p.discovery);
  markets =
      IsNext-OnGrid _ _ deadlines.markets now _ g.markets (next_deadline-IsNext _ _ now p.markets);
  orderbooks =
      IsNext-OnGrid _ _ deadlines.orderbooks now _ g.orderbooks
        (next_deadline-IsNext _ _ now p.orderbooks);
}

-- What holds of the scheduler after the rounds of some readings.
pub record IsSteady {ℓ} {S : Type ℓ} (started_at : ℕ) (intervals : Layers ℕ) (cycles : ℕ)
    (p : Progress S) : Type 0 where
  pub all_ran : length p.results ≡ cycles
  pub grid : AllOnGrid started_at intervals p.deadlines

module _ {ℓ} {S : Type ℓ} (runners : Runners S) (intervals : Layers ℕ)
    (p : IsPositive intervals) where
  rounds-IsSteady :
      (started_at : ℕ) (readings : List Reading) (deadlines : Layers ℕ) (s : S)
      → AllOnGrid started_at intervals deadlines
      → (progress : Progress S) × (rounds runners intervals readings deadlines s ≡ ok progress)
        × IsSteady started_at intervals (length readings) progress
  unfolding rounds
  rounds-IsSteady started_at [] deadlines s g = (_, refl, record { all_ran = refl; grid = g })
  rounds-IsSteady started_at (reading ∷ later) deadlines s g =
      let (result, c, ran, _) =
        run_cycle-IsCascade runners (due_layers deadlines reading.monotonic) scheduled reading.wall
          s in
      let (rest, continued, steady) =
        rounds-IsSteady started_at later (next_deadlines deadlines intervals reading.monotonic)
          c.state (next_deadlines-AllOnGrid started_at reading.monotonic intervals deadlines p g) in
      (
        record rest { results = result ∷ rest.results },
        rw (ran, continued),
        record { all_ran = omega (arith, steady.all_ran); grid = steady.grid },
      )

-- The scheduler never stops by itself: with positive intervals, whatever the layers raise, it runs
-- the bootstrap cycle and one cycle for each round, and every deadline stays a whole number of
-- intervals, at least one, after the start.
pub run_forever-IsSteady {ℓ} :
    {S : Type ℓ} (runners : Runners S) (second : ℕ) (intervals : Layers ℕ)
    (generated_at : Timestamp) (started_at : ℕ) (readings : List Reading) (s : S)
    → 0 < second
    → IsPositive intervals
    → (progress : Progress S) × (run_forever runners second intervals generated_at started_at
          readings s
        ≡ ok progress)
      × IsSteady started_at (in_ticks second intervals) (length readings + 1) progress
unfolding run_forever
run_forever-IsSteady runners second intervals generated_at started_at readings s h p =
    let ticks = in_ticks second intervals in
    let (result, c, ran, _) =
      run_cycle-IsCascade runners (all_layers Bool.true) bootstrap generated_at s in
    let (rest, continued, steady) =
      rounds-IsSteady runners ticks (in_ticks-IsPositive second intervals h p) started_at readings
        (first_deadlines ticks started_at) c.state (first_deadlines-AllOnGrid ticks started_at) in
    (
      record rest { results = result ∷ rest.results },
      rw (ran, continued),
      record { all_ran = omega (arith, steady.all_ran); grid = steady.grid },
    )
