-- ===== src/Pipeline/Schedule/Deadlines.antt =====
-- The arithmetic of the deadlines: they stay ahead of the clock and never leave their grid.
use polymarket_market_discov.Base.{
  ℕ, ◌+◌, ◌-◌, ◌*◌, ◌/◌, ◌≤◌, ◌<◌, ◌≡◌, true, ◌||◌, ◌↔◌, arith, leb, if◌then◌else◌,
}
use polymarket_market_discov.Base.Result.{ok}
use polymarket_market_discov.Pipeline.{Layers}
use polymarket_market_discov.Pipeline.Schedule.{
  next_deadline, due_layers, next_deadlines, sleep_time, coordinator_intervals, in_ticks,
}

-- The next deadline: after the clock, at most one interval after it where the layer was due, a whole
-- number of intervals after the old one, and the old one where the layer was not due.
pub record IsNext (deadline interval now next : ℕ) : Type 0 where
  pub ahead : now < next
  pub near : deadline ≤ now → next ≤ now + interval
  pub skipped : ℕ
  pub on_grid : next ≡ deadline + skipped * interval
  pub kept : now < deadline → next ≡ deadline

pub next_deadline-IsNext :
    (deadline interval now : ℕ)
    → 0 < interval
    → IsNext deadline interval now (next_deadline deadline interval now)
unfolding next_deadline
next_deadline-IsNext deadline interval now h = record {
  ahead = ground arith;
  near = ground arith;
  skipped = if leb deadline now then (now - deadline) / interval + 1 else 0;
  on_grid = ground arith;
  kept = ground arith;
}

-- The intervals of a coordinator are positive.
pub record IsPositive (intervals : Layers ℕ) : Type 0 where
  pub discovery : 0 < intervals.discovery
  pub markets : 0 < intervals.markets
  pub orderbooks : 0 < intervals.orderbooks

-- The constructor accepts exactly the intervals of at least one second each.
pub coordinator_intervals_iff :
    (d m o : ℕ)
    → ((intervals : Layers ℕ) × (coordinator_intervals d m o ≡ ok intervals))
      ↔ IsPositive (record { discovery = d; markets = m; orderbooks = o })
unfolding coordinator_intervals
coordinator_intervals_iff d m o = (
  λ (intervals, h). ground arith,
  λ p. (record { discovery = d; markets = m; orderbooks = o }, ground arith),
)

pub coordinator_intervals-IsPositive :
    (d m o : ℕ) {intervals : Layers ℕ}
    → coordinator_intervals d m o ≡ ok intervals
    → IsPositive intervals
unfolding coordinator_intervals
coordinator_intervals-IsPositive d m o h = ground arith

pub in_ticks-IsPositive :
    (second : ℕ) (intervals : Layers ℕ)
    → 0 < second
    → IsPositive intervals
    → IsPositive (in_ticks second intervals)
in_ticks-IsPositive second intervals h p = record {
  discovery = grind (arith, p.discovery);
  markets = grind (arith, p.markets);
  orderbooks = grind (arith, p.orderbooks);
}

-- In a round that starts after a full sleep some layer is due; each due layer's deadline moves to
-- the first point of its grid after the clock, so that missed ticks make one run; and the deadline
-- of a layer that is not due stays.
pub round-IsNext :
    (deadlines intervals : Layers ℕ) (before now : ℕ)
    → IsPositive intervals
    → before + sleep_time deadlines before ≤ now
    → let due = due_layers deadlines now in
      let next = next_deadlines deadlines intervals now in
      (due.discovery || (due.markets || due.orderbooks) ≡ true)
      × IsNext deadlines.discovery intervals.discovery now next.discovery
      × IsNext deadlines.markets intervals.markets now next.markets
      × IsNext deadlines.orderbooks intervals.orderbooks now next.orderbooks
unfolding due_layers next_deadlines sleep_time
round-IsNext deadlines intervals before now p slept = (
  ground arith,
  next_deadline-IsNext _ _ now p.discovery,
  next_deadline-IsNext _ _ now p.markets,
  next_deadline-IsNext _ _ now p.orderbooks,
)
