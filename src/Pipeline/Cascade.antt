-- ===== src/Pipeline/Cascade.antt =====
-- Which layers a cycle runs, with which trigger, and in which order.
use polymarket_market_discov.Base.{
  String, ◌≡◌, Bool, false, ◌&&◌, ◌||◌, Option, none, some, arith, if◌then◌else◌, is_some,
}
use polymarket_market_discov.Base.Result.{ok, Exec}
use polymarket_market_discov.Core.Time.{Timestamp}
use polymarket_market_discov.Discovery.Domain.{DiscoveryRunResult}
use polymarket_market_discov.Markets.Domain.{MarketRegistrySyncResult}
use polymarket_market_discov.Pipeline.{
  Layers, LayerTrigger, cascade, Runners, Cycle, PipelineRunResult, start_cycle, completed_with,
  discovery_step, markets_step, orderbooks_step, run_cycle, finish_cycle, after_discovery,
  after_markets, after_orderbooks, run_layer,
}

-- A layer is due exactly when it has a trigger.
record IsTriggered {ℓ} {S : Type ℓ} (c : Cycle S) : Type 0 where
  discovery : c.due.discovery ≡ is_some c.triggers.discovery
  markets : c.due.markets ≡ is_some c.triggers.markets
  orderbooks : c.due.orderbooks ≡ is_some c.triggers.orderbooks

module _ {ℓ} {S : Type ℓ} (runners : Runners S) (now : Timestamp) where
  -- The steps without the look-up of the trigger.
  discovery_turn : Cycle S → Cycle S
  discovery_turn c = if c.due.discovery then after_discovery runners now c else c

  markets_turn : Cycle S → Cycle S
  markets_turn c = if c.due.markets then after_markets runners now c else c

  orderbooks_turn : Cycle S → Cycle S
  orderbooks_turn c = if c.due.orderbooks then after_orderbooks runners now c else c

  discovery_turn-IsTriggered : (c : Cycle S) → IsTriggered c → IsTriggered (discovery_turn c)
  unfolding discovery_turn after_discovery
  discovery_turn-IsTriggered c t = ground arith

  markets_turn-IsTriggered : (c : Cycle S) → IsTriggered c → IsTriggered (markets_turn c)
  unfolding markets_turn after_markets
  markets_turn-IsTriggered c t = ground arith

  discovery_step-turn :
      (c : Cycle S) → IsTriggered c → discovery_step runners now c ≡ ok (discovery_turn c)
  unfolding discovery_step discovery_turn
  discovery_step-turn c t = ground arith

  markets_step-turn :
      (c : Cycle S) → IsTriggered c → markets_step runners now c ≡ ok (markets_turn c)
  unfolding markets_step markets_turn
  markets_step-turn c t = ground arith

  orderbooks_step-turn :
      (c : Cycle S) → IsTriggered c → orderbooks_step runners now c ≡ ok (orderbooks_turn c)
  unfolding orderbooks_step orderbooks_turn
  orderbooks_step-turn c t = ground arith

-- What becomes of a layer: one that ran has a result or an error and not both, any other neither.
abbrev pub OneOutcome {κ} : {A : Type κ} → Option LayerTrigger → Option A → Option String → Type 0
OneOutcome trigger result error =
    (is_some result && is_some error ≡ false) × (is_some result || is_some error ≡ is_some trigger)

-- The triggers of a cycle, and that each layer with a trigger ends in one way.
pub record IsCascade (due : Layers Bool) (default : LayerTrigger) (r : PipelineRunResult)
    : Type 0 where
  pub discovery_trigger : r.triggers.discovery ≡ (if due.discovery then some default else none)
  pub markets_trigger : r.triggers.markets ≡ (
      if due.markets
      then some default
      else if completed_with (λ (d : DiscoveryRunResult). d.status) r.discovery
      then some cascade
      else none)
  pub orderbooks_trigger : r.triggers.orderbooks ≡ (
      if due.orderbooks
      then some default
      else if completed_with (λ (m : MarketRegistrySyncResult). m.status) r.markets
      then some cascade
      else none)
  pub discovery_outcome : OneOutcome r.triggers.discovery r.discovery r.errors.discovery
  pub markets_outcome : OneOutcome r.triggers.markets r.markets r.errors.markets
  pub orderbooks_outcome : OneOutcome r.triggers.orderbooks r.orderbooks r.errors.orderbooks

-- The state after a runner, if its layer has a trigger.
abbrev pub effect {ℓ κ} : {S : Type ℓ} {A : Type κ} → Option LayerTrigger → Exec S A → S → S
effect none runner s = s
effect (some trigger) runner s = (runner s).1

module _ {ℓ} {S : Type ℓ} (runners : Runners S) (due : Layers Bool) (default : LayerTrigger)
    (now : Timestamp) (s : S) where
  final : Cycle S
  final =
      orderbooks_turn runners now
        (markets_turn runners now (discovery_turn runners now (start_cycle due default s)))

  start_cycle-IsTriggered : IsTriggered (start_cycle due default s)
  start_cycle-IsTriggered = ground arith

  run_cycle-final : run_cycle runners due default now s ≡ ok (finish_cycle now final, final)
  unfolding run_cycle final
  run_cycle-final =
      let t0 = start_cycle-IsTriggered in
      let t1 = discovery_turn-IsTriggered runners now _ t0 in
      let t2 = markets_turn-IsTriggered runners now _ t1 in
      rw (
        discovery_step-turn runners now (start_cycle due default s) t0,
        markets_step-turn runners now _ t1,
        orderbooks_step-turn runners now _ t2,
      )

  -- The shape of the last values of the variables, layer by layer.
  final-IsCascade : IsCascade due default (finish_cycle now final)
  unfolding final discovery_turn markets_turn orderbooks_turn after_discovery after_markets
      after_orderbooks run_layer
  final-IsCascade = record {
    discovery_trigger = ground arith;
    markets_trigger = ground arith;
    orderbooks_trigger = ground arith;
    discovery_outcome = ground arith;
    markets_outcome = ground arith;
    orderbooks_outcome = ground arith;
  }

  final-effects :
      final.state
      ≡ effect final.triggers.orderbooks (runners.orderbooks now) (
          effect final.triggers.markets
            (runners.markets now)
            (effect final.triggers.discovery (runners.discovery now) s))
  unfolding final discovery_turn markets_turn orderbooks_turn after_discovery after_markets
      after_orderbooks run_layer
  final-effects = ground arith

-- A cycle always returns a result: no runner's exception leaves it and no trigger is missing. A due
-- layer runs with the cycle's trigger; Markets also runs, as a cascade, after a completed Discovery,
-- and Orderbooks after a completed Markets; no other layer runs. A layer that runs ends in a result
-- or in an error text and not both, and any other layer in neither.
pub run_cycle-IsCascade {ℓ} :
    {S : Type ℓ} (runners : Runners S) (due : Layers Bool) (default : LayerTrigger)
    (now : Timestamp) (s : S)
    → (r : PipelineRunResult) × (c : Cycle S) × (run_cycle runners due default now s ≡ ok (r, c))
      × IsCascade due default r
run_cycle-IsCascade runners due default now s =
    let c = final runners due default now s in
    (
      finish_cycle now c,
      c,
      run_cycle-final runners due default now s,
      final-IsCascade runners due default now s,
    )

-- The state that a cycle leaves is that of the runners with a trigger, each called once, in the
-- order Discovery, Markets, Orderbooks. What a runner wrote before it raised stays written.
pub run_cycle-effects {ℓ} :
    {S : Type ℓ} (runners : Runners S) (due : Layers Bool) (default : LayerTrigger)
    (now : Timestamp) (s : S) (r : PipelineRunResult) (c : Cycle S)
    → run_cycle runners due default now s ≡ ok (r, c)
    → c.state
      ≡ effect r.triggers.orderbooks (runners.orderbooks now) (
          effect r.triggers.markets
            (runners.markets now)
            (effect r.triggers.discovery (runners.discovery now) s))
run_cycle-effects runners due default now s r c h =
    cc (h, run_cycle-final runners due default now s, final-effects runners due default now s)

pub run_cycle-finish {ℓ} :
    {S : Type ℓ} (runners : Runners S) (due : Layers Bool) (default : LayerTrigger)
    (now : Timestamp) (s : S) (r : PipelineRunResult) (c : Cycle S)
    → run_cycle runners due default now s ≡ ok (r, c)
    → r ≡ finish_cycle now c
run_cycle-finish runners due default now s r c h = cc (h, run_cycle-final runners due default now s)
