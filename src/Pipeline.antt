-- ===== src/Pipeline.antt =====
-- `pipeline/coordinator.py`: which layers run in a cycle, and when cycles are due.
pub mod Cascade
pub mod Verdict
pub mod Schedule
pub mod Services
use polymarket_market_discov.Base.{
  ℕ, String, Bool, true, false, not, ◌&&◌, ◌||◌, Option, none, some, List, [], ◌∷◌, ◌++◌, map,
  if◌then◌else◌, is_some,
}
use polymarket_market_discov.Base.Result.{Exception, Result, ok, raise, key_error, str, Exec, ◌>>=◌}
use polymarket_market_discov.Core.Status.{Status, completed, partial, failed, skipped, status_eq}
use polymarket_market_discov.Core.Time.{Timestamp}
use polymarket_market_discov.Discovery.Domain.{DiscoveryRunResult}
use polymarket_market_discov.Markets.Domain.{MarketRegistrySyncResult}
use polymarket_market_discov.Orderbooks.Domain.{OrderBookCollectionResult}

pub data LayerName : Type 0 where
  discovery markets orderbooks : LayerName

pub data LayerTrigger : Type 0 where
  manual bootstrap scheduled cascade : LayerTrigger

-- A value for each layer: the set `due`, and the dictionaries `triggers` and `errors`, whose order
-- the program never uses.
pub record Layers {ℓ} (A : Type ℓ) : Type ℓ where
  pub discovery : A
  pub markets : A
  pub orderbooks : A

abbrev pub all_layers {ℓ} : {A : Type ℓ} → A → Layers A
all_layers a = record { discovery = a; markets = a; orderbooks = a }

pub record PipelineRunResult : Type 0 where
  pub status : Status
  pub discovery : Option DiscoveryRunResult
  pub markets : Option MarketRegistrySyncResult
  pub orderbooks : Option OrderBookCollectionResult
  pub triggers : Layers (Option LayerTrigger)
  pub errors : Layers (Option String)
  pub generated_at : Timestamp

-- The runners of the three layers, over the state `S` that they read and write.
pub record Runners {ℓ} (S : Type ℓ) : Type ℓ where
  pub discovery : Timestamp → Exec S DiscoveryRunResult
  pub markets : Timestamp → Exec S MarketRegistrySyncResult
  pub orderbooks : Timestamp → Exec S OrderBookCollectionResult

abbrev pub has_status : Status → List Status → Bool
has_status s [] = false
has_status s (x ∷ xs) = status_eq x s || has_status s xs

abbrev pub all_skipped : List Status → Bool
all_skipped [] = true
all_skipped (x ∷ xs) = status_eq x skipped && all_skipped xs

abbrev pub status_list {ℓ} : {A : Type ℓ} → (A → Status) → Option A → List Status
status_list status none = []
status_list status (some result) = status result ∷ []

abbrev pub is_nonempty {ℓ} : {A : Type ℓ} → List A → Bool
is_nonempty [] = false
is_nonempty (x ∷ xs) = true

-- `bool(errors)`
abbrev pub any_error : Layers (Option String) → Bool
any_error errors = is_some errors.discovery || is_some errors.markets || is_some errors.orderbooks

-- `_aggregate_status`, from the statuses of the results and `bool(errors)`.
unfoldable pub aggregate_status : List Status → Bool → Status
aggregate_status statuses has_errors =
    let has_success = has_status completed statuses || has_status partial statuses in
    let has_failure = has_errors || has_status failed statuses || has_status partial statuses in
    if has_success && has_failure
    then partial
    else if has_failure
    then failed
    else if is_nonempty statuses && all_skipped statuses
    then skipped
    else completed

-- `_run_layer`: the result or none, the text of the error or none, and the state.
unfoldable pub run_layer {ℓ κ} :
    {S : Type ℓ} {A : Type κ}
    → Exec S A
    → S
    → record { result : Option A; error : Option String; state : S }
run_layer runner s =
    let (outcome, s') = runner s in
    elim outcome [
      | ok result ↦ record { result = some result; error = none; state = s' }
      | raise exc ↦ record { result = none; error = some (str exc); state = s' }
    ]

abbrev pub completed_with {ℓ} : {A : Type ℓ} → (A → Status) → Option A → Bool
completed_with status none = false
completed_with status (some result) = status_eq (status result) completed

-- The variables of `_run_cycle`, and the state behind the runners.
pub record Cycle {ℓ} (S : Type ℓ) : Type ℓ where
  pub due : Layers Bool
  pub triggers : Layers (Option LayerTrigger)
  pub errors : Layers (Option String)
  pub discovery : Option DiscoveryRunResult
  pub markets : Option MarketRegistrySyncResult
  pub orderbooks : Option OrderBookCollectionResult
  pub state : S

module _ {ℓ} {S : Type ℓ} where
  abbrev pub start_cycle : Layers Bool → LayerTrigger → S → Cycle S
  start_cycle due default s = record {
    due = due;
    triggers = record {
      discovery = if due.discovery then some default else none;
      markets = if due.markets then some default else none;
      orderbooks = if due.orderbooks then some default else none;
    };
    errors = all_layers none;
    discovery = none;
    markets = none;
    orderbooks = none;
    state = s;
  }

  -- The result of a layer is stored, and a completed one makes the next layer due.
  unfoldable pub after_discovery : Runners S → Timestamp → Cycle S → Cycle S
  after_discovery runners now c =
      let r = run_layer (runners.discovery now) c.state in
      let next = completed_with (λ (d : DiscoveryRunResult). d.status) r.result in
      record c {
        discovery = r.result;
        errors = record c.errors { discovery = r.error };
        triggers = record c.triggers {
          markets = if next && not c.due.markets then some cascade else c.triggers.markets;
        };
        due = record c.due { markets = c.due.markets || next };
        state = r.state;
      }

  unfoldable pub after_markets : Runners S → Timestamp → Cycle S → Cycle S
  after_markets runners now c =
      let r = run_layer (runners.markets now) c.state in
      let next = completed_with (λ (m : MarketRegistrySyncResult). m.status) r.result in
      record c {
        markets = r.result;
        errors = record c.errors { markets = r.error };
        triggers = record c.triggers {
          orderbooks = if next && not c.due.orderbooks then some cascade else c.triggers.orderbooks;
        };
        due = record c.due { orderbooks = c.due.orderbooks || next };
        state = r.state;
      }

  unfoldable pub after_orderbooks : Runners S → Timestamp → Cycle S → Cycle S
  after_orderbooks runners now c =
      let r = run_layer (runners.orderbooks now) c.state in
      record c {
        orderbooks = r.result;
        errors = record c.errors { orderbooks = r.error };
        state = r.state;
      }

  -- `triggers[layer]` raises KeyError where the layer has no trigger.
  abbrev pub in_turn :
      Bool → Option LayerTrigger → String → Cycle S → (Cycle S → Cycle S) → Result (Cycle S)
  in_turn false trigger layer c after = ok c
  in_turn true none layer c after = raise (key_error layer)
  in_turn true (some trigger) layer c after = ok (after c)

  unfoldable pub discovery_step : Runners S → Timestamp → Cycle S → Result (Cycle S)
  discovery_step runners now c =
      in_turn c.due.discovery c.triggers.discovery "discovery" c (after_discovery runners now)

  unfoldable pub markets_step : Runners S → Timestamp → Cycle S → Result (Cycle S)
  markets_step runners now c =
      in_turn c.due.markets c.triggers.markets "markets" c (after_markets runners now)

  unfoldable pub orderbooks_step : Runners S → Timestamp → Cycle S → Result (Cycle S)
  orderbooks_step runners now c =
      in_turn c.due.orderbooks c.triggers.orderbooks "orderbooks" c (after_orderbooks runners now)

  abbrev pub results_of : Cycle S → List Status
  results_of c =
      status_list (λ (d : DiscoveryRunResult). d.status) c.discovery
      ++ (status_list (λ (m : MarketRegistrySyncResult). m.status) c.markets
          ++ status_list (λ (o : OrderBookCollectionResult). o.status) c.orderbooks)

  abbrev pub finish_cycle : Timestamp → Cycle S → PipelineRunResult
  finish_cycle generated_at c = record {
    status = aggregate_status (results_of c) (any_error c.errors);
    discovery = c.discovery;
    markets = c.markets;
    orderbooks = c.orderbooks;
    triggers = c.triggers;
    errors = c.errors;
    generated_at = generated_at;
  }

  -- `_run_cycle`: its result, and the last values of its variables.
  unfoldable pub run_cycle :
      Runners S → Layers Bool → LayerTrigger → Timestamp → S → Result (PipelineRunResult × Cycle S)
  run_cycle runners due default generated_at s = do
    c1 ← discovery_step runners generated_at (start_cycle due default s)
    c2 ← markets_step runners generated_at c1
    c3 ← orderbooks_step runners generated_at c2
    ok (finish_cycle generated_at c3, c3)

  unfoldable pub run_once : Runners S → Timestamp → S → Result (PipelineRunResult × Cycle S)
  run_once runners = run_cycle runners (all_layers true) manual
