-- ===== src/Discovery/Service/Returned.antt =====
-- What the loop over the strategies in `discovery/service.py` returns.
use mathlib.Core.List.{append_assoc, append-nil}
use polymarket_market_discov.Base.{String, ◌≡◌, refl, sym, ◌∙◌, some, List, [], ◌∷◌, ◌++◌}
use polymarket_market_discov.Base.Result.{Result, ok, raise}
use polymarket_market_discov.Core.Models.{Database}
use polymarket_market_discov.Core.Time.{Timestamp}
use polymarket_market_discov.Discovery.Domain.{StrategyDiscoveryResult}
use polymarket_market_discov.Discovery.Service.{
  Strategy, LoopEnd, checked_result, with_result, after_discover, after_start, run_strategy,
  run_strategies,
}

-- One result for each strategy, in their order: what it has discovered, and the service has checked.
pub data AllReturned (t : Timestamp) : List Strategy → List StrategyDiscoveryResult → Type 0 where
  none_left : AllReturned t [] []
  one_more :
      {strategy : Strategy} {strategies : List Strategy} {result : StrategyDiscoveryResult}
      {results : List StrategyDiscoveryResult}
      → checked_result strategy (strategy.discover t) ≡ ok result
      → AllReturned t strategies results
      → AllReturned t (strategy ∷ strategies) (result ∷ results)

module _ (run_id : String) (started_at : Timestamp) where
  run_strategy-ok :
      (strategy : Strategy) (db : Database) (result : StrategyDiscoveryResult)
      → (run_strategy run_id started_at strategy db).0 ≡ ok result
      → checked_result strategy (strategy.discover started_at) ≡ ok result
  unfolding run_strategy
  run_strategy-ok strategy db result back = started _ back
    where
      completed :
          (found : StrategyDiscoveryResult) (end : Result (Unit {0}) × Database)
          → (with_result found end).0 ≡ ok result
          → ok found ≡ ok result
      completed found (ok u, db') h = h
      completed found (raise exc, db') h = cc

      discovered :
          (found : Result StrategyDiscoveryResult) (db' : Database)
          → (after_discover run_id started_at strategy found db').0 ≡ ok result
          → found ≡ ok result
      discovered (ok found) db' h = completed found _ h
      discovered (raise exc) db' h = cc

      started :
          (end : Result (Unit {0}) × Database)
          → (after_start run_id started_at strategy end).0 ≡ ok result
          → checked_result strategy (strategy.discover started_at) ≡ ok result
      started (ok u, db') h = discovered _ db' h
      started (raise exc, db') h = cc

  pub run_strategies-AllReturned :
      (strategies : List Strategy) (before all : List StrategyDiscoveryResult) (db : Database)
      → (run_strategies run_id started_at strategies before db).results ≡ ok all
      → (results : List StrategyDiscoveryResult) × (all ≡ before ++ results)
        × AllReturned started_at strategies results
  unfolding run_strategies
  run_strategies-AllReturned [] before all db back =
      let same : before ≡ all = cc in ([], sym same ∙ sym (append-nil before), none_left)
  run_strategies-AllReturned (strategy ∷ strategies) before all db back =
      go (λ result h. run_strategies-AllReturned strategies (before ++ result ∷ []) all _ h) _ refl
        back
    where
      go :
          ((result : StrategyDiscoveryResult)
            → (run_strategies run_id started_at strategies
                (before ++ result ∷ [])
                (run_strategy run_id started_at strategy db).1).results
              ≡ ok all
            → (results : List StrategyDiscoveryResult) × (all ≡ (before ++ result ∷ []) ++ results)
              × AllReturned started_at strategies results)
          → (next : Result StrategyDiscoveryResult)
          → (run_strategy run_id started_at strategy db).0 ≡ next
          → (elim next as (λ y. LoopEnd) [
            | ok result ↦
                run_strategies run_id started_at strategies
                  (before ++ result ∷ [])
                  (run_strategy run_id started_at strategy db).1
            | raise exc ↦ record {
              current_strategy = some strategy.name;
              results = raise exc;
              database = (run_strategy run_id started_at strategy db).1;
            }
          ]).results
            ≡ ok all
          → (results : List StrategyDiscoveryResult) × (all ≡ before ++ results)
            × AllReturned started_at (strategy ∷ strategies) results
      go later (raise exc) e h = cc
      go later (ok result) e h =
          let (rest, split, others) = later result h in
          (
            result ∷ rest,
            split ∙ append_assoc before (result ∷ []) rest,
            one_more (run_strategy-ok strategy db result e) others,
          )
