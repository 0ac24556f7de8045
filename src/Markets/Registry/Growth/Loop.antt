-- ===== src/Markets/Registry/Growth/Loop.antt =====
-- All rounds of the loop over the payloads: `complete_market_sync_run` in `markets/repository.py`.
use polymarket_market_discov.Base.{
  String, ◌≡◌, refl, ◌∙◌, ap, Bool, true, false, Option, List, [], ◌∷◌, ◌++◌, map, arith, eq_iff,
  ◌==◌, any_of,
}
use mathlib.Core.List.{map-append}
use polymarket_market_discov.Base.Dict.{contains, is_distinct, contains-append}
use polymarket_market_discov.Base.Result.{ok, >>=-eq-ok}
use polymarket_market_discov.Core.Models.{MarketDiscoveryObservation, PolymarketMarket}
use polymarket_market_discov.Core.Time.{Timestamp}
use polymarket_market_discov.Markets.Domain.{PolymarketMarketPayload}
use polymarket_market_discov.Markets.Retrieval.{condition_ids}
use polymarket_market_discov.Markets.Registry.{Registry, is_market, sync_market, sync_markets}
use polymarket_market_discov.Markets.Registry.Growth.{
  births, observed_birth, new_payloads, Growth, Growth-refl, Growth-trans,
}
use polymarket_market_discov.Markets.Registry.Growth.Round.{sync_market-Growth}

abbrev birth_keys : List (String × Option Timestamp) → List String
birth_keys bs = map (λ b. b.0) bs

any_of-births :
    (k : String) (markets : List PolymarketMarket)
    → any_of (is_market k) markets ≡ contains k (birth_keys (births markets))
any_of-births k [] = refl
any_of-births k (m ∷ ms) = ground (arith, any_of-births k ms)

new_payloads-cons :
    (markets : List PolymarketMarket) (p : PolymarketMarketPayload)
    (ps : List PolymarketMarketPayload)
    → new_payloads markets (p ∷ ps) ≡ new_payloads markets (p ∷ []) ++ new_payloads markets ps
new_payloads-cons markets p ps = ground arith

-- Rows that agree about every identifier but `id` agree about payloads without it.
new_payloads-agree :
    (id : String) (old new : List PolymarketMarket)
    → ((k : String) → (id == k) ≡ false → any_of (is_market k) new ≡ any_of (is_market k) old)
    → (ps : List PolymarketMarketPayload) → contains id (condition_ids ps) ≡ false
    → new_payloads new ps ≡ new_payloads old ps
new_payloads-agree id old new agree [] absent = refl
new_payloads-agree id old new agree (p ∷ ps) absent = ground (
  arith,
  agree p.condition_id,
  eq_iff id p.condition_id,
  eq_iff p.condition_id id,
  new_payloads-agree id old new agree ps,
)

module _ (run_id : String) (observations : List MarketDiscoveryObservation) (checked_at : Timestamp)
    (known_run : Bool) where
  other_market-same :
      (p : PolymarketMarketPayload) (r r' : Registry)
      → Growth run_id observations checked_at (new_payloads r.markets (p ∷ [])) (p ∷ []) r r'
      → (k : String) → (p.condition_id == k) ≡ false
      → any_of (is_market k) r'.markets ≡ any_of (is_market k) r.markets
  other_market-same p r r' grown k other =
      any_of-births k r'.markets
      ∙ ap (λ bs. contains k (birth_keys bs)) grown.markets_grow
      ∙ ap (contains k) (
          map-append (λ (b : String × Option Timestamp). b.0) (births r.markets)
            (map (observed_birth observations) (new_payloads r.markets (p ∷ []))))
      ∙ contains-append k (birth_keys (births r.markets))
          (birth_keys (map (observed_birth observations) (new_payloads r.markets (p ∷ []))))
      ∙ ground (arith, any_of-births k r.markets)

  pub sync_markets-Growth :
      (payloads : List PolymarketMarketPayload) (r result : Registry)
      → is_distinct (condition_ids payloads) ≡ true
      → sync_markets run_id known_run observations checked_at payloads r ≡ ok result
      → Growth run_id observations checked_at (new_payloads r.markets payloads) payloads r result
  unfolding sync_markets
  sync_markets-Growth [] r result d h =
      let e : result ≡ r = cc in rw e (Growth-refl run_id observations checked_at r)
  sync_markets-Growth (p ∷ ps) r result d h =
      let (next, first, rest) =
        >>=-eq-ok (sync_market run_id known_run observations checked_at p r) _ h in
      let one = sync_market-Growth run_id observations checked_at known_run p r next first in
      let more = sync_markets-Growth ps next result (ground arith) rest in
      let same =
        new_payloads-agree p.condition_id r.markets next.markets (other_market-same p r next one) ps
          (ground arith) in
      rw (new_payloads-cons r.markets p ps) (
        Growth-trans run_id observations checked_at _ (p ∷ []) _ ps r next result one
          (rw same at more))
