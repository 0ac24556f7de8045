-- ===== src/Discovery/Strategies/Whale.antt =====
-- `WhaleLeaderboardIntersectionStrategy` of `discovery/strategies/whale_leaderboard.py`, as it is
-- handed to the service.
pub mod Promises
use polymarket_market_discov.Base.{
  ℕ, String, Bool, true, false, not, ◌&&◌, ◌||◌, List, [], ◌∷◌, map, length, keep_if,
  length-keep_if-le, All, ◌≤◌, ◌≡◌, refl, arith, ap, leb, ◌==◌, eq_iff, if◌then◌else◌, Bool-cases,
  inl, inr,
}
use polymarket_market_discov.Base.Decimal.{leb_decimal}
use polymarket_market_discov.Base.Dict.{contains, distinct, is_distinct, is_distinct-distinct}
use polymarket_market_discov.Base.Int.{scale}
use polymarket_market_discov.Base.Result.{Result, ok, raise, is_ok, >>=-eq-ok, ◌>>=◌, ◌>>◌}
use polymarket_market_discov.Base.Runtime.{Runtime}
use polymarket_market_discov.Base.Text.{codes, behind_0x}
use polymarket_market_discov.Core.Time.{Timestamp}
use polymarket_market_discov.Discovery.Domain.{
  MarketDiscoveryObservationPayload, StrategyDiscoveryResult, validate_unique_markets,
  condition_ids,
}
use polymarket_market_discov.Discovery.Service.{Strategy, checked_result}
use polymarket_market_discov.Discovery.Strategies.Leaderboard.{
  fetch_leaderboard, select_intersection_wallets,
}
use polymarket_market_discov.Discovery.Strategies.Leaderboard.Bounds.{IsFound, IsWallet}
use polymarket_market_discov.Discovery.Strategies.Paging.{finished}
use polymarket_market_discov.Discovery.Strategies.Positions.{
  Row, gather_positions, collect_wallet_positions, positions_request,
}
use polymarket_market_discov.Discovery.Strategies.Positions.Collected.{collect_wallet_positions_lem}
use polymarket_market_discov.Discovery.Strategies.Positions.Grouping.{
  ids, items_of, all_rows, observed,
}
use polymarket_market_discov.Discovery.Strategies.Rows.{DataApi}
use polymarket_market_discov.Polymarket.Params.{all_hex, current_positions_params}

abbrev pub whale_name : String
whale_name = "whale_leaderboard_intersection"

abbrev pub whale_result :
    Timestamp → List MarketDiscoveryObservationPayload → StrategyDiscoveryResult
whale_result generated_at observations = record {
  strategy = whale_name;
  strategy_version = "v1";
  observations = observations;
  generated_at = generated_at;
}

module _ (py : Runtime) (api : DataApi) where
  unfoldable pub whale_discover : Timestamp → Result StrategyDiscoveryResult
  unfolding fetch_leaderboard collect_wallet_positions select_intersection_wallets
      validate_unique_markets
  whale_discover generated_at = do
    pnl_wallets ← finished (fetch_leaderboard py api "PNL")
    volume_wallets ← finished (fetch_leaderboard py api "VOL")
    observations ←
        collect_wallet_positions py api (select_intersection_wallets pnl_wallets volume_wallets)
          generated_at
    validate_unique_markets (whale_result generated_at observations)

  -- The strategy, with the readings of the clock round its discovery.
  abbrev pub whale_strategy : Timestamp → Timestamp → Strategy
  whale_strategy begun_at ended_at = record {
    name = whale_name;
    version = "v1";
    discover = whale_discover;
    begun_at = begun_at;
    ended_at = ended_at;
  }
