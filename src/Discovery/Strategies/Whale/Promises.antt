-- ===== src/Discovery/Strategies/Whale/Promises.antt =====
-- What the strategy's results promise to the service that runs it.
use polymarket_market_discov.Base.{
  ℕ, some, sym, String, ◌&&◌, List, [], ◌∷◌, map, ◌≡◌, refl, arith, ap, leb, eq_iff, Bool-cases,
  inl, inr,
}
use polymarket_market_discov.Base.Decimal.{leb_decimal}
use polymarket_market_discov.Base.Dict.{distinct, is_distinct, is_distinct-distinct}
use polymarket_market_discov.Base.Int.{scale}
use polymarket_market_discov.Base.Result.{Result, ok, is_ok, >>=-eq-ok, Result-cases}
use polymarket_market_discov.Base.Runtime.{Runtime}
use polymarket_market_discov.Base.Text.{codes, behind_0x}
use polymarket_market_discov.Core.Time.{Timestamp}
use polymarket_market_discov.Discovery.Domain.{
  StrategyDiscoveryResult, validate_unique_markets, condition_ids,
}
use polymarket_market_discov.Discovery.Service.{checked_result}
use polymarket_market_discov.Discovery.Strategies.Leaderboard.{
  fetch_leaderboard, select_intersection_wallets,
}
use polymarket_market_discov.Discovery.Strategies.Leaderboard.Bounds.{
  IsWallet, fetch_leaderboard_terminates,
}
use polymarket_market_discov.Discovery.Strategies.Paging.{finished}
use polymarket_market_discov.Discovery.Strategies.Positions.{
  Row, collect_single_wallet_positions, gather_positions, collect_wallet_positions,
  positions_request,
}
use polymarket_market_discov.Discovery.Strategies.Positions.Collected.{
  collect_wallet_positions_lem, collect_single_wallet_positions_terminates,
}
use polymarket_market_discov.Discovery.Strategies.Positions.Grouping.{
  ids, items_of, all_rows, observed,
}
use polymarket_market_discov.Discovery.Strategies.Rows.{DataApi}
use polymarket_market_discov.Discovery.Strategies.Whale.{
  whale_name, whale_result, whale_discover, whale_strategy,
}
use polymarket_market_discov.Polymarket.Params.{
  all_hex, is_address, current_positions_params, validated_positions, positions_constraints,
  parse_market, parse_event_id, validate_market, validate_event_id,
}

condition_ids-observed :
    (observed_at : Timestamp) (rows : List Row) (names : List String)
    → condition_ids (map (λ id. observed observed_at id (items_of id rows)) names) ≡ names
condition_ids-observed observed_at rows [] = refl
condition_ids-observed observed_at rows (name ∷ names) =
    ap (λ (l : List String). name ∷ l) (condition_ids-observed observed_at rows names)

validate_unique_markets-eq :
    (given result : StrategyDiscoveryResult)
    → validate_unique_markets given ≡ ok result
    → given ≡ result
unfolding validate_unique_markets
validate_unique_markets-eq given result accepted =
    elim (Bool-cases (is_distinct (condition_ids given.observations))) [
      | inl once ↦ let e = rw once at accepted in cc
      | inr twice ↦ let e = rw twice at accepted in cc
    ]

module _ (py : Runtime) (api : DataApi) where
  -- The two loops over pages end, whatever the API answers: the fuel of the leaderboard's loop, 42,
  -- and that of the positions' loop, 22, do not run out.
  pub loops_terminate :
      (order_by wallet : String)
      → ((result : Result (List String)) × (fetch_leaderboard py api order_by ≡ some result))
        × ((result : Result (List Row)) × (collect_single_wallet_positions py api wallet
              ≡ some result))
  loops_terminate order_by wallet = (
    fetch_leaderboard_terminates py api order_by,
    collect_single_wallet_positions_terminates py api wallet,
  )

  -- Where both leaderboards and the positions of the wallets on both are read, the discovery returns:
  -- its result has one observation for each market in which such a wallet has a position, in the
  -- order of the first positions, with the evidence of all of them, and the validator accepts it.
  pub whale_discover_lem :
      (generated_at : Timestamp) (pnl volume : List String) (results : List (List Row))
      → finished (fetch_leaderboard py api "PNL") ≡ ok pnl
      → finished (fetch_leaderboard py api "VOL") ≡ ok volume
      → gather_positions py api (select_intersection_wallets pnl volume) ≡ ok results
      → whale_discover py api generated_at
        ≡ ok (
            whale_result generated_at (
              map
                (λ id. observed generated_at id (items_of id (all_rows results)))
                (distinct (ids (all_rows results)))))
  unfolding whale_discover validate_unique_markets
  whale_discover_lem generated_at pnl volume results first second gathered =
      let rows = all_rows results in
      let once = is_distinct-distinct (ids rows) in
      rw first (
        rw second (
          rw
            (collect_wallet_positions_lem py api (select_intersection_wallets pnl volume)
              generated_at results gathered)
            (rw (condition_ids-observed generated_at rows (distinct (ids rows))) (rw once refl))))

  whale_discover-named :
      (generated_at : Timestamp) (result : StrategyDiscoveryResult)
      → whale_discover py api generated_at ≡ ok result
      → (result.strategy ≡ whale_name) × (result.strategy_version ≡ "v1")
  unfolding whale_discover
  whale_discover-named generated_at result returned =
      let (pnl, _, second) = >>=-eq-ok (finished (fetch_leaderboard py api "PNL")) _ returned in
      let (volume, _, third) = >>=-eq-ok (finished (fetch_leaderboard py api "VOL")) _ second in
      let (observations, _, last) =
        >>=-eq-ok
          (collect_wallet_positions py api (select_intersection_wallets pnl volume) generated_at) _
          third in
      let same = validate_unique_markets-eq (whale_result generated_at observations) result last in
      (
        ap (λ (r : StrategyDiscoveryResult). r.strategy) (sym same),
        ap (λ (r : StrategyDiscoveryResult). r.strategy_version) (sym same),
      )

  -- The service's tests of a strategy's result pass every result of this strategy as it is, and
  -- every exception too.
  pub checked_result-whale_strategy :
      (begun_at ended_at generated_at : Timestamp)
      → checked_result
          (whale_strategy py api begun_at ended_at)
          (whale_discover py api generated_at)
        ≡ whale_discover py api generated_at
  unfolding checked_result
  checked_result-whale_strategy begun_at ended_at generated_at =
      elim (Result-cases (whale_discover py api generated_at)) [
        | inl (exc, e) ↦ rw e refl
        | inr (result, e) ↦
            let (named, versioned) = whale_discover-named generated_at result e in
            rw e (
              ground
                (arith, eq_iff result.strategy whale_name, eq_iff result.strategy_version "v1"))
      ]

  -- Where `upper` keeps texts in capitals, the parameters that the strategy builds for a wallet of
  -- its leaderboards are accepted exactly where the offset is at most 10,000, which is the test of
  -- its loop, and the wallet has only hexadecimal digits behind its "0x".
  pub positions_request_accepted :
      (wallet : String) (offset : ℕ)
      → IsWallet wallet
      → py.upper "CURRENT" ≡ "CURRENT"
      → py.upper "DESC" ≡ "DESC"
      → is_ok (current_positions_params py (positions_request py api wallet offset))
        ≡ all_hex (codes (behind_0x wallet)) && leb offset 10000
  unfolding current_positions_params validated_positions positions_constraints parse_event_id
      parse_market validate_market validate_event_id is_address leb_decimal scale
  positions_request_accepted wallet offset (long, begins) current descending =
      rw current (rw descending (rw long (rw begins (ground arith))))
