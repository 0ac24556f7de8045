-- ===== src/Samples/Strategies.antt =====
-- Tests of the strategy of the two leaderboards, and of the registry of the strategies.
use polymarket_market_discov.Base.{String, ◌&&◌, some, List, [], ◌∷◌, ◌≡◌, refl, ap, leb}
use polymarket_market_discov.Base.Decimal.{leb_decimal}
use polymarket_market_discov.Base.Int.{scale}
use polymarket_market_discov.Base.Json.{string, list, dict, nil, cons, Fields, field, end}
use polymarket_market_discov.Base.Result.{Result, ok, is_ok}
use polymarket_market_discov.Base.Text.{codes, behind_0x}
use polymarket_market_discov.Discovery.Domain.{DiscoveryEvidenceItem}
use polymarket_market_discov.Discovery.Registry.{Factories, strategy_factories}
use polymarket_market_discov.Discovery.Service.{checked_result}
use polymarket_market_discov.Discovery.Strategies.Leaderboard.{
  fetch_leaderboard, leaderboard_round, read_wallets, select_intersection_wallets,
}
use polymarket_market_discov.Discovery.Strategies.Leaderboard.Bounds.{
  IsFound, fetch_leaderboard-IsFound,
}
use polymarket_market_discov.Discovery.Strategies.Paging.{finished}
use polymarket_market_discov.Discovery.Strategies.Positions.{
  Row, gather_positions, collect_single_wallet_positions, positions_round, positions_request,
  read_positions, normalize_position_evidence, evidence_data, dump_evidence,
}
use polymarket_market_discov.Discovery.Strategies.Positions.Grouping.{observed}
use polymarket_market_discov.Discovery.Strategies.Rows.{
  DataApi, required_string, required_decimal, parse_leaderboard_wallet,
}
use polymarket_market_discov.Discovery.Strategies.Whale.{
  whale_result, whale_discover, whale_strategy,
}
use polymarket_market_discov.Discovery.Strategies.Whale.Promises.{
  loops_terminate, whale_discover_lem, checked_result-whale_strategy, positions_request_accepted,
}
use polymarket_market_discov.Polymarket.Params.{
  all_hex, current_positions_params, validated_positions, positions_constraints, is_address,
  parse_event_id, parse_market, validate_market, validate_event_id,
}
use polymarket_market_discov.Polymarket.Requests.{leaderboard_params}
use polymarket_market_discov.Samples.{py}

abbrev wallet : String
wallet = "0xaaaaaaaaaaaaaaaaaaaaaaaaaaaaaaaaaaaaaaaa"

abbrev position : Fields
position = field "conditionId" (string "c9") (
    field "asset" (string "t1") (
      field "oppositeAsset" (string "t2") (
        field "outcome" (string "Yes") (
          field "oppositeOutcome" (string "No")
            (field "size" (string "0.4") (field "currentValue" (string "0.6") end))))))

-- An API with one wallet on both leaderboards, which has two positions in one market.
abbrev pub data_api : DataApi
data_api = record {
  get_leaderboard = λ params. ok (list (cons (dict (field "proxyWallet" (string wallet) end)) nil));
  get_current_positions = λ params. ok (list (cons (dict position) (cons (dict position) nil)));
}

pnl_read : fetch_leaderboard py data_api "PNL" ≡ some (ok (wallet ∷ []))
unfolding fetch_leaderboard leaderboard_round leaderboard_params read_wallets
    parse_leaderboard_wallet required_string
pnl_read = refl

volume_read : fetch_leaderboard py data_api "VOL" ≡ some (ok (wallet ∷ []))
unfolding fetch_leaderboard leaderboard_round leaderboard_params read_wallets
    parse_leaderboard_wallet required_string
volume_read = refl

fetch_leaderboard-IsFound_example : IsFound (wallet ∷ [])
fetch_leaderboard-IsFound_example =
    fetch_leaderboard-IsFound py data_api "PNL" (wallet ∷ []) pnl_read

loops_terminate_example :
    ((result : Result (List String)) × (fetch_leaderboard py data_api "PNL" ≡ some result))
    × ((result : Result (List Row)) × (collect_single_wallet_positions py data_api wallet
          ≡ some result))
loops_terminate_example = loops_terminate py data_api "PNL" wallet

abbrev evidence : DiscoveryEvidenceItem
evidence = record {
  kind = "whale_position";
  source = "polymarket_data_api.current_positions";
  payload = field "proxy_wallet" (string wallet) (
      field "outcome_token_id" (string "t1") (
        field "opposite_token_id" (string "t2") (
          field "outcome" (string "Yes") (
            field "opposite_outcome" (string "No") (
              field "position_size" (string "0.x") (
                field "current_value" (string "0.x")
                  (field "raw_position" (dict position) end)))))));
}

abbrev gathered : List (List Row)
gathered = (("c9", evidence) ∷ ("c9", evidence) ∷ []) ∷ []

positions_read : gather_positions py data_api (wallet ∷ []) ≡ ok gathered
unfolding gather_positions positions_round read_positions normalize_position_evidence evidence_data
    dump_evidence required_string required_decimal current_positions_params validated_positions
    positions_constraints is_address parse_event_id parse_market validate_market validate_event_id
    leb_decimal scale
positions_read = refl

selected : select_intersection_wallets (wallet ∷ []) (wallet ∷ []) ≡ wallet ∷ []
unfolding select_intersection_wallets
selected = refl

whale_discover_lem_example :
    whale_discover py data_api 5
    ≡ ok (whale_result 5 (observed 5 "c9" (evidence ∷ evidence ∷ []) ∷ []))
whale_discover_lem_example =
    whale_discover_lem py data_api 5 (wallet ∷ []) (wallet ∷ []) gathered (ap finished pnl_read)
      (ap finished volume_read) (rw selected positions_read)

checked_result-whale_strategy_example :
    checked_result (whale_strategy py data_api 4 6) (whale_discover py data_api 5)
    ≡ whale_discover py data_api 5
checked_result-whale_strategy_example = checked_result-whale_strategy py data_api 4 6 5

positions_request_accepted_example :
    is_ok (current_positions_params py (positions_request py data_api wallet 10000))
    ≡ all_hex (codes (behind_0x wallet)) && leb 10000 10000
positions_request_accepted_example =
    positions_request_accepted py data_api wallet 10000 (refl, refl) refl refl

abbrev factories : Factories
factories = strategy_factories py data_api 4 6
