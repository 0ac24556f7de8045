-- ===== src/Discovery/Strategies/Leaderboard.antt =====
-- `_fetch_leaderboard` and `_select_intersection_wallets` of
-- `discovery/strategies/whale_leaderboard.py`.
pub mod Bounds
use polymarket_market_discov.Base.{
  ℕ, zero, suc, ◌+◌, String, Bool, true, false, ◌&&◌, Option, none, some, List, [], ◌∷◌, ◌++◌,
  length, keep_if, ltb, leb, if◌then◌else◌,
}
use polymarket_market_discov.Base.Dict.{contains}
use polymarket_market_discov.Base.Json.{Json, list, dict, Items, elements}
use polymarket_market_discov.Base.Result.{Result, ok, raise, value_error}
use polymarket_market_discov.Base.Runtime.{Runtime}
use polymarket_market_discov.Base.Text.{f_string}
use polymarket_market_discov.Discovery.Strategies.Paging.{pages}
use polymarket_market_discov.Discovery.Strategies.Rows.{DataApi, parse_leaderboard_wallet}
use polymarket_market_discov.Polymarket.Requests.{LeaderboardParams, leaderboard_params}

abbrev pub wallet_count : ℕ
wallet_count = 25

abbrev pub leaderboard_limit : ℕ
leaderboard_limit = 25

abbrev pub last_leaderboard_offset : ℕ
last_leaderboard_offset = 1000

module _ (py : Runtime) (api : DataApi) (order_by : String) where
  -- The loop over the rows of a page. The wallets are those found so far, in their order, and
  -- `seen_wallets` is the set of the same wallets.
  unfoldable pub read_wallets : List Json → List String → Result (List String)
  read_wallets [] wallets = ok wallets
  read_wallets (dict row ∷ rows) wallets = elim (parse_leaderboard_wallet py row) [
    | raise exc ↦ raise exc
    | ok wallet ↦ elim (contains wallet wallets) [
      | true ↦ read_wallets rows wallets
      | false ↦ elim (leb wallet_count (length (wallets ++ wallet ∷ []))) [
        | true ↦ ok (wallets ++ wallet ∷ [])
        | false ↦ read_wallets rows (wallets ++ wallet ∷ [])
      ]
    ]
  ]
  read_wallets (row ∷ rows) wallets =
      raise (value_error (f_string (order_by ∷ " leaderboard row must be an object" ∷ [])))

  abbrev pub leaderboard_request : ℕ → LeaderboardParams
  leaderboard_request offset = record {
    category = "OVERALL";
    time_period = "DAY";
    order_by = order_by;
    limit = leaderboard_limit;
    offset = offset;
    user = none;
    user_name = none;
  }

  -- What a round of the loop ends with: the wallets so far, and whether the loop goes on.
  abbrev pub after_rows : List Json → Result (List String) → Result (List String × Bool)
  after_rows page (raise exc) = raise exc
  after_rows page (ok wallets) = ok (wallets, leb leaderboard_limit (length page))

  abbrev pub read_page : List String → Json → Result (List String × Bool)
  read_page wallets (list items) = elim (elements items) [
    | [] ↦ ok (wallets, false)
    | row ∷ rows ↦ after_rows (row ∷ rows) (read_wallets (row ∷ rows) wallets)
  ]
  read_page wallets payload =
      raise (value_error (f_string (order_by ∷ " leaderboard response must be a list" ∷ [])))

  abbrev pub use_page : List String → Result Json → Result (List String × Bool)
  use_page wallets (raise exc) = raise exc
  use_page wallets (ok payload) = read_page wallets payload

  abbrev pub send_request : List String → Result LeaderboardParams → Result (List String × Bool)
  send_request wallets (raise exc) = raise exc
  send_request wallets (ok params) = use_page wallets (api.get_leaderboard params)

  -- The body of the `while` loop.
  unfoldable pub leaderboard_round : ℕ → List String → Result (List String × Bool)
  leaderboard_round offset wallets =
      send_request wallets (leaderboard_params py (leaderboard_request offset))

  abbrev pub wants_more : ℕ → List String → Bool
  wants_more offset wallets =
      ltb (length wallets) wallet_count && leb offset last_leaderboard_offset

  -- The offsets are 0, 25, ..., 1000: 41 rounds, and the test that ends the loop. `none` would say
  -- that the fuel ran out.
  abbrev pub leaderboard_fuel : ℕ
  leaderboard_fuel = 42

  unfoldable pub fetch_leaderboard : Option (Result (List String))
  unfolding pages
  fetch_leaderboard = pages wants_more leaderboard_round leaderboard_limit leaderboard_fuel 0 []

unfoldable pub select_intersection_wallets : List String → List String → List String
select_intersection_wallets pnl_wallets volume_wallets =
    keep_if (λ wallet. contains wallet volume_wallets) pnl_wallets
