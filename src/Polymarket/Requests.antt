-- ===== src/Polymarket/Requests.antt =====
-- `polymarket/params/leaderboard/leaderboard.py` and `polymarket/params/orderbook.py`: the parameters
-- of the requests for a leaderboard and for orderbooks.
use polymarket_market_discov.Base.{
  ℕ, String, Bool, true, ◌&&◌, Option, none, some, List, [], ◌∷◌, leb,
}
use polymarket_market_discov.Base.Dict.{contains}
use polymarket_market_discov.Base.Int.{pos}
use polymarket_market_discov.Base.Json.{int, string, dict, Items, nil, cons, Fields, end, field}
use polymarket_market_discov.Base.Result.{Result, ok, ◌>>◌}
use polymarket_market_discov.Base.Runtime.{Runtime}
use polymarket_market_discov.Polymarket.Params.{is_address, constraint, put, text_or_none}

abbrev optional_address : Option String → Bool
optional_address none = true
optional_address (some user) = is_address user

pub record LeaderboardParams : Type 0 where
  pub category : String
  pub time_period : String
  pub order_by : String
  pub limit : ℕ
  pub offset : ℕ
  pub user : Option String
  pub user_name : Option String

abbrev categories : List String
categories =
    "OVERALL" ∷ "POLITICS" ∷ "SPORTS" ∷ "CRYPTO" ∷ "CULTURE" ∷ "MENTIONS" ∷ "WEATHER" ∷ "ECONOMICS"
    ∷ "TECH" ∷ "FINANCE" ∷ []

module _ (py : Runtime) where
  -- `LeaderboardParams(...)`: `capitalize`, and then the constraints of the fields.
  unfoldable pub leaderboard_params : LeaderboardParams → Result LeaderboardParams
  leaderboard_params given = do
    let params = record given {
      category = py.upper given.category;
      time_period = py.upper given.time_period;
      order_by = py.upper given.order_by;
    }
    constraint "category" (contains params.category categories)
    constraint "timePeriod" (contains params.time_period ("DAY" ∷ "WEEK" ∷ "MONTH" ∷ "ALL" ∷ []))
    constraint "orderBy" (contains params.order_by ("PNL" ∷ "VOL" ∷ []))
    constraint "limit" (leb 1 params.limit && leb params.limit 50)
    constraint "offset" (leb params.offset 1000)
    constraint "user" (optional_address params.user)
    ok params

unfoldable pub leaderboard_output : LeaderboardParams → Fields
leaderboard_output params = field "category" (string params.category) (
    field "timePeriod" (string params.time_period) (
      field "orderBy" (string params.order_by) (
        field "limit" (int (pos params.limit)) (
          field "offset" (int (pos params.offset)) (
            put "user" (text_or_none params.user)
              (put "userName" (text_or_none params.user_name) end))))))

-- `polymarket/params/orderbook.py`: the body of the request for orderbooks.
pub record OrderBookRequest : Type 0 where
  pub token_id : String
  pub side : Option String

unfoldable pub output_body : List OrderBookRequest → Items
output_body [] = nil
output_body (item ∷ root) =
    cons (dict (field "token_id" (string item.token_id) (put "side" (text_or_none item.side) end)))
      (output_body root)
