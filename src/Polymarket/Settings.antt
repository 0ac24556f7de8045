-- ===== src/Polymarket/Settings.antt =====
-- `settings.py`: the settings of the API clients and of the database, with pydantic's constraints.
-- A constructor here takes the values of the fields; `Loading` finds them. pydantic refuses a float
-- where the comparison with the bound that is forbidden holds, so that it lets NaN and, above, the
-- infinity through.
pub mod Loading
use polymarket_market_discov.Base.{ℕ, String, Bool, not, ◌&&◌, leb}
use polymarket_market_discov.Base.Decimal.{zero_decimal}
use polymarket_market_discov.Base.Float.{Float, finite, leb_float, ltb_float}
use polymarket_market_discov.Base.Int.{ℤ, pos, negsuc}
use polymarket_market_discov.Base.Result.{Result, ok, raise, value_error, raise_if, ◌>>=◌, ◌>>◌}

-- `ApiSettings`, with the address, which each client's settings add.
pub record ApiSettings : Type 0 where
  pub base_url : String
  pub timeout_seconds : Float
  pub rate_limit_retry_attempts : ℕ
  pub rate_limit_backoff_seconds : Float

pub record PolymarketDataApiClientSettings : Type 0 where
  pub api : ApiSettings
  pub max_concurrent_requests : ℕ
  pub positions_requests_per_second : Float
  pub leaderboard_requests_per_second : Float

pub record PolymarketGammaApiClientSettings : Type 0 where
  pub api : ApiSettings
  pub requests_per_second : Float

pub record PolymarketClobApiClientSettings : Type 0 where
  pub api : ApiSettings
  pub orderbook_requests_per_second : Float

pub record Settings : Type 0 where
  pub polymarket_data_api_client : PolymarketDataApiClientSettings
  pub polymarket_gamma_api_client : PolymarketGammaApiClientSettings
  pub polymarket_clob_api_client : PolymarketClobApiClientSettings
  pub level : String

abbrev constraint : String → Bool → Result (Unit {0})
constraint name holds = raise_if (not holds) (value_error name)

abbrev zero_float : Float
zero_float = finite zero_decimal

-- `Field(gt=0)` and `Field(ge=0)` of a float
abbrev gt_zero : Float → Bool
gt_zero value = not (leb_float value zero_float)

abbrev ge_zero : Float → Bool
ge_zero value = not (ltb_float value zero_float)

-- `Field(ge=0)` of an integer, read as a natural number.
abbrev natural : String → ℤ → Result ℕ
natural name (pos n) = ok n
natural name (negsuc n) = raise (value_error name)

unfoldable pub api_settings : String → Float → ℤ → Float → Result ApiSettings
api_settings base_url timeout retries backoff = do
  constraint "timeout_seconds" (gt_zero timeout)
  attempts ← natural "rate_limit_retry_attempts" retries
  constraint "rate_limit_backoff_seconds" (ge_zero backoff)
  ok (record {
    base_url = base_url;
    timeout_seconds = timeout;
    rate_limit_retry_attempts = attempts;
    rate_limit_backoff_seconds = backoff;
  })

unfoldable pub data_api_settings :
    ApiSettings → ℤ → Float → Float → Result PolymarketDataApiClientSettings
data_api_settings api concurrent positions leaderboard = do
  requests ← natural "max_concurrent_requests" concurrent
  constraint "max_concurrent_requests" (leb 1 requests)
  constraint "positions_requests_per_second" (gt_zero positions)
  constraint "leaderboard_requests_per_second" (gt_zero leaderboard)
  ok (record {
    api = api;
    max_concurrent_requests = requests;
    positions_requests_per_second = positions;
    leaderboard_requests_per_second = leaderboard;
  })

unfoldable pub gamma_api_settings : ApiSettings → Float → Result PolymarketGammaApiClientSettings
gamma_api_settings api rate = do
  constraint "requests_per_second" (gt_zero rate)
  ok (record { api = api; requests_per_second = rate })

unfoldable pub clob_api_settings : ApiSettings → Float → Result PolymarketClobApiClientSettings
clob_api_settings api rate = do
  constraint "orderbook_requests_per_second" (gt_zero rate)
  ok (record { api = api; orderbook_requests_per_second = rate })

pub record DatabaseSettings : Type 0 where
  pub name : String
  pub user : String
  pub password : String
  pub host : String
  pub port : ℕ

unfoldable pub database_settings : String → String → String → String → ℤ → Result DatabaseSettings
database_settings name user password host given = do
  port ← natural "port" given
  constraint "port" (leb 1 port && leb port 65535)
  ok (record { name = name; user = user; password = password; host = host; port = port })
