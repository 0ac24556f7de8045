-- ===== src/Polymarket/Settings/Loading.antt =====
-- `settings.py`: the names and the defaults of the settings, and the database's address. Where a
-- value is found (the environment or the `.env` file) and how its text is read is pydantic's, and is
-- a parameter.
use polymarket_market_discov.Base.{ℕ, String, Option, none, some}
use polymarket_market_discov.Base.Float.{Float, finite}
use polymarket_market_discov.Base.Int.{ℤ, pos}
use polymarket_market_discov.Base.Result.{Result, ok, ◌>>=◌}
use polymarket_market_discov.Polymarket.Settings.{
  ApiSettings, PolymarketDataApiClientSettings, PolymarketGammaApiClientSettings,
  PolymarketClobApiClientSettings, Settings, DatabaseSettings, api_settings, data_api_settings,
  gamma_api_settings, clob_api_settings, database_settings,
}

-- What pydantic finds for the alias of a field: nothing, a value, or a text that it cannot read.
pub record Source : Type 0 where
  pub text : String → Option String
  pub whole : String → Result (Option ℤ)
  pub number : String → Result (Option Float)

abbrev or_default {ℓ} : {A : Type ℓ} → A → Option A → A
or_default default none = default
or_default default (some value) = value

abbrev pub seconds : ℕ → Float
seconds n = finite (record { coefficient = pos n; places = 0 })

module _ (source : Source) where
  abbrev pub text : String → String → String
  text name default = or_default default (source.text name)

  abbrev pub whole : String → ℤ → Result ℤ
  whole name default = do found ← source.whole name; ok (or_default default found)

  abbrev pub number : String → Float → Result Float
  number name default = do found ← source.number name; ok (or_default default found)

  -- The settings that the three clients have in common; only the names and the defaults of the
  -- address and of the pause differ.
  unfoldable pub load_api_settings :
      (base_url_name base_url timeout_name retries_name backoff_name : String) (backoff_default : ℕ)
      → Result ApiSettings
  load_api_settings base_url_name base_url timeout_name retries_name backoff_name backoff_default =
      do
        timeout ← number timeout_name (seconds 10)
        retries ← whole retries_name (pos 5)
        backoff ← number backoff_name (seconds backoff_default)
        api_settings (text base_url_name base_url) timeout retries backoff

  abbrev pub data_api : Result ApiSettings
  data_api =
      load_api_settings "POLYMARKET_DATA_API_BASE_URL" "https://data-api.polymarket.com"
        "POLYMARKET_DATA_API_TIMEOUT_SECONDS" "POLYMARKET_DATA_API_RATE_LIMIT_RETRY_ATTEMPTS"
        "POLYMARKET_DATA_API_RATE_LIMIT_BACKOFF_SECONDS" 60

  abbrev pub gamma_api : Result ApiSettings
  gamma_api =
      load_api_settings "POLYMARKET_GAMMA_API_BASE_URL" "https://gamma-api.polymarket.com"
        "POLYMARKET_GAMMA_API_TIMEOUT_SECONDS" "POLYMARKET_GAMMA_API_RATE_LIMIT_RETRY_ATTEMPTS"
        "POLYMARKET_GAMMA_API_RATE_LIMIT_BACKOFF_SECONDS" 10

  abbrev pub clob_api : Result ApiSettings
  clob_api =
      load_api_settings "POLYMARKET_CLOB_API_BASE_URL" "https://clob.polymarket.com"
        "POLYMARKET_CLOB_API_TIMEOUT_SECONDS" "POLYMARKET_CLOB_API_RATE_LIMIT_RETRY_ATTEMPTS"
        "POLYMARKET_CLOB_API_RATE_LIMIT_BACKOFF_SECONDS" 10

  abbrev pub concurrent_requests : Result ℤ
  concurrent_requests = whole "POLYMARKET_DATA_API_MAX_CONCURRENT_REQUESTS" (pos 4)

  abbrev pub positions_rate : Result Float
  positions_rate = number "POLYMARKET_POSITIONS_REQUESTS_PER_SECOND" (seconds 8)

  abbrev pub leaderboard_rate : Result Float
  leaderboard_rate = number "POLYMARKET_LEADERBOARD_REQUESTS_PER_SECOND" (seconds 3)

  abbrev pub gamma_rate : Result Float
  gamma_rate = number "POLYMARKET_GAMMA_API_REQUESTS_PER_SECOND" (seconds 5)

  abbrev pub orderbook_rate : Result Float
  orderbook_rate = number "POLYMARKET_ORDERBOOK_REQUESTS_PER_SECOND" (seconds 5)

  unfoldable pub load_data_api_settings : Result PolymarketDataApiClientSettings
  load_data_api_settings = do
    api ← data_api
    concurrent ← concurrent_requests
    positions ← positions_rate
    leaderboard ← leaderboard_rate
    data_api_settings api concurrent positions leaderboard

  unfoldable pub load_gamma_api_settings : Result PolymarketGammaApiClientSettings
  load_gamma_api_settings = do api ← gamma_api; rate ← gamma_rate; gamma_api_settings api rate

  unfoldable pub load_clob_api_settings : Result PolymarketClobApiClientSettings
  load_clob_api_settings = do api ← clob_api; rate ← orderbook_rate; clob_api_settings api rate

  -- `Settings()`
  unfoldable pub load_settings : Result Settings
  load_settings = do
    client ← load_data_api_settings
    gamma ← load_gamma_api_settings
    clob ← load_clob_api_settings
    ok (record {
      polymarket_data_api_client = client;
      polymarket_gamma_api_client = gamma;
      polymarket_clob_api_client = clob;
      level = text "POLYMARKET_DISCOVERY_LOG_LEVEL" "INFO";
    })

  -- `DatabaseSettings()`
  unfoldable pub load_database_settings : Result DatabaseSettings
  load_database_settings = do
    port ← whole "POLYMARKET_DISCOVERY_POSTGRES_PORT" (pos 5432)
    database_settings (text "POLYMARKET_DISCOVERY_POSTGRES_DB" "polymarket_market_discovery")
        (text "POLYMARKET_DISCOVERY_POSTGRES_USER" "polymarket_market_discovery")
        (text "POLYMARKET_DISCOVERY_POSTGRES_PASSWORD" "polymarket_market_discovery")
        (text "POLYMARKET_DISCOVERY_POSTGRES_HOST" "postgres") port

-- The parts of an address; SQLAlchemy writes them as a text.
pub record Url : Type 0 where
  pub drivername : String
  pub username : String
  pub password : String
  pub host : String
  pub port : ℕ
  pub database : String

unfoldable pub database_url : (render_as_string : Url → String) → DatabaseSettings → String
database_url render_as_string settings = render_as_string (record {
  drivername = "postgresql+psycopg";
  username = settings.user;
  password = settings.password;
  host = settings.host;
  port = settings.port;
  database = settings.name;
})
