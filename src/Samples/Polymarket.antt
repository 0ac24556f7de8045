-- ===== src/Samples/Polymarket.antt =====
-- Tests of the API client and of its parameters.
use polymarket_market_discov.Base.{
  ℕ, ◌==◌, String, true, false, none, some, List, [], ◌∷◌, ◌≡◌, refl, arith, eqb, if◌then◌else◌,
}
use polymarket_market_discov.Base.Decimal.{zero_decimal, leb_decimal, ltb_decimal}
use polymarket_market_discov.Base.Float.{Float, finite}
use polymarket_market_discov.Base.Int.{pos, scale}
use polymarket_market_discov.Base.Json.{list, nil, end}
use polymarket_market_discov.Base.Result.{ok, raise}
use polymarket_market_discov.Base.Runtime.{Runtime}
use polymarket_market_discov.Markets.Retrieval.{retrieve_market_batch}
use polymarket_market_discov.Polymarket.Client.{
  PolymarketClient, markets, Http, Request, get, answered, status_error, outcome, rate_limit_error,
  with_retries,
}
use polymarket_market_discov.Polymarket.Client.Retry.{
  ended_by, with_retries_settled, with_retries-raise,
}
use polymarket_market_discov.Polymarket.Client.Services.{
  gamma_api, open_markets, retrieve_market_batch-rate_limit_error,
}
use polymarket_market_discov.Polymarket.Params.{
  not_given, listed, PositionsInput, CurrentPositionsParams, current_positions_params,
  validated_positions, positions_constraints, is_address, parse_event_id, parse_market,
  validate_market, validate_event_id, check_markets, positions_output,
}
use polymarket_market_discov.Polymarket.Params.RoundTrip.{reread, current_positions_params-reread}
use polymarket_market_discov.Polymarket.Settings.{
  ApiSettings, Settings, api_settings, data_api_settings, gamma_api_settings, clob_api_settings,
}
use polymarket_market_discov.Polymarket.Settings.Loading.{
  Source, load_api_settings, load_data_api_settings, load_gamma_api_settings,
  load_clob_api_settings, load_settings,
}
use polymarket_market_discov.Samples.{py, tenths}

abbrev api : ApiSettings
api = record {
  base_url = "https://gamma-api.polymarket.com";
  timeout_seconds = finite (tenths 100);
  rate_limit_retry_attempts = 2;
  rate_limit_backoff_seconds = finite (tenths 100);
}

-- A server that limits the first attempt, and one that limits all.
abbrev slow : Http
slow request n = if eqb n 1 then status_error 429 "Too Many Requests" else answered (list nil)

abbrev closed : Http
closed request n = status_error 429 "Too Many Requests"

abbrev question : Request
question = get "https://gamma-api.polymarket.com/markets" end

with_retries_settled_example :
    with_retries py slow "/markets" markets api question
    ≡ ended_by py slow "/markets" markets api question 1 1 (outcome (slow question 2))
with_retries_settled_example =
    with_retries_settled py slow "/markets" markets api question 1 (omega arith)
      (λ i above below. let e : i ≡ 1 = omega arith in rw e refl) refl

with_retries-raise_example :
    with_retries py closed "/markets" markets api question
    ≡ ended_by py closed "/markets" markets api question 2 1
        (raise (rate_limit_error py closed "/markets" markets api question 3))
with_retries-raise_example =
    with_retries-raise py closed "/markets" markets api question (λ i above below. refl)

abbrev client : PolymarketClient
client = record {
  settings = record {
    api = api;
    max_concurrent_requests = 4;
    positions_requests_per_second = finite (tenths 80);
    leaderboard_requests_per_second = finite (tenths 30);
  };
  gamma_settings = record { api = api; requests_per_second = finite (tenths 50) };
  clob_settings = record { api = api; orderbook_requests_per_second = finite (tenths 50) };
  timeout = finite (tenths 100);
  owns_client = true;
  concurrent = 4;
  limiter = λ kind. finite (tenths 50);
}

retrieve_market_batch-rate_limit_error_example :
    retrieve_market_batch py (gamma_api py closed client (λ a b. true)) ("c1" ∷ "c2" ∷ [])
    ≡ raise (
        rate_limit_error py closed "/markets" markets api
          (open_markets py closed client ("c1" ∷ "c2" ∷ []))
          3)
retrieve_market_batch-rate_limit_error_example =
    retrieve_market_batch-rate_limit_error py closed client (λ a b. true) "c1" ("c2" ∷ [])
      (λ i above below. refl)

-- A runtime that reads every text of hexadecimal digits, and every decimal as zero.
abbrev reads_hex : Runtime
reads_hex = record py { hexadecimal = λ text. some (pos 1); decimal = λ text. some zero_decimal }

abbrev market_ids : List String
market_ids =
    "0x1111111111111111111111111111111111111111111111111111111111111111"
    ∷ "0x2222222222222222222222222222222222222222222222222222222222222222" ∷ []

abbrev given : PositionsInput
given = record {
  user = "0xaaaaaaaaaaaaaaaaaaaaaaaaaaaaaaaaaaaaaaaa";
  market = listed market_ids;
  event_id = not_given;
  size_threshold = zero_decimal;
  redeemable = false;
  mergeable = false;
  limit = 500;
  offset = 0;
  sort_by = "CURRENT";
  sort_direction = "DESC";
  title = none;
}

abbrev read_params : CurrentPositionsParams
read_params = record {
  user = given.user;
  market = some market_ids;
  event_id = none;
  size_threshold = zero_decimal;
  redeemable = false;
  mergeable = false;
  limit = 500;
  offset = 0;
  sort_by = "CURRENT";
  sort_direction = "DESC";
  title = none;
}

params_read : current_positions_params reads_hex given ≡ ok read_params
unfolding current_positions_params validated_positions positions_constraints is_address
    parse_event_id parse_market validate_market validate_event_id check_markets leb_decimal scale
params_read = refl

current_positions_params-reread_example :
    reread reads_hex (positions_output reads_hex read_params) ≡ ok read_params
current_positions_params-reread_example =
    current_positions_params-reread reads_hex given read_params params_read (λ text. refl) refl refl
      ((refl, refl, refl), ((refl, refl, refl), tt)) tt

-- An environment with a timeout, a level and no retries.
abbrev environment : Source
environment = record {
  text = λ name. if name == "POLYMARKET_DISCOVERY_LOG_LEVEL" then some "DEBUG" else none;
  whole = λ name.
      ok (if name == "POLYMARKET_GAMMA_API_RATE_LIMIT_RETRY_ATTEMPTS" then some (pos 0) else none);
  number = λ name.
      ok
        (if name == "POLYMARKET_DATA_API_TIMEOUT_SECONDS" then some (finite (tenths 25)) else none);
}

abbrev whole_seconds : ℕ → Float
whole_seconds n = finite (record { coefficient = pos n; places = 0 })

abbrev loaded_settings : Settings
loaded_settings = record {
  polymarket_data_api_client = record {
    api = record {
      base_url = "https://data-api.polymarket.com";
      timeout_seconds = finite (tenths 25);
      rate_limit_retry_attempts = 5;
      rate_limit_backoff_seconds = whole_seconds 60;
    };
    max_concurrent_requests = 4;
    positions_requests_per_second = whole_seconds 8;
    leaderboard_requests_per_second = whole_seconds 3;
  };
  polymarket_gamma_api_client = record {
    api = record {
      base_url = "https://gamma-api.polymarket.com";
      timeout_seconds = whole_seconds 10;
      rate_limit_retry_attempts = 0;
      rate_limit_backoff_seconds = whole_seconds 10;
    };
    requests_per_second = whole_seconds 5;
  };
  polymarket_clob_api_client = record {
    api = record {
      base_url = "https://clob.polymarket.com";
      timeout_seconds = whole_seconds 10;
      rate_limit_retry_attempts = 5;
      rate_limit_backoff_seconds = whole_seconds 10;
    };
    orderbook_requests_per_second = whole_seconds 5;
  };
  level = "DEBUG";
}

settings_load : load_settings environment ≡ ok loaded_settings
unfolding load_settings load_data_api_settings load_gamma_api_settings load_clob_api_settings
    load_api_settings api_settings data_api_settings gamma_api_settings clob_api_settings
    leb_decimal ltb_decimal scale
settings_load = refl
