-- ===== src/Polymarket/Client.antt =====
-- `PolymarketClient` of `polymarket/client.py`: the four calls, and the retries under them.
pub mod Retry
pub mod Services
use polymarket_market_discov.Base.{
  ℕ, zero, suc, ◌+◌, String, Bool, true, false, ◌&&◌, Option, none, some, List, [], ◌∷◌, length,
  eqb, leb, if◌then◌else◌,
}
use polymarket_market_discov.Base.Float.{Float, ltb_float, times_float}
use polymarket_market_discov.Base.Int.{ℤ, pos}
use polymarket_market_discov.Base.Json.{
  Json, bool, int, string, list, dict, Items, nil, cons, Fields, end, field,
}
use polymarket_market_discov.Base.Result.{
  Exception, Result, ok, raise, value_error, api_error, ◌>>=◌,
}
use polymarket_market_discov.Base.Runtime.{Runtime}
use polymarket_market_discov.Base.Text.{f_string}
use polymarket_market_discov.Polymarket.Params.{CurrentPositionsParams, positions_output}
use polymarket_market_discov.Polymarket.Requests.{
  LeaderboardParams, leaderboard_output, OrderBookRequest, output_body,
}
use polymarket_market_discov.Polymarket.Settings.{
  ApiSettings, PolymarketDataApiClientSettings, PolymarketGammaApiClientSettings,
  PolymarketClobApiClientSettings, Settings,
}

pub data PolymarketEndpoint : Type 0 where
  positions leaderboard markets orderbooks : PolymarketEndpoint

pub record PolymarketClient : Type 0 where
  pub settings : PolymarketDataApiClientSettings
  pub gamma_settings : PolymarketGammaApiClientSettings
  pub clob_settings : PolymarketClobApiClientSettings
  -- of the HTTP client, where the constructor makes one
  pub timeout : Float
  pub owns_client : Bool
  -- the semaphore's size, and the rate of each endpoint's limiter
  pub concurrent : ℕ
  pub limiter : PolymarketEndpoint → Float

abbrev or_default {ℓ} : {A : Type ℓ} → Option A → A → A
or_default none default = default
or_default (some given) default = given

-- `max` of two floats: the first, unless the second is greater.
abbrev larger : Float → Float → Float
larger a b = if ltb_float a b then b else a

-- The constructor, from `app_settings`; `given_client` says whether an HTTP client is handed in, and
-- `semaphore` is the size of one that is handed in.
unfoldable pub init_client :
    Settings
    → Option PolymarketDataApiClientSettings
    → Option PolymarketGammaApiClientSettings
    → Option PolymarketClobApiClientSettings
    → (given_client : Bool) (semaphore : Option ℕ) → PolymarketClient
init_client app data_settings gamma clob given_client semaphore =
    let settings = or_default data_settings app.polymarket_data_api_client in
    let gamma_settings = or_default gamma app.polymarket_gamma_api_client in
    let clob_settings = or_default clob app.polymarket_clob_api_client in
    record {
      settings = settings;
      gamma_settings = gamma_settings;
      clob_settings = clob_settings;
      timeout =
          larger (larger settings.api.timeout_seconds gamma_settings.api.timeout_seconds)
            clob_settings.api.timeout_seconds;
      owns_client = if given_client then false else true;
      concurrent = or_default semaphore settings.max_concurrent_requests;
      limiter = λ kind. elim kind [
        | positions ↦ settings.positions_requests_per_second
        | leaderboard ↦ settings.leaderboard_requests_per_second
        | markets ↦ gamma_settings.requests_per_second
        | orderbooks ↦ clob_settings.orderbook_requests_per_second
      ];
    }

pub data Request : Type 0 where
  get : (url : String) (params : Fields) → Request
  post : (url : String) (body : Json) → Request

-- How one attempt ends: with the JSON of the response, with httpx's `HTTPStatusError`, or with
-- another exception.
pub data Attempt : Type 0 where
  answered : Json → Attempt
  status_error : (code : ℕ) (text : String) → Attempt
  failed : Exception → Attempt

-- The HTTP client: what the n-th attempt of a request meets.
abbrev pub Http : Type 0
Http = Request → ℕ → Attempt

-- `_is_rate_limited`
abbrev pub is_rate_limited : Attempt → Bool
is_rate_limited (answered payload) = false
is_rate_limited (status_error code text) = eqb code 429
is_rate_limited (failed exc) = false

-- What an attempt gives where it is not tried again: `return response.json()`, or `raise`.
abbrev pub outcome : Attempt → Result Json
outcome (answered payload) = ok payload
outcome (status_error code text) = raise (api_error text)
outcome (failed exc) = raise exc

-- What a call does, in its order: the wait for the endpoint's limiter, the request, the sleep.
pub data Event : Type 0 where
  waited : PolymarketEndpoint → Event
  sent : Request → Event
  slept : Float → Event

pub record Exchange {ℓ} (A : Type ℓ) : Type ℓ where
  pub result : Result A
  pub events : List Event

module _ (py : Runtime) (http : Http) where
  abbrev number : ℕ → String
  number n = py.repr (int (pos n))

  module _ (endpoint : String) (kind : PolymarketEndpoint) (api : ApiSettings)
      (request : Request) where
    abbrev pub rate_limit_error : ℕ → Exception
    rate_limit_error attempt =
        api_error (
          f_string ("Rate limited for " ∷ endpoint ∷ " after " ∷ number attempt ∷ " attempts" ∷ []))

    -- The end of an attempt that is not tried again.
    abbrev pub stop : Result Json → Exchange Json
    stop result = record { result = result; events = waited kind ∷ sent request ∷ [] }

    abbrev pub pause : ℕ → Exchange Json → Exchange Json
    pause attempt rest = record rest {
      events =
          waited kind
          ∷ sent request
          ∷ slept (times_float api.rate_limit_backoff_seconds attempt)
          ∷ rest.events;
    }

    abbrev pub after_attempt : ℕ → Attempt → Exchange Json → Exchange Json
    after_attempt attempt ended rest =
        if is_rate_limited ended && leb attempt api.rate_limit_retry_attempts
        then pause attempt rest
        else if is_rate_limited ended
        then stop (raise (rate_limit_error attempt))
        else stop (outcome ended)

    -- The `for` loop, with the rounds that are left.
    unfoldable pub attempts : ℕ → ℕ → Exchange Json
    attempts zero attempt = record {
      result = raise (api_error (f_string ("Request attempts exhausted for " ∷ endpoint ∷ [])));
      events = [];
    }
    attempts (suc rounds) attempt =
        after_attempt attempt (http request attempt) (attempts rounds (suc attempt))

    -- `for attempt in range(1, settings.rate_limit_retry_attempts + 2)`
    unfoldable pub with_retries : Exchange Json
    with_retries = attempts (suc api.rate_limit_retry_attempts) 1

  unfoldable pub get_json :
      String → String → Fields → PolymarketEndpoint → ApiSettings → Exchange Json
  get_json base_url endpoint params kind api =
      with_retries endpoint kind api (get (py.urljoin base_url endpoint) params)

  unfoldable pub post_json :
      String → String → Json → PolymarketEndpoint → ApiSettings → Exchange Json
  post_json base_url endpoint body kind api =
      with_retries endpoint kind api (post (py.urljoin base_url endpoint) body)

  module _ (client : PolymarketClient) where
    unfoldable pub get_current_positions : CurrentPositionsParams → Exchange Json
    get_current_positions params =
        get_json client.settings.api.base_url "/positions" (positions_output py params) positions
          client.settings.api

    unfoldable pub get_leaderboard : LeaderboardParams → Exchange Json
    get_leaderboard params =
        get_json client.settings.api.base_url "/v1/leaderboard" (leaderboard_output params)
          leaderboard client.settings.api

    abbrev texts : List String → Items
    texts [] = nil
    texts (text ∷ rest) = cons (string text) (texts rest)

    abbrev pub markets_query : List String → Bool → Fields
    markets_query condition_ids closed =
        field "condition_ids" (list (texts condition_ids))
          (field "closed" (bool closed) (field "limit" (int (pos (length condition_ids))) end))

    -- The items of a list, if each is an object.
    abbrev pub objects_of : Items → Option (List Fields)
    objects_of nil = some []
    objects_of (cons (dict row) items) = elim (objects_of items) [
      | none ↦ none
      | some rows ↦ some (row ∷ rows)
    ]
    objects_of (cons item items) = none

    abbrev pub as_objects : Json → Option (List Fields)
    as_objects (list items) = objects_of items
    as_objects payload = none

    abbrev pub list_of_objects : Option (List Fields) → Result (List Fields)
    list_of_objects none = raise (value_error "Gamma markets response must be a list of objects")
    list_of_objects (some rows) = ok rows

    unfoldable pub get_gamma_markets : List String → Bool → Exchange (List Fields)
    get_gamma_markets [] closed = record { result = ok []; events = [] }
    get_gamma_markets (id ∷ ids) closed =
        let answer =
          get_json client.gamma_settings.api.base_url "/markets" (markets_query (id ∷ ids) closed)
            markets client.gamma_settings.api in
        record {
          result = answer.result >>= (λ payload. list_of_objects (as_objects payload));
          events = answer.events;
        }

    unfoldable pub get_order_books : List OrderBookRequest → Exchange Json
    get_order_books params =
        post_json client.clob_settings.api.base_url "/books" (list (output_body params)) orderbooks
          client.clob_settings.api
