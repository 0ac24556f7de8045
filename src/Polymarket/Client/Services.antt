-- ===== src/Polymarket/Client/Services.antt =====
-- The client as the three services use it, and how a rate limit reaches the registry.
use polymarket_market_discov.Base.{
  ℕ, suc, ◌≤◌, String, Bool, true, false, none, List, ◌∷◌, map, ◌≡◌, refl,
}
use polymarket_market_discov.Base.Json.{Json}
use polymarket_market_discov.Base.Result.{Result, raise}
use polymarket_market_discov.Base.Runtime.{Runtime}
use polymarket_market_discov.Discovery.Strategies.Rows.{DataApi}
use polymarket_market_discov.Markets.Domain.{PolymarketMarketPayload}
use polymarket_market_discov.Markets.Retrieval.{Gamma, fetch, retrieve_market_batch}
use polymarket_market_discov.Polymarket.Client.{
  PolymarketClient, Http, Request, get, get_json, get_leaderboard, get_current_positions,
  get_gamma_markets, get_order_books, markets_query, markets, is_rate_limited, rate_limit_error,
}
use polymarket_market_discov.Polymarket.Client.Retry.{with_retries-raise}

module _ (py : Runtime) (http : Http) (client : PolymarketClient) where
  -- What `discovery/strategies/whale_leaderboard.py` uses of the client.
  unfoldable pub data_api : DataApi
  unfolding get_leaderboard get_current_positions
  data_api = record {
    get_leaderboard = λ params. (get_leaderboard py http client params).result;
    get_current_positions = λ params. (get_current_positions py http client params).result;
  }

  -- What `markets/service.py` uses, with pydantic's equality of payloads.
  unfoldable pub gamma_api : (PolymarketMarketPayload → PolymarketMarketPayload → Bool) → Gamma
  unfolding get_gamma_markets
  gamma_api same_payload = record {
    get_gamma_markets = λ ids closed. (get_gamma_markets py http client ids closed).result;
    same_payload = same_payload;
  }

  -- What `orderbooks/service.py` uses: a request without a side for each token of a batch.
  unfoldable pub books_api : List String → Result Json
  unfolding get_order_books
  books_api token_ids =
      let answer =
        get_order_books py http client
          (map (λ id. record { token_id = id; side = none }) token_ids) in
      answer.result

  -- The request for the open markets of a batch.
  abbrev pub open_markets : List String → Request
  open_markets ids =
      get (py.urljoin client.gamma_settings.api.base_url "/markets")
        (markets_query py http client ids false)

  -- A batch of markets whose first request to Gamma is rate-limited at every attempt that the settings
  -- allow raises the client's rate-limit error, with the number of the attempts.
  pub retrieve_market_batch-rate_limit_error :
      (same_payload : PolymarketMarketPayload → PolymarketMarketPayload → Bool) (id : String)
      (ids : List String)
      → ((i : ℕ)
          → 1 ≤ i
          → i ≤ suc client.gamma_settings.api.rate_limit_retry_attempts
          → is_rate_limited (http (open_markets (id ∷ ids)) i) ≡ true)
      → retrieve_market_batch py (gamma_api same_payload) (id ∷ ids)
        ≡ raise (
            rate_limit_error py http "/markets" markets client.gamma_settings.api
              (open_markets (id ∷ ids))
              (suc client.gamma_settings.api.rate_limit_retry_attempts))
  unfolding retrieve_market_batch fetch gamma_api get_gamma_markets get_json
  retrieve_market_batch-rate_limit_error same_payload id ids limited =
      rw
        (with_retries-raise py http "/markets" markets client.gamma_settings.api
          (open_markets (id ∷ ids)) limited)
        refl
