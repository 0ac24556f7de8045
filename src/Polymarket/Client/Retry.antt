-- ===== src/Polymarket/Client/Retry.antt =====
-- The retries of a rate-limited request: how many are sent, with which pauses, and how a call ends.
use polymarket_market_discov.Base.{
  ℕ, zero, suc, ◌+◌, ◌≤◌, ◌<◌, String, Bool, true, false, ◌&&◌, List, [], ◌∷◌, ◌++◌, length,
  keep_if, ◌≡◌, arith, leb, if◌then◌else◌,
}
use polymarket_market_discov.Base.Float.{times_float}
use polymarket_market_discov.Base.Json.{Json}
use polymarket_market_discov.Base.Result.{Result, raise}
use polymarket_market_discov.Base.Runtime.{Runtime}
use polymarket_market_discov.Polymarket.Client.{
  PolymarketEndpoint, Request, Attempt, Http, Event, waited, sent, slept, Exchange, is_rate_limited,
  outcome, rate_limit_error, attempts, with_retries,
}
use polymarket_market_discov.Polymarket.Settings.{ApiSettings}

abbrev pub is_sent : Event → Bool
is_sent (waited kind) = false
is_sent (sent request) = true
is_sent (slept time) = false

module _ (py : Runtime) (http : Http) (endpoint : String) (kind : PolymarketEndpoint) where
  module _ (api : ApiSettings) (request : Request) where
    -- `k` rounds from the attempt `n` on, each with a longer pause than the one before.
    abbrev pub retried : (k n : ℕ) → List Event
    retried zero n = []
    retried (suc k) n =
        waited kind
        ∷ sent request
        ∷ slept (times_float api.rate_limit_backoff_seconds n)
        ∷ retried k (suc n)

    abbrev pub ended_by : (k n : ℕ) → Result Json → Exchange Json
    ended_by k n result = record {
      result = result;
      events = retried k n ++ waited kind ∷ sent request ∷ [];
    }

    -- The last attempt is not tried again.
    abbrev last_result : ℕ → Attempt → Result Json
    last_result n ended =
        if is_rate_limited ended
        then raise (rate_limit_error py http endpoint kind api request n)
        else outcome ended

    attempts_stop :
        (k rounds n last : ℕ)
        → k < rounds
        → k + n ≡ last
        → ((i : ℕ) → n ≤ i → i < last → is_rate_limited (http request i) ≡ true)
        → last ≤ suc api.rate_limit_retry_attempts
        → is_rate_limited (http request last) && leb last api.rate_limit_retry_attempts ≡ false
        → attempts py http endpoint kind api request rounds n
          ≡ ended_by k n (last_result last (http request last))
    unfolding attempts
    attempts_stop k zero n last below e limited within stops = absurd (omega arith)
    attempts_stop zero (suc rounds) n last below e limited within stops =
        let e' : n ≡ last = omega arith in
        let stops' = rw (← e') at stops in rw (← e') (ground arith)
    attempts_stop (suc k) (suc rounds) n last below e limited within stops =
        let now = limited n (omega arith) (omega arith) in
        let rest =
          attempts_stop k rounds (suc n) last (omega arith) (omega arith)
            (λ i above. limited i (omega arith)) within stops in
        ground (arith, now, rest)

    -- A request whose first `k` attempts are rate-limited, with `k` at most the number of retries, and
    -- whose next attempt is not, ends as that attempt does: with its JSON, or with its exception as
    -- it is. It is sent `k + 1` times, each time behind a wait for the limiter of its endpoint, with
    -- a pause of `i` times the back-off behind the `i`-th of the first `k`.
    pub with_retries_settled :
        (k : ℕ)
        → k ≤ api.rate_limit_retry_attempts
        → ((i : ℕ) → 1 ≤ i → i ≤ k → is_rate_limited (http request i) ≡ true)
        → is_rate_limited (http request (suc k)) ≡ false
        → with_retries py http endpoint kind api request
          ≡ ended_by k 1 (outcome (http request (suc k)))
    unfolding with_retries
    with_retries_settled k within limited settled =
        let stop =
          attempts_stop k (suc api.rate_limit_retry_attempts) 1 (suc k) (omega arith) (omega arith)
            (λ i above below. limited i above (omega arith)) (omega arith) (ground arith) in
        ground (arith, stop)

    -- A request that is rate-limited at every attempt is sent once more than the retries that the
    -- settings allow, and then raises the error that names the endpoint and the number of attempts.
    pub with_retries-raise :
        ((i : ℕ)
          → 1 ≤ i
          → i ≤ suc api.rate_limit_retry_attempts
          → is_rate_limited (http request i) ≡ true)
        → with_retries py http endpoint kind api request
          ≡ ended_by api.rate_limit_retry_attempts 1 (
              raise (
                rate_limit_error py http endpoint kind api request
                  (suc api.rate_limit_retry_attempts)))
    unfolding with_retries
    with_retries-raise limited =
        let retries = api.rate_limit_retry_attempts in
        let stop =
          attempts_stop retries (suc retries) 1 (suc retries) (omega arith) (omega arith)
            (λ i above below. limited i above (omega arith)) (omega arith) (ground arith) in
        ground (arith, stop, limited (suc retries))

    abbrev requests : Exchange Json → ℕ
    requests exchange = length (keep_if is_sent exchange.events)

    attempts_bounds :
        (rounds n : ℕ) → requests (attempts py http endpoint kind api request rounds n) ≤ rounds
    unfolding attempts
    attempts_bounds zero n = omega arith
    attempts_bounds (suc rounds) n = ground (arith, attempts_bounds rounds (suc n))

    -- Whatever the server answers, a call sends its request at least once, and at most once more
    -- than the retries that the settings allow.
    with_retries_bounds :
        (1 ≤ requests (with_retries py http endpoint kind api request))
        × (requests (with_retries py http endpoint kind api request)
            ≤ suc api.rate_limit_retry_attempts)
    unfolding with_retries attempts
    with_retries_bounds = (ground arith, attempts_bounds (suc api.rate_limit_retry_attempts) 1)
