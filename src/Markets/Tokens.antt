-- ===== src/Markets/Tokens.antt =====
-- The token rows of `complete_market_sync_run` in `markets/repository.py`.
pub mod Identity
pub mod Unique
use polymarket_market_discov.Base.{
  ℕ, suc, ◌+◌, max, min, String, Bool, true, false, not, ◌&&◌, ◌||◌, Option, none, some, List, [],
  ◌∷◌, ◌++◌, map, length, eqb, ltb, ◌==◌, if◌then◌else◌, keep_if, update_where, any_of, find,
  is_some,
}
use polymarket_market_discov.Base.Dict.{contains, is_distinct}
use polymarket_market_discov.Base.Result.{
  Exception, Result, ok, raise, value_error, raise_if, Exec, ◌>>=◌, ◌>>◌,
}
use polymarket_market_discov.Base.Sort.{sort_by, sorted_set, leb_text}
use polymarket_market_discov.Base.Text.{f_string}
use polymarket_market_discov.Core.Models.{
  Database, MarketDiscoveryRun, MarketDiscoveryObservation, MarketRegistrySyncRun, PolymarketMarket,
  PolymarketToken, MarketStatusSnapshot,
}
use polymarket_market_discov.Core.Session.{transaction, constraint}
use polymarket_market_discov.Core.Status.{Status, running, completed, failed, status_eq}
use polymarket_market_discov.Core.Time.{Timestamp}
use polymarket_market_discov.Markets.Domain.{MarketTokenPayload, PolymarketMarketPayload, token_ids}
use polymarket_market_discov.Markets.Retrieval.{condition_ids}

abbrev pub is_token : String → PolymarketToken → Bool
is_token id token = token.token_id == id

abbrev pub is_token_of : String → PolymarketToken → Bool
is_token_of condition_id token = token.condition_id == condition_id

unfoldable pub validate_token_identity : PolymarketToken → String → String → ℕ → Result (Unit {0})
validate_token_identity token condition_id outcome outcome_index = do
  raise_if (not (token.condition_id == condition_id))
      (value_error (f_string ("Token " ∷ token.token_id ∷ " condition changed" ∷ [])))
  raise_if (not (token.outcome == outcome))
      (value_error (f_string ("Token " ∷ token.token_id ∷ " outcome changed" ∷ [])))
  raise_if (not (eqb token.outcome_index outcome_index))
      (value_error (f_string ("Token " ∷ token.token_id ∷ " outcome index changed" ∷ [])))
  ok tt

abbrev pub new_token : String → Timestamp → MarketTokenPayload → PolymarketToken
new_token condition_id checked_at payload = record {
  token_id = payload.token_id;
  condition_id = condition_id;
  outcome = payload.outcome;
  outcome_index = payload.outcome_index;
  first_seen_at = checked_at;
  last_seen_at = checked_at;
}

-- The `for` loop over the tokens of a new market.
abbrev pub create_token :
    String
    → Timestamp
    → MarketTokenPayload
    → Option PolymarketToken
    → List PolymarketToken
    → Result (List PolymarketToken)
create_token condition_id checked_at payload (some existing) tokens = do
  validate_token_identity existing condition_id payload.outcome payload.outcome_index
  raise (value_error (f_string ("Token " ∷ payload.token_id ∷ " already exists" ∷ [])))
create_token condition_id checked_at payload none tokens = do
  constraint
      (any_of (λ t. t.condition_id == condition_id && eqb t.outcome_index payload.outcome_index)
        tokens)
      "uq_polymarket_token_condition_outcome_index"
  ok (tokens ++ new_token condition_id checked_at payload ∷ [])

unfoldable pub create_tokens :
    String
    → Timestamp
    → List MarketTokenPayload
    → List PolymarketToken
    → Result (List PolymarketToken)
create_tokens condition_id checked_at [] tokens = ok tokens
create_tokens condition_id checked_at (payload ∷ payloads) tokens = do
  tokens' ←
      create_token condition_id checked_at payload (find (is_token payload.token_id) tokens) tokens
  create_tokens condition_id checked_at payloads tokens'

-- `set(stored_tokens) != incoming_token_ids`
abbrev pub all_in : List String → List String → Bool
all_in [] ys = true
all_in (x ∷ xs) ys = contains x ys && all_in xs ys

abbrev pub same_set : List String → List String → Bool
same_set xs ys = all_in xs ys && all_in ys xs

abbrev pub stored_token_ids : String → List PolymarketToken → List String
stored_token_ids condition_id tokens =
    map (λ t. t.token_id) (keep_if (is_token_of condition_id) tokens)

abbrev see_again : Timestamp → PolymarketToken → PolymarketToken
see_again checked_at token = record token { last_seen_at = checked_at }

-- The `for` loop over the tokens of a stored market. `token` is a row, changed in place.
abbrev pub update_token :
    String
    → Timestamp
    → MarketTokenPayload
    → Option PolymarketToken
    → List PolymarketToken
    → Result (List PolymarketToken)
update_token condition_id checked_at payload none tokens =
    raise (Exception.key_error payload.token_id)
update_token condition_id checked_at payload (some token) tokens = do
  validate_token_identity token condition_id payload.outcome payload.outcome_index
  ok (update_where (is_token payload.token_id) (see_again checked_at) tokens)

unfoldable pub update_tokens :
    String
    → Timestamp
    → List MarketTokenPayload
    → List PolymarketToken
    → Result (List PolymarketToken)
update_tokens condition_id checked_at [] tokens = ok tokens
update_tokens condition_id checked_at (payload ∷ payloads) tokens = do
  tokens' ←
      update_token condition_id checked_at payload
        (find (is_token payload.token_id) (keep_if (is_token_of condition_id) tokens)) tokens
  update_tokens condition_id checked_at payloads tokens'
