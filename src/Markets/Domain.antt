-- ===== src/Markets/Domain.antt =====
-- `markets/domain.py`: the payload of one market, with the validator of its two tokens.
use polymarket_market_discov.Base.{
  ℕ, String, Bool, not, Option, List, [], ◌∷◌, map, length, eqb, ◌==◌,
}
use polymarket_market_discov.Base.Dict.{distinct}
use polymarket_market_discov.Base.Json.{Fields}
use polymarket_market_discov.Base.Result.{Result, ok, value_error, raise_if, ◌>>◌}
use polymarket_market_discov.Base.Runtime.{Runtime}
use polymarket_market_discov.Core.Status.{Status}
use polymarket_market_discov.Core.Time.{Timestamp, Datetime}

pub record MarketTokenPayload : Type 0 where
  pub token_id : String
  pub outcome : String
  pub outcome_index : ℕ

pub record PolymarketMarketPayload : Type 0 where
  pub condition_id : String
  pub event_id : Option String
  pub slug : Option String
  pub title : Option String
  pub question : Option String
  pub end_date : Option Datetime
  pub active : Option Bool
  pub closed : Option Bool
  pub archived : Option Bool
  pub enable_order_book : Option Bool
  pub tokens : List MarketTokenPayload
  pub raw_payload : Fields

-- A field of type `NonEmptyString`: the text without the white space around it, which is not empty.
unfoldable pub non_empty_string : Runtime → String → Result String
non_empty_string py value = do
  raise_if (py.strip value == "") (value_error "String should have at least 1 character")
  ok (py.strip value)

abbrev pub token_ids : List MarketTokenPayload → List String
token_ids tokens = map (λ token. token.token_id) tokens

abbrev pub outcomes : List MarketTokenPayload → List String
outcomes tokens = map (λ token. token.outcome) tokens

-- `{token.outcome_index for token in self.tokens}` has two elements, for two tokens.
abbrev pub has_two_indices : List MarketTokenPayload → Bool
has_two_indices (a ∷ b ∷ []) = not (eqb a.outcome_index b.outcome_index)
has_two_indices _ = Bool.false

unfoldable pub validate_binary_token_contract :
    PolymarketMarketPayload → Result PolymarketMarketPayload
validate_binary_token_contract payload = do
  raise_if (not (eqb (length payload.tokens) 2))
      (value_error "Market must have exactly two outcome tokens")
  raise_if (not (eqb (length (distinct (token_ids payload.tokens))) 2))
      (value_error "Market outcome token IDs must be unique")
  raise_if (not (eqb (length (distinct (outcomes payload.tokens))) 2))
      (value_error "Market outcomes must be unique")
  raise_if (not (has_two_indices payload.tokens))
      (value_error "Market outcome indices must be unique")
  ok payload

pub record MarketRegistrySyncResult : Type 0 where
  pub run_id : Option String
  pub status : Status
  pub input_discovery_run_ids : List String
  pub checked_market_count : ℕ
  pub created_market_count : ℕ
  pub updated_market_count : ℕ
  pub generated_at : Timestamp
  pub skip_reason : Option String
