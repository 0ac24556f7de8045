-- ===== src/Discovery/Domain.antt =====
-- `discovery/domain.py`: evidence, observations and results of the discovery layer.
use polymarket_market_discov.Base.{ℕ, String, not, Option, List, map, length}
use polymarket_market_discov.Base.Dict.{distinct, is_distinct}
use polymarket_market_discov.Base.Json.{Fields}
use polymarket_market_discov.Base.Result.{Result, ok, value_error, raise_if, ◌>>◌}
use polymarket_market_discov.Core.Status.{Status}
use polymarket_market_discov.Core.Time.{Timestamp}

pub record DiscoveryEvidenceItem : Type 0 where
  pub kind : String
  pub source : String
  pub payload : Fields

pub record DiscoveryEvidenceEnvelope : Type 0 where
  pub schema_version : ℕ
  pub items : List DiscoveryEvidenceItem

pub record MarketDiscoveryObservationPayload : Type 0 where
  pub condition_id : String
  pub observed_at : Timestamp
  pub evidence_json : DiscoveryEvidenceEnvelope

pub record StrategyDiscoveryResult : Type 0 where
  pub strategy : String
  pub strategy_version : String
  pub observations : List MarketDiscoveryObservationPayload
  pub generated_at : Timestamp

abbrev pub condition_ids : List MarketDiscoveryObservationPayload → List String
condition_ids observations = map (λ item. item.condition_id) observations

-- The validator that runs when a result is built.
unfoldable pub validate_unique_markets : StrategyDiscoveryResult → Result StrategyDiscoveryResult
validate_unique_markets result = do
  raise_if (not (is_distinct (condition_ids result.observations)))
      (value_error "strategy result contains duplicate market observations")
  ok result

unfoldable pub market_count : StrategyDiscoveryResult → ℕ
market_count result = length (distinct (condition_ids result.observations))

pub record StrategyExecutionLogEntry : Type 0 where
  pub strategy : String
  pub version : String
  pub status : Status
  pub started_at : Timestamp
  pub finished_at : Option Timestamp
  pub error_message : Option String

pub record DiscoveryRunResult : Type 0 where
  pub run_id : Option String
  pub status : Status
  pub strategies : List String
  pub observation_count : ℕ
  pub discovered_market_count : ℕ
  pub generated_at : Timestamp
  pub skip_reason : Option String
