-- ===== src/Discovery/Strategies/Positions.antt =====
-- `_collect_wallet_positions`, `_collect_single_wallet_positions` and `_normalize_position_evidence`
-- of `discovery/strategies/whale_leaderboard.py`. `asyncio.gather` is the calls in their order: of
-- several exceptions the first is raised.
pub mod Grouping
pub mod Collected
use polymarket_market_discov.Base.{
  ℕ, String, Bool, true, false, not, Option, none, some, List, [], ◌∷◌, ◌++◌, length, leb, ◌==◌,
}
use polymarket_market_discov.Base.Decimal.{Decimal, zero_decimal}
use polymarket_market_discov.Base.Dict.{lookup, insert}
use polymarket_market_discov.Base.Json.{Json, string, list, dict, Fields, end, field, elements}
use polymarket_market_discov.Base.Result.{Result, ok, raise, value_error, raise_if, ◌>>=◌, ◌>>◌}
use polymarket_market_discov.Base.Runtime.{Runtime}
use polymarket_market_discov.Base.Text.{f_string}
use polymarket_market_discov.Core.Time.{Timestamp}
use polymarket_market_discov.Discovery.Domain.{
  DiscoveryEvidenceItem, DiscoveryEvidenceEnvelope, MarketDiscoveryObservationPayload,
}
use polymarket_market_discov.Discovery.Strategies.Paging.{pages, finished}
use polymarket_market_discov.Discovery.Strategies.Rows.{DataApi, required_string, required_decimal}
use polymarket_market_discov.Polymarket.Params.{
  not_given, PositionsInput, CurrentPositionsParams, current_positions_params,
}

abbrev pub max_position_offset : ℕ
max_position_offset = 10000

abbrev pub position_page_limit : ℕ
position_page_limit = 500

pub record WhalePositionEvidenceData : Type 0 where
  pub proxy_wallet : String
  pub outcome_token_id : String
  pub opposite_token_id : String
  pub outcome : String
  pub opposite_outcome : String
  pub position_size : Decimal
  pub current_value : Decimal
  pub raw_position : Fields

-- `Field(min_length=1)`
abbrev min_length : String → String → Result (Unit {0})
min_length name value = raise_if (value == "") (value_error name)

-- `WhalePositionEvidenceData(...)`
unfoldable pub evidence_data : WhalePositionEvidenceData → Result WhalePositionEvidenceData
evidence_data given = do
  min_length "proxy_wallet" given.proxy_wallet
  min_length "outcome_token_id" given.outcome_token_id
  min_length "opposite_token_id" given.opposite_token_id
  min_length "outcome" given.outcome
  min_length "opposite_outcome" given.opposite_outcome
  ok given

-- A condition id with an item of evidence.
abbrev pub Row : Type 0
Row = String × DiscoveryEvidenceItem

abbrev pub Evidence : Type 0
Evidence = List (String × List DiscoveryEvidenceItem)

module _ (py : Runtime) where
  -- `data.model_dump(mode="json")`
  unfoldable pub dump_evidence : WhalePositionEvidenceData → Fields
  dump_evidence given = field "proxy_wallet" (string given.proxy_wallet) (
      field "outcome_token_id" (string given.outcome_token_id) (
        field "opposite_token_id" (string given.opposite_token_id) (
          field "outcome" (string given.outcome) (
            field "opposite_outcome" (string given.opposite_outcome) (
              field "position_size" (string (py.decimal_text given.position_size)) (
                field "current_value" (string (py.decimal_text given.current_value))
                  (field "raw_position" (dict given.raw_position) end)))))))

  unfoldable pub normalize_position_evidence : Fields → String → Result Row
  normalize_position_evidence row wallet = do
    condition_id ← required_string py row "conditionId"
    outcome_token_id ← required_string py row "asset"
    opposite_token_id ← required_string py row "oppositeAsset"
    outcome ← required_string py row "outcome"
    opposite_outcome ← required_string py row "oppositeOutcome"
    position_size ← required_decimal py row "size"
    current_value ← required_decimal py row "currentValue"
    evidence ← evidence_data (record {
      proxy_wallet = wallet;
      outcome_token_id = outcome_token_id;
      opposite_token_id = opposite_token_id;
      outcome = outcome;
      opposite_outcome = opposite_outcome;
      position_size = position_size;
      current_value = current_value;
      raw_position = row;
    })
    ok (
      condition_id,
      record {
        kind = "whale_position";
        source = "polymarket_data_api.current_positions";
        payload = dump_evidence evidence;
      },
    )

  module _ (api : DataApi) (wallet : String) where
    abbrev add_position : List Row → Result Row → Result (List Row)
    add_position positions (raise exc) = raise exc
    add_position positions (ok position) = ok (positions ++ position ∷ [])

    -- The loop over the rows of a page.
    unfoldable pub read_positions : List Json → List Row → Result (List Row)
    read_positions [] positions = ok positions
    read_positions (dict row ∷ rows) positions = do
      found ← add_position positions (normalize_position_evidence row wallet)
      read_positions rows found
    read_positions (row ∷ rows) positions =
        raise (value_error (f_string ("position row for " ∷ wallet ∷ " must be an object" ∷ [])))

    abbrev pub positions_request : ℕ → PositionsInput
    positions_request offset = record {
      user = wallet;
      market = not_given;
      event_id = not_given;
      size_threshold = zero_decimal;
      redeemable = false;
      mergeable = false;
      limit = position_page_limit;
      offset = offset;
      sort_by = "CURRENT";
      sort_direction = "DESC";
      title = none;
    }

    abbrev pub after_positions : List Json → Result (List Row) → Result (List Row × Bool)
    after_positions page (raise exc) = raise exc
    after_positions page (ok positions) = ok (positions, leb position_page_limit (length page))

    abbrev pub read_positions_page : List Row → Json → Result (List Row × Bool)
    read_positions_page positions (list items) = elim (elements items) [
      | [] ↦ ok (positions, false)
      | row ∷ rows ↦ after_positions (row ∷ rows) (read_positions (row ∷ rows) positions)
    ]
    read_positions_page positions payload =
        raise (value_error (f_string ("positions response for " ∷ wallet ∷ " must be a list" ∷ [])))

    abbrev pub positions_page : List Row → CurrentPositionsParams → Result (List Row × Bool)
    positions_page positions params = do
      payload ← api.get_current_positions params
      read_positions_page positions payload

    -- The body of the `while` loop.
    unfoldable pub positions_round : ℕ → List Row → Result (List Row × Bool)
    positions_round offset positions = do
      params ← current_positions_params py (positions_request offset)
      positions_page positions params

    abbrev pub wants_positions : ℕ → List Row → Bool
    wants_positions offset positions = leb offset max_position_offset

    -- The offsets are 0, 500, ..., 10000: 21 rounds, and the test that ends the loop. `none` would
    -- say that the fuel ran out.
    abbrev pub positions_fuel : ℕ
    positions_fuel = 22

    unfoldable pub collect_single_wallet_positions : Option (Result (List Row))
    unfolding pages
    collect_single_wallet_positions =
        pages wants_positions positions_round position_page_limit positions_fuel 0 []

  unfoldable pub gather_positions : DataApi → List String → Result (List (List Row))
  unfolding collect_single_wallet_positions
  gather_positions api [] = ok []
  gather_positions api (wallet ∷ wallets) = do
    result ← finished (collect_single_wallet_positions api wallet)
    results ← gather_positions api wallets
    ok (result ∷ results)

abbrev pub or_empty {ℓ} : {A : Type ℓ} → Option (List A) → List A
or_empty none = []
or_empty (some items) = items

-- `evidence_by_condition.setdefault(condition_id, []).append(evidence_item)`
abbrev pub add_evidence : Row → Evidence → Evidence
add_evidence (condition_id, item) evidence =
    insert condition_id (or_empty (lookup condition_id evidence) ++ item ∷ []) evidence

unfoldable pub group_rows : List Row → Evidence → Evidence
group_rows [] evidence = evidence
group_rows (row ∷ rows) evidence = group_rows rows (add_evidence row evidence)

unfoldable pub group_results : List (List Row) → Evidence → Evidence
group_results [] evidence = evidence
group_results (result ∷ results) evidence = group_results results (group_rows result evidence)

abbrev pub is_empty {ℓ} : {A : Type ℓ} → List A → Bool
is_empty [] = true
is_empty (item ∷ items) = false

-- `MarketDiscoveryObservationPayload(...)` with its envelope, and their constraints.
unfoldable pub observation :
    Timestamp → String → List DiscoveryEvidenceItem → Result MarketDiscoveryObservationPayload
observation observed_at condition_id items = do
  raise_if (is_empty items) (value_error "items")
  min_length "condition_id" condition_id
  ok (record {
    condition_id = condition_id;
    observed_at = observed_at;
    evidence_json = record { schema_version = 1; items = items };
  })

unfoldable pub observations : Timestamp → Evidence → Result (List MarketDiscoveryObservationPayload)
observations observed_at [] = ok []
observations observed_at ((condition_id, items) ∷ evidence) = do
  first ← observation observed_at condition_id items
  rest ← observations observed_at evidence
  ok (first ∷ rest)

unfoldable pub collect_wallet_positions :
    Runtime → DataApi → List String → Timestamp → Result (List MarketDiscoveryObservationPayload)
unfolding gather_positions group_results group_rows observations
collect_wallet_positions py api wallets observed_at = do
  results ← gather_positions py api wallets
  observations observed_at (group_results results [])
