-- ===== src/Markets/Gamma/Contract.antt =====
-- What a parsed market guarantees.
use polymarket_market_discov.Base.{◌≡◌, ◌≢◌, refl, ap, List, [], ◌∷◌, arith, eq_iff, ◌↔◌, inl, inr}
use polymarket_market_discov.Base.Json.{Fields}
use polymarket_market_discov.Base.Result.{Exception, ok, raise, Result-cases}
use polymarket_market_discov.Base.Runtime.{Runtime}
use polymarket_market_discov.Markets.Domain.{
  MarketTokenPayload, PolymarketMarketPayload, validate_binary_token_contract,
}
use polymarket_market_discov.Markets.Gamma.{parse_gamma_market}

-- Two tokens, which differ in their identifier, in their outcome and in their index.
pub record IsBinary (payload : PolymarketMarketPayload) : Type 0 where
  pub first : MarketTokenPayload
  pub second : MarketTokenPayload
  pub both : payload.tokens ≡ first ∷ second ∷ []
  pub token_ids_differ : first.token_id ≢ second.token_id
  pub outcomes_differ : first.outcome ≢ second.outcome
  pub indices_differ : first.outcome_index ≢ second.outcome_index

validate-two :
    (payload : PolymarketMarketPayload) (tokens : List MarketTokenPayload)
    → payload.tokens ≡ tokens
    → {result : PolymarketMarketPayload} → validate_binary_token_contract payload ≡ ok result
    → (result ≡ payload) × IsBinary payload
unfolding validate_binary_token_contract
validate-two payload [] e h = ground arith
validate-two payload (a ∷ []) e h = ground arith
validate-two payload (a ∷ b ∷ []) e h = (
  ground arith,
  record {
    first = a;
    second = b;
    both = e;
    token_ids_differ = ground (arith, eq_iff a.token_id b.token_id);
    outcomes_differ = ground (arith, eq_iff a.outcome b.outcome);
    indices_differ = ground arith;
  },
)
validate-two payload (a ∷ b ∷ c ∷ tokens) e h = ground arith

validate_complete :
    (payload : PolymarketMarketPayload) (a b : MarketTokenPayload)
    → payload.tokens ≡ a ∷ b ∷ []
    → a.token_id ≢ b.token_id
    → a.outcome ≢ b.outcome
    → a.outcome_index ≢ b.outcome_index
    → validate_binary_token_contract payload ≡ ok payload
unfolding validate_binary_token_contract
validate_complete payload a b e ids outcomes indices =
    ground (arith, eq_iff a.token_id b.token_id, eq_iff a.outcome b.outcome)

validate_binary :
    (payload : PolymarketMarketPayload)
    → IsBinary payload
    → validate_binary_token_contract payload ≡ ok payload
validate_binary payload b =
    validate_complete payload b.first b.second b.both b.token_ids_differ b.outcomes_differ
      b.indices_differ

-- The validator returns a result exactly where the payload has two tokens that differ in identifier,
-- outcome and index, and the result is the payload as it was; it raises exactly for the others.
pub validate_binary_token_contract_iff :
    (payload result : PolymarketMarketPayload)
    → ((validate_binary_token_contract payload ≡ ok result)
        ↔ ((result ≡ payload) × IsBinary payload))
      × (((exc : Exception) × (validate_binary_token_contract payload ≡ raise exc))
          ↔ ¬ IsBinary payload)
validate_binary_token_contract_iff payload result = (
  (
    λ h. validate-two payload payload.tokens refl h,
    λ (same, b). rw same (validate_binary payload b),
  ),
  (
    λ (exc, h) b. let accepted = validate_binary payload b in cc,
    λ other. elim (Result-cases (validate_binary_token_contract payload)) [
      | inl raised ↦ raised
      | inr (found, e) ↦ absurd (other (validate-two payload payload.tokens refl e).1)
    ],
  ),
)

validate_result :
    (payload result : PolymarketMarketPayload)
    → validate_binary_token_contract payload ≡ ok result
    → result ≡ payload
validate_result payload result h = (validate-two payload payload.tokens refl h).0

validate-IsBinary :
    (payload result : PolymarketMarketPayload)
    → validate_binary_token_contract payload ≡ ok result
    → IsBinary result
validate-IsBinary payload result h =
    let e = validate_result payload result h in rw e (validate-two payload payload.tokens refl h).1

validate_raw_payload :
    (payload result : PolymarketMarketPayload)
    → validate_binary_token_contract payload ≡ ok result
    → result.raw_payload ≡ payload.raw_payload
validate_raw_payload payload result h = ap (λ p. p.raw_payload) (validate_result payload result h)

-- A row that is parsed gives a market with the binary contract, which keeps the row itself.
pub parse_gamma_market-IsBinary :
    (py : Runtime) (row : Fields) {payload : PolymarketMarketPayload}
    → parse_gamma_market py row ≡ ok payload
    → IsBinary payload × (payload.raw_payload ≡ row)
unfolding parse_gamma_market
parse_gamma_market-IsBinary py row h =
    (grind (arith, validate-IsBinary), grind (arith, validate_raw_payload))
