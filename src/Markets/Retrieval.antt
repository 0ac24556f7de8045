-- ===== src/Markets/Retrieval.antt =====
-- `_retrieve_market_batch` and `_index_gamma_payloads` of `markets/service.py`.
pub mod Complete
use polymarket_market_discov.Base.{
  String, Bool, true, false, not, Option, none, some, List, [], ◌∷◌, map, keep_if, if◌then◌else◌,
}
use polymarket_market_discov.Base.Dict.{contains, lookup, insert, keys}
use polymarket_market_discov.Base.Json.{Fields}
use polymarket_market_discov.Base.Result.{
  Result, ok, raise, value_error, key_error, raise_if, ◌>>=◌, ◌>>◌,
}
use polymarket_market_discov.Base.Runtime.{Runtime}
use polymarket_market_discov.Base.Sort.{sorted_set}
use polymarket_market_discov.Base.Text.{f_string, join}
use polymarket_market_discov.Markets.Domain.{PolymarketMarketPayload}
use polymarket_market_discov.Markets.Gamma.{parse_gamma_market}

-- What the service uses of the client: `get_gamma_markets(condition_ids, closed=...)`, and the
-- equality of payloads, which pydantic defines.
pub record Gamma : Type 0 where
  pub get_gamma_markets : List String → Bool → Result (List Fields)
  pub same_payload : PolymarketMarketPayload → PolymarketMarketPayload → Bool

abbrev pub Index : Type 0
Index = List (String × PolymarketMarketPayload)

abbrev pub condition_ids : List PolymarketMarketPayload → List String
condition_ids payloads = map (λ payload. payload.condition_id) payloads

-- `sorted(set(ids) - set(others))`
abbrev pub difference : List String → List String → List String
difference ids others = sorted_set (keep_if (λ id. not (contains id others)) ids)

abbrev pub is_empty : List String → Bool
is_empty [] = true
is_empty (x ∷ xs) = false

module _ (py : Runtime) (gamma : Gamma) where
  abbrev pub add_payload :
      Index → PolymarketMarketPayload → Option PolymarketMarketPayload → Result Index
  add_payload indexed payload none = ok (insert payload.condition_id payload indexed)
  add_payload indexed payload (some existing) =
      if gamma.same_payload existing payload
      then raise
          (value_error (f_string ("Gamma returned duplicate market " ∷ payload.condition_id ∷ [])))
      else raise (
          value_error (f_string ("Gamma returned conflicting market " ∷ payload.condition_id ∷ [])))

  -- The `for` loop, from the entries `indexed`.
  unfoldable pub index_loop : List PolymarketMarketPayload → Index → Result Index
  index_loop [] indexed = ok indexed
  index_loop (payload ∷ payloads) indexed = do
    indexed' ← add_payload indexed payload (lookup payload.condition_id indexed)
    index_loop payloads indexed'

  unfoldable pub index_gamma_payloads :
      List PolymarketMarketPayload → (requested_ids : List String) → Result Index
  index_gamma_payloads payloads requested_ids = do
    let unexpected_ids = difference (condition_ids payloads) requested_ids
    raise_if (not (is_empty unexpected_ids)) (
        value_error
          (f_string ("Gamma returned unexpected markets: " ∷ join ", " unexpected_ids ∷ [])))
    index_loop payloads []

  -- `[parse_gamma_market(row) for row in rows]`
  unfoldable pub parse_rows : List Fields → Result (List PolymarketMarketPayload)
  parse_rows [] = ok []
  parse_rows (row ∷ rows) = do
    payload ← parse_gamma_market py row
    payloads ← parse_rows rows
    ok (payload ∷ payloads)

  -- `d.update(other)`
  unfoldable pub update_index : Index → Index → Index
  update_index indexed [] = indexed
  update_index indexed ((k, v) ∷ other) = update_index (insert k v indexed) other

  -- `[d[id] for id in ids]`
  unfoldable pub collect : Index → List String → Result (List PolymarketMarketPayload)
  collect indexed [] = ok []
  collect indexed (id ∷ ids) = elim (lookup id indexed) [
    | none ↦ raise (key_error id)
    | some payload ↦ (do payloads ← collect indexed ids; ok (payload ∷ payloads))
  ]

  unfoldable pub fetch : List String → Bool → Result Index
  fetch ids closed = do
    rows ← gamma.get_gamma_markets ids closed
    payloads ← parse_rows rows
    index_gamma_payloads payloads ids

  -- The block under `if missing_ids`: the second request is for closed markets.
  unfoldable pub fetch_missing : List String → Index → List String → Result Index
  fetch_missing ids indexed [] = ok indexed
  fetch_missing ids indexed (id ∷ missing_ids) = do
    closed ← fetch (id ∷ missing_ids) true
    let updated = update_index indexed closed
    let still_missing = difference ids (keys updated)
    raise_if (not (is_empty still_missing)) (
        value_error (f_string ("Gamma omitted requested markets: " ∷ join ", " still_missing ∷ [])))
    ok updated

  unfoldable pub retrieve_market_batch : List String → Result (List PolymarketMarketPayload)
  retrieve_market_batch ids = do
    open_markets ← fetch ids false
    payload_by_condition ← fetch_missing ids open_markets (difference ids (keys open_markets))
    collect payload_by_condition ids
