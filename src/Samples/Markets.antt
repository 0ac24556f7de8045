-- ===== src/Samples/Markets.antt =====
-- Tests of the registry sync.
use polymarket_market_discov.Base.{◌≡◌, ◌↔◌, refl, true, none, some, [], ◌∷◌, All, if◌then◌else◌}
use polymarket_market_discov.Base.Result.{Exception, ok, raise, api_error}
use polymarket_market_discov.Core.Recovery.Settled.{IsSettled}
use polymarket_market_discov.Core.Status.{completed}
use polymarket_market_discov.Core.Time.{east}
use polymarket_market_discov.Markets.Domain.{
  PolymarketMarketPayload, MarketRegistrySyncResult, validate_binary_token_contract,
  non_empty_string,
}
use polymarket_market_discov.Markets.Gamma.{
  parse_gamma_market, required_string, parse_string_list, parse_datetime, optional_bool,
  token_payloads, token_payload, optional_string,
}
use polymarket_market_discov.Markets.Gamma.Contract.{
  IsBinary, validate_binary_token_contract_iff, parse_gamma_market-IsBinary,
}
use polymarket_market_discov.Markets.Retrieval.{
  Gamma, condition_ids, retrieve_market_batch, fetch, parse_rows, index_gamma_payloads, index_loop,
  fetch_missing, collect, update_index,
}
use polymarket_market_discov.Base.Sort.{sorted_set, sort_by, insert_sorted, leb_text}
use polymarket_market_discov.Base.Batches.{batches, batches_from}
use polymarket_market_discov.Core.Session.{transaction}
use polymarket_market_discov.Markets.Tokens.{create_tokens}
use polymarket_market_discov.Markets.Registry.{sync_markets, sync_market, seen_bounds}
use polymarket_market_discov.Markets.Repository.{
  get_market_sync_input, unsynced_run_ids, pending_conditions, refresh_conditions,
  create_market_sync_run, complete_market_sync_run,
}
use polymarket_market_discov.Markets.Retrieval.Complete.{retrieve_market_batch_lem}
use polymarket_market_discov.Markets.Service.{
  run_markets, run_markets_locked, sync_pending, sync_input, retrieve_batches, build_market_run_id,
  market_registry_service,
}
use polymarket_market_discov.Markets.Service.Promises.{
  Synced, run_markets_locked-Synced, run_markets_locked-raise,
}
use polymarket_market_discov.Markets.Service.Settled.{run_markets-IsSettled}
use polymarket_market_discov.Samples.{py, market_row, discovered}

-- The API knows the market "c1", as an open one.
abbrev pub gamma : Gamma
gamma = record {
  get_gamma_markets = λ ids closed. if closed then ok [] else ok (market_row ∷ []);
  same_payload = λ p q. true;
}

abbrev gamma_down : Gamma
gamma_down = record {
  get_gamma_markets = λ ids closed. raise (api_error "down");
  same_payload = λ p q. true;
}

abbrev market_payload : PolymarketMarketPayload
market_payload = record {
  condition_id = "c1";
  event_id = none;
  slug = none;
  title = none;
  question = none;
  end_date = none;
  active = some true;
  closed = none;
  archived = none;
  enable_order_book = none;
  tokens =
      record { token_id = "t1"; outcome = "Yes"; outcome_index = 0 }
      ∷ record { token_id = "t2"; outcome = "No"; outcome_index = 1 }
      ∷ [];
  raw_payload = market_row;
}

validate_binary_token_contract_iff_example :
    ((validate_binary_token_contract market_payload ≡ ok market_payload)
      ↔ ((market_payload ≡ market_payload) × IsBinary market_payload))
    × (((exc : Exception) × (validate_binary_token_contract market_payload ≡ raise exc))
        ↔ ¬ IsBinary market_payload)
validate_binary_token_contract_iff_example =
    validate_binary_token_contract_iff market_payload market_payload

row_parsed : parse_gamma_market py market_row ≡ ok market_payload
unfolding parse_gamma_market required_string parse_string_list parse_datetime optional_bool
    token_payloads token_payload non_empty_string validate_binary_token_contract optional_string
row_parsed = refl

parse_gamma_market-IsBinary_example :
    IsBinary market_payload × (market_payload.raw_payload ≡ market_row)
parse_gamma_market-IsBinary_example =
    parse_gamma_market-IsBinary py market_row {payload = market_payload} row_parsed

batch_retrieved : retrieve_market_batch py gamma ("c1" ∷ []) ≡ ok (market_payload ∷ [])
unfolding retrieve_market_batch fetch parse_rows index_gamma_payloads index_loop fetch_missing
    collect update_index sorted_set sort_by insert_sorted leb_text parse_gamma_market
    required_string parse_string_list parse_datetime optional_bool token_payloads token_payload
    non_empty_string validate_binary_token_contract optional_string
batch_retrieved = refl

retrieve_market_batch_lem_example :
    (condition_ids (market_payload ∷ []) ≡ "c1" ∷ []) × All IsBinary (market_payload ∷ [])
retrieve_market_batch_lem_example =
    retrieve_market_batch_lem py gamma ("c1" ∷ []) (market_payload ∷ []) batch_retrieved

abbrev sync_result : MarketRegistrySyncResult
sync_result = record {
  run_id = some "T-markets";
  status = completed;
  input_discovery_run_ids = "d1" ∷ [];
  checked_market_count = 1;
  created_market_count = 1;
  updated_market_count = 0;
  generated_at = 5;
  skip_reason = none;
}

sync_completes : (run_markets_locked py gamma 100 5 6 7 discovered).0 ≡ ok sync_result
unfolding run_markets_locked sync_pending sync_input retrieve_batches batches batches_from
    build_market_run_id get_market_sync_input unsynced_run_ids pending_conditions refresh_conditions
    create_market_sync_run transaction complete_market_sync_run sync_markets sync_market seen_bounds
    create_tokens retrieve_market_batch fetch parse_rows index_gamma_payloads index_loop
    fetch_missing collect update_index sorted_set sort_by insert_sorted leb_text parse_gamma_market
    required_string parse_string_list parse_datetime optional_bool token_payloads token_payload
    non_empty_string validate_binary_token_contract optional_string
sync_completes = refl

run_markets_locked-Synced_example :
    Synced py gamma 100 5 6 7 discovered sync_result
      (run_markets_locked py gamma 100 5 6 7 discovered).1
unfolding market_registry_service
run_markets_locked-Synced_example =
    run_markets_locked-Synced py gamma 100 5 6 7 discovered sync_result refl sync_completes refl

sync_raises : (run_markets_locked py gamma_down 100 5 6 7 discovered).0 ≡ raise (api_error "down")
unfolding run_markets_locked sync_pending sync_input retrieve_batches batches batches_from
    build_market_run_id get_market_sync_input unsynced_run_ids pending_conditions refresh_conditions
    create_market_sync_run transaction retrieve_market_batch fetch sorted_set sort_by insert_sorted
    leb_text
sync_raises = refl

run_markets_locked-raise_example :
    (run_markets_locked py gamma_down 100 5 6 7 discovered).1 ≡ record discovered {
      sync_runs = (run_markets_locked py gamma_down 100 5 6 7 discovered).1.sync_runs;
    }
run_markets_locked-raise_example =
    run_markets_locked-raise py gamma_down 100 5 6 7 discovered (api_error "down") sync_raises

-- The sync that was left running is recovered, and the failed one is ended.
run_markets-IsSettled_example :
    IsSettled
      (run_markets py gamma_down 100 6 7 3
        (record { wall = 5; tzinfo = east 0 })
        (record { postgresql = true; owner = none }, discovered)).1.1
run_markets-IsSettled_example =
    run_markets-IsSettled py gamma_down 100 6 7 3 (record { wall = 5; tzinfo = east 0 })
      (record { postgresql = true; owner = none }) discovered refl
