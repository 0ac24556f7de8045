-- ===== src/Orderbooks/Repository.antt =====
-- `orderbooks/repository.py`: the rows of a collection.
use polymarket_market_discov.Base.{
  ℕ, max, String, Bool, false, not, ◌&&◌, Option, none, some, List, [], ◌∷◌, ◌++◌, map, length, eqb,
  leb, ◌==◌, if◌then◌else◌, update_where, any_of,
}
use polymarket_market_discov.Base.Dict.{distinct}
use polymarket_market_discov.Base.Result.{Result, ok, Exec, ◌>>=◌, ◌>>◌}
use polymarket_market_discov.Base.Sort.{sort_by, leb_text}
use polymarket_market_discov.Core.Models.{
  Database, MarketRegistrySyncRun, PolymarketMarket, PolymarketToken, OrderbookCollectionRun,
  OrderbookCollectionItem, OrderbookSnapshot,
}
use polymarket_market_discov.Core.Session.{transaction, constraint}
use polymarket_market_discov.Core.Status.{
  Status, pending, running, completed, partial, failed, status_eq,
}
use polymarket_market_discov.Core.Time.{Timestamp}
use polymarket_market_discov.Orderbooks.Domain.{OrderBookCollectionItemPayload, ParsedOrderBook}

abbrev later_of : Option Timestamp → Option Timestamp → Option Timestamp
later_of none t = t
later_of (some s) none = some s
later_of (some s) (some t) = some (max s t)

-- `max(finished_at)` over the completed syncs.
unfoldable pub last_finished : List MarketRegistrySyncRun → Option Timestamp
last_finished [] = none
last_finished (run ∷ runs) =
    let rest = last_finished runs in
    if status_eq run.status completed then later_of run.finished_at rest else rest

unfoldable pub get_last_successful_market_registry_sync_at : Database → Option Timestamp
get_last_successful_market_registry_sync_at db = last_finished db.sync_runs

-- `column.is_(True)` and `column.is_(False)`
abbrev pub is_true : Option Bool → Bool
is_true none = false
is_true (some b) = b

abbrev pub is_false : Option Bool → Bool
is_false none = false
is_false (some b) = not b

abbrev pub is_collectable : PolymarketMarket → Bool
is_collectable market =
    is_true market.active
    && is_false market.closed
    && is_false market.archived
    && is_true market.enable_order_book

unfoldable pub has_collectable_markets : Database → Bool
has_collectable_markets db = any_of is_collectable db.markets

abbrev pub is_collection_run : String → OrderbookCollectionRun → Bool
is_collection_run run_id run = run.run_id == run_id

abbrev pub new_collection_run : String → Timestamp → ℕ → ℕ → OrderbookCollectionRun
new_collection_run run_id started_at batch_size max_age = record {
  run_id = run_id;
  started_at = started_at;
  finished_at = none;
  status = running;
  selected_market_count = 0;
  selected_token_count = 0;
  success_count = 0;
  failure_count = 0;
  batch_size = batch_size;
  market_registry_max_age_seconds = max_age;
  error_message = none;
}

unfoldable pub create_orderbook_collection_run :
    String → Timestamp → ℕ → ℕ → Exec Database (Unit {0})
create_orderbook_collection_run run_id started_at batch_size max_age = transaction λ db. do
  constraint (any_of (is_collection_run run_id) db.collection_runs) "orderbook_collection_runs_pkey"
  ok (
    tt,
    record db {
      collection_runs =
          db.collection_runs ++ new_collection_run run_id started_at batch_size max_age ∷ [];
    },
  )

-- A row of the join of the two tables.
abbrev pub Row : Type 0
Row = PolymarketMarket × PolymarketToken

abbrev pub tokens_of : PolymarketMarket → List PolymarketToken → List Row
tokens_of market [] = []
tokens_of market (token ∷ tokens) =
    let rest = tokens_of market tokens in
    if token.condition_id == market.condition_id then (market, token) ∷ rest else rest

unfoldable pub collectable_rows : List PolymarketMarket → List PolymarketToken → List Row
collectable_rows [] tokens = []
collectable_rows (market ∷ markets) tokens =
    let rest = collectable_rows markets tokens in
    if is_collectable market then tokens_of market tokens ++ rest else rest

-- `order_by(condition_id, outcome_index)`
abbrev pub row_before : Row → Row → Bool
row_before (m, t) (n, u) =
    if m.condition_id == n.condition_id
    then leb t.outcome_index u.outcome_index
    else leb_text m.condition_id n.condition_id

abbrev pub item_payload : Timestamp → Row → OrderBookCollectionItemPayload
item_payload selected_at (market, token) = record {
  condition_id = market.condition_id;
  token_id = token.token_id;
  outcome = token.outcome;
  market_status_checked_at = market.status_checked_at;
  selected_at = selected_at;
}

unfoldable pub collectable_items : Timestamp → Database → List OrderBookCollectionItemPayload
collectable_items selected_at db =
    map (item_payload selected_at) (sort_by row_before (collectable_rows db.markets db.tokens))

abbrev pub pending_item : String → OrderBookCollectionItemPayload → OrderbookCollectionItem
pending_item run_id item = record {
  run_id = run_id;
  condition_id = item.condition_id;
  token_id = item.token_id;
  outcome = item.outcome;
  market_status_checked_at = item.market_status_checked_at;
  selected_at = item.selected_at;
  status = pending;
  api_error = none;
}

abbrev pub is_item : String → String → OrderbookCollectionItem → Bool
is_item run_id token_id item = item.run_id == run_id && item.token_id == token_id

unfoldable pub add_items :
    String
    → List OrderBookCollectionItemPayload
    → List OrderbookCollectionItem
    → Result (List OrderbookCollectionItem)
add_items run_id [] items = ok items
add_items run_id (new ∷ news) items = do
  constraint (any_of (is_item run_id new.token_id) items) "uq_orderbook_item_run_token"
  add_items run_id news (items ++ pending_item run_id new ∷ [])

abbrev pub item_conditions : List OrderBookCollectionItemPayload → List String
item_conditions items = map (λ item. item.condition_id) items

abbrev pub count_selected :
    List OrderBookCollectionItemPayload → OrderbookCollectionRun → OrderbookCollectionRun
count_selected items run = record run {
  selected_market_count = length (distinct (item_conditions items));
  selected_token_count = length items;
}

unfoldable pub snapshot_collectable_markets :
    String → Timestamp → Exec Database (List OrderBookCollectionItemPayload)
snapshot_collectable_markets run_id selected_at = transaction λ db. do
  let items = collectable_items selected_at db
  rows ← add_items run_id items db.collection_items
  ok (
    items,
    record db {
      collection_items = rows;
      collection_runs =
          update_where (is_collection_run run_id) (count_selected items) db.collection_runs;
    },
  )

unfoldable pub collection_status : ℕ → ℕ → Status
collection_status success_count failure_count =
    if eqb failure_count 0 then completed else if eqb success_count 0 then failed else partial

abbrev pub is_snapshot : String → String → OrderbookSnapshot → Bool
is_snapshot run_id token_id snapshot = snapshot.run_id == run_id && snapshot.token_id == token_id

unfoldable pub add_books :
    String → List ParsedOrderBook → List OrderbookSnapshot → Result (List OrderbookSnapshot)
add_books run_id [] rows = ok rows
add_books run_id (book ∷ books) rows = do
  constraint (any_of (is_snapshot run_id book.token_id) rows) "uq_orderbook_snapshot_run_token"
  add_books run_id books (rows ++ record { run_id = run_id; book = book } ∷ [])

abbrev pub succeed_item : OrderbookCollectionItem → OrderbookCollectionItem
succeed_item item = record item { status = completed; api_error = none }

abbrev pub fail_item : String → OrderbookCollectionItem → OrderbookCollectionItem
fail_item error item = record item { status = failed; api_error = some error }

-- The two `for` loops' updates of the items.
unfoldable pub succeed_items :
    String → List ParsedOrderBook → List OrderbookCollectionItem → List OrderbookCollectionItem
succeed_items run_id [] items = items
succeed_items run_id (book ∷ books) items =
    succeed_items run_id books (update_where (is_item run_id book.token_id) succeed_item items)

unfoldable pub fail_items_by_token :
    String → List (String × String) → List OrderbookCollectionItem → List OrderbookCollectionItem
fail_items_by_token run_id [] items = items
fail_items_by_token run_id ((token_id, error) ∷ errors) items =
    fail_items_by_token run_id errors
      (update_where (is_item run_id token_id) (fail_item error) items)
