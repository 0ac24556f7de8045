-- ===== src/Orderbooks/Completion.antt =====
-- `complete_orderbook_collection_run` and `fail_orderbook_collection_run` of
-- `orderbooks/repository.py`.
pub mod Items
pub mod Verdicts
use polymarket_market_discov.Base.{
  ℕ, String, Bool, not, ◌&&◌, Option, none, some, List, ◌∷◌, length, ◌==◌, if◌then◌else◌, keep_if,
  update_where, any_of,
}
use polymarket_market_discov.Base.Dict.{values}
use polymarket_market_discov.Base.Result.{ok, Exec, ◌>>=◌, ◌>>◌}
use polymarket_market_discov.Base.Text.{join}
use polymarket_market_discov.Core.Models.{Database, OrderbookCollectionRun, OrderbookCollectionItem}
use polymarket_market_discov.Core.Session.{transaction, constraint}
use polymarket_market_discov.Core.Status.{Status, pending, failed, status_eq}
use polymarket_market_discov.Core.Time.{Timestamp}
use polymarket_market_discov.Orderbooks.Collection.{Collected}
use polymarket_market_discov.Orderbooks.Repository.{
  is_collection_run, collection_status, add_books, succeed_items, fail_items_by_token, fail_item,
}

-- `text or None`
abbrev pub or_none : String → Option String
or_none text = if text == "" then none else some text

abbrev pub status_of : Collected → Status
status_of c = collection_status (length c.snapshots) (length c.errors)

abbrev pub end_run : Timestamp → Collected → OrderbookCollectionRun → OrderbookCollectionRun
end_run finished_at c run = record run {
  finished_at = some finished_at;
  status = status_of c;
  success_count = length c.snapshots;
  failure_count = length c.errors;
  error_message = or_none (join "; " (values c.errors));
}

unfoldable pub complete_orderbook_collection_run :
    String → Collected → Timestamp → Exec Database Status
complete_orderbook_collection_run run_id c finished_at = transaction λ db. do
  rows ← add_books run_id c.snapshots db.orderbook_snapshots
  ok (
    status_of c,
    record db {
      orderbook_snapshots = rows;
      collection_items =
          fail_items_by_token run_id c.errors
            (succeed_items run_id c.snapshots db.collection_items);
      collection_runs =
          update_where (is_collection_run run_id) (end_run finished_at c) db.collection_runs;
    },
  )

abbrev pub is_run_item : String → OrderbookCollectionItem → Bool
is_run_item run_id item = item.run_id == run_id

abbrev pub is_pending_item : String → OrderbookCollectionItem → Bool
is_pending_item run_id item = item.run_id == run_id && status_eq item.status pending

abbrev pub fail_collection :
    Timestamp → String → ℕ → OrderbookCollectionRun → OrderbookCollectionRun
fail_collection finished_at error_message failure_count run = record run {
  finished_at = some finished_at;
  status = failed;
  failure_count = failure_count;
  error_message = some error_message;
}

-- The failures are all items of the run, whatever became of them.
unfoldable pub fail_orderbook_collection_run : String → Timestamp → String → Database → Database
fail_orderbook_collection_run run_id finished_at error_message db = record db {
  collection_items =
      update_where (is_pending_item run_id) (fail_item error_message) db.collection_items;
  collection_runs =
      update_where (is_collection_run run_id)
        (fail_collection finished_at error_message
          (length (keep_if (is_run_item run_id) db.collection_items)))
        db.collection_runs;
}
