-- ===== src/Samples/Orderbooks.antt =====
-- Tests of the collection of orderbooks.
use polymarket_market_discov.Base.{
  String, ◌≡◌, refl, true, false, none, some, List, [], ◌∷◌, All, any_of, map,
}
use polymarket_market_discov.Base.Batches.{concat}
use polymarket_market_discov.Base.Json.{
  Json, string, list, dict, cons, nil, Fields, field, end, get,
}
use polymarket_market_discov.Base.Result.{Result, ok}
use polymarket_market_discov.Core.Models.{Database, empty_database}
use polymarket_market_discov.Core.Status.{completed, partial}
use polymarket_market_discov.Orderbooks.Domain.{OrderBookCollectionItemPayload, ParsedOrderBook}
use polymarket_market_discov.Orderbooks.Fields.{levels, exchange_timestamp_of}
use polymarket_market_discov.Orderbooks.Parser.{book_of, parse_orderbook_payload}
use polymarket_market_discov.Orderbooks.Parser.Book.{
  IsBest, IsHighest, IsLowest, is_valid_pair, price_fault, parse_orderbook_payload-IsBest,
  parse_orderbook_payload-valid,
}
use polymarket_market_discov.Orderbooks.Collection.{
  nothing_collected, collect_batches, collect_items, read_answers,
}
use polymarket_market_discov.Orderbooks.Collection.Coverage.{is_covered, collect_batches_covers}
use polymarket_market_discov.Orderbooks.Completion.{
  is_pending_item, complete_orderbook_collection_run,
}
use polymarket_market_discov.Orderbooks.Completion.Verdicts.{final_item, collect_batches-final_item}
use polymarket_market_discov.Orderbooks.Repository.{pending_item, add_books, collection_status}
use polymarket_market_discov.Core.Session.{transaction}
use polymarket_market_discov.Orderbooks.Service.{
  build_orderbook_run_id, orderbook_collection_service, run_orderbooks_locked,
}
use polymarket_market_discov.Orderbooks.Service.Resolved.{run_orderbooks_locked-resolves}
use polymarket_market_discov.Samples.{py, discovered}

abbrev level : String → Json
level price = dict (field "price" (string price) (field "size" (string "0.4") end))

abbrev book_row : Fields
book_row = field "asset_id" (string "t1") (
    field "bids" (list (cons (level "0.4") nil)) (field "asks" (list (cons (level "0.6") nil)) end))

abbrev sample_book : ParsedOrderBook
sample_book = book_of py "c1" "t1" book_row 5 none

book_parsed : parse_orderbook_payload py "c1" "t1" book_row 5 ≡ ok sample_book
unfolding parse_orderbook_payload exchange_timestamp_of
book_parsed = refl

parse_orderbook_payload-IsBest_example :
    IsBest IsHighest (levels py (get book_row "bids")) sample_book.best_bid
    × IsBest IsLowest (levels py (get book_row "asks")) sample_book.best_ask
parse_orderbook_payload-IsBest_example =
    parse_orderbook_payload-IsBest py "c1" "t1" book_row 5 sample_book book_parsed

parse_orderbook_payload-valid_example :
    (sample_book.valid_orderbook ≡ is_valid_pair sample_book.best_bid sample_book.best_ask)
    × (sample_book.invalid_reason ≡ price_fault sample_book.best_bid sample_book.best_ask)
parse_orderbook_payload-valid_example =
    parse_orderbook_payload-valid py "c1" "t1" book_row 5 sample_book book_parsed

-- The API knows the token "t1" only.
abbrev pub get_books : List String → Result Json
get_books ids = ok (list (cons (dict book_row) nil))

abbrev item : String → OrderBookCollectionItemPayload
item token_id = record {
  condition_id = "c1";
  token_id = token_id;
  outcome = "Yes";
  market_status_checked_at = 3;
  selected_at = 5;
}

abbrev two_batches : List (List OrderBookCollectionItemPayload)
two_batches = (item "t1" ∷ []) ∷ (item "t2" ∷ []) ∷ []

collect_batches_covers_example :
    All
      (λ i.
        is_covered (collect_batches py get_books 5 two_batches nothing_collected) i.token_id ≡ true)
      (concat two_batches)
collect_batches_covers_example = collect_batches_covers py 5 get_books two_batches nothing_collected

-- The registry was synced just before, and has one market with an orderbook.
abbrev synced : Database
synced = record discovered {
  sync_runs =
      record {
        run_id = "s1";
        status = completed;
        started_at = 1;
        finished_at = some 4;
        input_discovery_run_ids = [];
        checked_market_count = 1;
        created_market_count = 1;
        updated_market_count = 0;
        error_message = none;
      }
      ∷ [];
  markets =
      record {
        condition_id = "c1";
        event_id = none;
        slug = none;
        title = none;
        question = none;
        end_date = none;
        active = some true;
        closed = some false;
        archived = some false;
        enable_order_book = some true;
        first_discovered_at = 1;
        last_discovered_at = 1;
        status_checked_at = 4;
        raw_latest_payload = end;
        updated_at = 4;
      }
      ∷ [];
  tokens =
      record {
        token_id = "t1";
        condition_id = "c1";
        outcome = "Yes";
        outcome_index = 0;
        first_seen_at = 4;
        last_seen_at = 4;
      }
      ∷ record {
        token_id = "t2";
        condition_id = "c1";
        outcome = "No";
        outcome_index = 1;
        first_seen_at = 4;
        last_seen_at = 4;
      }
      ∷ [];
}

run_orderbooks_locked-resolves_example :
    any_of
      (is_pending_item (build_orderbook_run_id py 5))
      (run_orderbooks_locked py get_books 50 1800 5 6 synced).1.collection_items
    ≡ false
unfolding orderbook_collection_service
run_orderbooks_locked-resolves_example =
    run_orderbooks_locked-resolves py get_books 50 1800 5 6 synced refl refl

-- The two items, as a run "r1" has stored them.
abbrev two_items : Database
two_items = record empty_database {
  collection_items = pending_item "r1" (item "t1") ∷ pending_item "r1" (item "t2") ∷ [];
}

items_completed :
    (complete_orderbook_collection_run "r1"
      (collect_batches py get_books 5 two_batches nothing_collected)
      6
      two_items).0
    ≡ ok partial
unfolding complete_orderbook_collection_run transaction add_books collect_batches collect_items
    read_answers parse_orderbook_payload exchange_timestamp_of collection_status
items_completed = refl

collect_batches-final_item_example :
    (complete_orderbook_collection_run "r1"
      (collect_batches py get_books 5 two_batches nothing_collected)
      6
      two_items).1.collection_items
    ≡ map
        (final_item "r1" (collect_batches py get_books 5 two_batches nothing_collected))
        two_items.collection_items
collect_batches-final_item_example =
    collect_batches-final_item "r1" py get_books 5 two_batches 6 two_items partial items_completed
