-- ===== src/Orderbooks/Completion/Verdicts.antt =====
-- What becomes of every item row when a collection is completed, row by row.
use mathlib.Core.List.{map-map}
use polymarket_market_discov.Base.{
  String, ◌≡◌, refl, ap, ◌∙◌, Bool, true, false, ◌&&◌, Option, none, some, List, [], ◌∷◌, map,
  arith, eq_iff, ◌==◌, if◌then◌else◌, update_where, any_of, ap₂,
}
use polymarket_market_discov.Base.Dict.{keys, lookup, is_distinct, contains-keys}
use polymarket_market_discov.Base.Result.{Result, ok, >>=-eq-ok}
use polymarket_market_discov.Core.Models.{Database, OrderbookCollectionItem}
use polymarket_market_discov.Core.Session.{transaction-ok}
use polymarket_market_discov.Core.Status.{Status}
use polymarket_market_discov.Core.Time.{Timestamp}
use polymarket_market_discov.Orderbooks.Collection.{Collected, nothing_collected, collect_batches}
use polymarket_market_discov.Orderbooks.Collection.Errors.{collect_batches-HasOnce}
use polymarket_market_discov.Base.Json.{Json}
use polymarket_market_discov.Base.Runtime.{Runtime}
use polymarket_market_discov.Orderbooks.Collection.Coverage.{is_book_of}
use polymarket_market_discov.Orderbooks.Completion.{complete_orderbook_collection_run}
use polymarket_market_discov.Orderbooks.Domain.{OrderBookCollectionItemPayload, ParsedOrderBook}
use polymarket_market_discov.Orderbooks.Repository.{
  is_item, add_books, succeed_item, fail_item, succeed_items, fail_items_by_token,
}

-- An error fails the item, a book without an error completes it.
abbrev pub verdict : Option String → Bool → OrderbookCollectionItem → OrderbookCollectionItem
verdict (some error) booked item = fail_item error item
verdict none true item = succeed_item item
verdict none false item = item

abbrev pub final_item : String → Collected → OrderbookCollectionItem → OrderbookCollectionItem
final_item run_id c item =
    if item.run_id == run_id
    then verdict (lookup item.token_id c.errors) (any_of (is_book_of item.token_id) c.snapshots)
        item
    else item

update_where-map {ℓ} :
    {A : Type ℓ} (test : A → Bool) (values : A → A) (xs : List A)
    → update_where test values xs ≡ map (λ x. if test x then values x else x) xs
update_where-map test values [] = refl
update_where-map test values (x ∷ xs) =
    ap (λ rest. (if test x then values x else x) ∷ rest) (update_where-map test values xs)

map-eq {ℓ} : {A : Type ℓ} (f g : A → A) (xs : List A) → ((x : A) → f x ≡ g x) → map f xs ≡ map g xs
map-eq f g [] same = refl
map-eq f g (x ∷ xs) same = ap₂ (λ first rest. first ∷ rest) (same x) (map-eq f g xs same)

module _ (run_id : String) where
  abbrev succeeded : List ParsedOrderBook → OrderbookCollectionItem → OrderbookCollectionItem
  succeeded books item =
      if item.run_id == run_id && any_of (is_book_of item.token_id) books
      then succeed_item item
      else item

  succeed_items-map :
      (books : List ParsedOrderBook) (items : List OrderbookCollectionItem)
      → succeed_items run_id books items ≡ map (succeeded books) items
  unfolding succeed_items
  succeed_items-map [] [] = refl
  succeed_items-map [] (item ∷ items) =
      ap₂ (λ first rest. first ∷ rest) (ground arith) (succeed_items-map [] items)
  succeed_items-map (book ∷ books) items =
      succeed_items-map books (update_where (is_item run_id book.token_id) succeed_item items)
      ∙ ap (map (succeeded books))
          (update_where-map (is_item run_id book.token_id) succeed_item items)
      ∙ map-map (succeeded books) _ items
      ∙ map-eq _ (succeeded (book ∷ books)) items (λ item.
        ground (arith, eq_iff book.token_id item.token_id, eq_iff item.token_id book.token_id))

  abbrev failed_by : List (String × String) → OrderbookCollectionItem → OrderbookCollectionItem
  failed_by errors item =
      if item.run_id == run_id then verdict (lookup item.token_id errors) false item else item

  fail_items_by_token-map :
      (errors : List (String × String)) (items : List OrderbookCollectionItem)
      → is_distinct (keys errors) ≡ true
      → fail_items_by_token run_id errors items ≡ map (failed_by errors) items
  unfolding fail_items_by_token
  fail_items_by_token-map [] [] once = refl
  fail_items_by_token-map [] (item ∷ items) once =
      ap₂ (λ first rest. first ∷ rest) (ground arith) (fail_items_by_token-map [] items once)
  fail_items_by_token-map ((token_id, error) ∷ errors) items once =
      fail_items_by_token-map errors
        (update_where (is_item run_id token_id) (fail_item error) items) (ground arith)
      ∙ ap (map (failed_by errors))
          (update_where-map (is_item run_id token_id) (fail_item error) items)
      ∙ map-map (failed_by errors) _ items
      ∙ map-eq _ (failed_by ((token_id, error) ∷ errors)) items (λ item. ground (
        arith,
        eq_iff token_id item.token_id,
        eq_iff item.token_id token_id,
        contains-keys token_id errors,
      ))

  complete_orderbook_collection_run-final_item :
      (c : Collected) (finished_at : Timestamp) (db : Database) (status : Status)
      → is_distinct (keys c.errors) ≡ true
      → (complete_orderbook_collection_run run_id c finished_at db).0 ≡ ok status
      → (complete_orderbook_collection_run run_id c finished_at db).1.collection_items
        ≡ map (final_item run_id c) db.collection_items
  unfolding complete_orderbook_collection_run
  complete_orderbook_collection_run-final_item c finished_at db status once h =
      let body = transaction-ok _ db h in
      let (rows, added, last) =
        >>=-eq-ok (add_books run_id c.snapshots db.orderbook_snapshots) _ body in
      let written : (complete_orderbook_collection_run run_id c finished_at db).1.collection_items
          ≡ fail_items_by_token run_id c.errors
              (succeed_items run_id c.snapshots db.collection_items) =
        cc in
      written
      ∙ fail_items_by_token-map c.errors (succeed_items run_id c.snapshots db.collection_items) once
      ∙ ap (map (failed_by c.errors)) (succeed_items-map c.snapshots db.collection_items)
      ∙ map-map (failed_by c.errors) (succeeded c.snapshots) db.collection_items
      ∙ map-eq _ (final_item run_id c) db.collection_items (λ item. ground arith)

  -- A collection that is completed with what its batches gave leaves the items of other runs as they
  -- were. Of its own, an item whose token has an error is failed with the error's text, one whose
  -- token has a book and no error is completed without an error, and any other is as it was.
  pub collect_batches-final_item :
      (py : Runtime) (get_order_books : List String → Result Json) (started_at : Timestamp)
      (batches : List (List OrderBookCollectionItemPayload)) (finished_at : Timestamp)
      (db : Database) (status : Status)
      → (complete_orderbook_collection_run run_id
          (collect_batches py get_order_books started_at batches nothing_collected)
          finished_at
          db).0
        ≡ ok status
      → (complete_orderbook_collection_run run_id
          (collect_batches py get_order_books started_at batches nothing_collected)
          finished_at
          db).1.collection_items
        ≡ map
            (final_item run_id
              (collect_batches py get_order_books started_at batches nothing_collected))
            db.collection_items
  collect_batches-final_item py get_order_books started_at batches finished_at db status completed =
      let c = collect_batches py get_order_books started_at batches nothing_collected in
      complete_orderbook_collection_run-final_item c finished_at db status
        (collect_batches-HasOnce py started_at get_order_books batches nothing_collected refl)
        completed
