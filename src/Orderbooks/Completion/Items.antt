-- ===== src/Orderbooks/Completion/Items.antt =====
-- What the end of a collection does to the item rows of its run.
use mathlib.Core.List.{append_assoc, append-nil}
use polymarket_market_discov.Base.{
  String, ◌≡◌, refl, sym, ◌∙◌, true, false, ◌||◌, List, [], ◌∷◌, ◌++◌, map, All, All-append, arith,
  eq_iff, update_where, any_of, any_of-update_where,
}
use polymarket_market_discov.Base.Dict.{contains, keys}
use polymarket_market_discov.Base.Result.{ok, >>=-eq-ok}
use polymarket_market_discov.Core.Models.{Database, OrderbookCollectionItem}
use polymarket_market_discov.Core.Session.{transaction-ok}
use polymarket_market_discov.Core.Status.{Status}
use polymarket_market_discov.Core.Time.{Timestamp}
use polymarket_market_discov.Orderbooks.Collection.{Collected}
use polymarket_market_discov.Orderbooks.Collection.Coverage.{is_book_of, is_covered}
use polymarket_market_discov.Orderbooks.Completion.{
  is_run_item, is_pending_item, complete_orderbook_collection_run, fail_orderbook_collection_run,
}
use polymarket_market_discov.Orderbooks.Domain.{OrderBookCollectionItemPayload, ParsedOrderBook}
use polymarket_market_discov.Orderbooks.Repository.{
  is_item, pending_item, add_items, add_books, succeed_item, fail_item, succeed_items,
  fail_items_by_token,
}

module _ (run_id : String) where
  -- A pending item of the run still has an error or a book to come.
  abbrev IsOwed : List (String × String) → List ParsedOrderBook → OrderbookCollectionItem → Type 0
  IsOwed errors books item =
      is_pending_item run_id item ≡ true
      → contains item.token_id (keys errors) || any_of (is_book_of item.token_id) books ≡ true

  abbrev Owed :
      List (String × String) → List ParsedOrderBook → List OrderbookCollectionItem → Type 0
  Owed errors books items = All (IsOwed errors books) items

  Owed-succeed :
      (errors : List (String × String)) (book : ParsedOrderBook) (books : List ParsedOrderBook)
      (items : List OrderbookCollectionItem)
      → Owed errors (book ∷ books) items
      → Owed errors books (update_where (is_item run_id book.token_id) succeed_item items)
  Owed-succeed errors book books [] owed = tt
  Owed-succeed errors book books (item ∷ items) (this, rest) = (
    (λ h.
        ground
          (arith, this, eq_iff book.token_id item.token_id, eq_iff item.token_id book.token_id)),
    Owed-succeed errors book books items rest,
  )

  Owed-succeed_items :
      (errors : List (String × String)) (books : List ParsedOrderBook)
      (items : List OrderbookCollectionItem)
      → Owed errors books items
      → Owed errors [] (succeed_items run_id books items)
  unfolding succeed_items
  Owed-succeed_items errors [] items owed = owed
  Owed-succeed_items errors (book ∷ books) items owed =
      Owed-succeed_items errors books _ (Owed-succeed errors book books items owed)

  Owed-fail :
      (token_id error : String) (errors : List (String × String))
      (items : List OrderbookCollectionItem)
      → Owed ((token_id, error) ∷ errors) [] items
      → Owed errors [] (update_where (is_item run_id token_id) (fail_item error) items)
  Owed-fail token_id error errors [] owed = tt
  Owed-fail token_id error errors (item ∷ items) (this, rest) = (
    (λ h. ground (arith, this, eq_iff token_id item.token_id, eq_iff item.token_id token_id)),
    Owed-fail token_id error errors items rest,
  )

  Owed-fail_items :
      (errors : List (String × String)) (items : List OrderbookCollectionItem)
      → Owed errors [] items
      → Owed [] [] (fail_items_by_token run_id errors items)
  unfolding fail_items_by_token
  Owed-fail_items [] items owed = owed
  Owed-fail_items ((token_id, error) ∷ errors) items owed =
      Owed-fail_items errors _ (Owed-fail token_id error errors items owed)

  none-Owed :
      (items : List OrderbookCollectionItem)
      → Owed [] [] items
      → any_of (is_pending_item run_id) items ≡ false
  none-Owed [] owed = refl
  none-Owed (item ∷ items) (this, rest) = ground (arith, this, none-Owed items rest)

  pub is_pending_item_none :
      (items : List OrderbookCollectionItem)
      → any_of (is_run_item run_id) items ≡ false
      → any_of (is_pending_item run_id) items ≡ false
  is_pending_item_none [] none_yet = refl
  is_pending_item_none (item ∷ items) none_yet = ground (arith, is_pending_item_none items)

  pub add_items-eq-ok :
      (news : List OrderBookCollectionItemPayload) (items result : List OrderbookCollectionItem)
      → add_items run_id news items ≡ ok result
      → result ≡ items ++ map (pending_item run_id) news
  unfolding add_items
  add_items-eq-ok [] items result h = let e : result ≡ items = cc in rw e (sym (append-nil _))
  add_items-eq-ok (new ∷ news) items result h =
      let later : add_items run_id news (items ++ pending_item run_id new ∷ []) ≡ ok result =
        ground arith in
      add_items-eq-ok news (items ++ pending_item run_id new ∷ []) result later
      ∙ append_assoc items (pending_item run_id new ∷ []) (map (pending_item run_id) news)

  Owed-old :
      (c : Collected) (items : List OrderbookCollectionItem)
      → any_of (is_run_item run_id) items ≡ false
      → Owed c.errors c.snapshots items
  Owed-old c [] none_yet = tt
  Owed-old c (item ∷ items) none_yet = ((λ h. ground arith), Owed-old c items (ground arith))

  Owed-new :
      (c : Collected) (news : List OrderBookCollectionItemPayload)
      → All (λ new. is_covered c new.token_id ≡ true) news
      → Owed c.errors c.snapshots (map (pending_item run_id) news)
  Owed-new c [] covered = tt
  Owed-new c (new ∷ news) (this, rest) = ((λ h. this), Owed-new c news rest)

  -- A completed collection of covered items leaves none of them pending.
  pub complete_orderbook_collection_run-resolves :
      (c : Collected) (finished_at : Timestamp) (news : List OrderBookCollectionItemPayload)
      (old : List OrderbookCollectionItem) (db : Database) (status : Status)
      → any_of (is_run_item run_id) old ≡ false
      → db.collection_items ≡ old ++ map (pending_item run_id) news
      → All (λ new. is_covered c new.token_id ≡ true) news
      → (complete_orderbook_collection_run run_id c finished_at db).0 ≡ ok status
      → any_of
          (is_pending_item run_id)
          (complete_orderbook_collection_run run_id c finished_at db).1.collection_items
        ≡ false
  unfolding complete_orderbook_collection_run
  complete_orderbook_collection_run-resolves c finished_at news old db status fresh start covered
        h =
      let body = transaction-ok _ db h in
      let (rows, added, last) =
        >>=-eq-ok (add_books run_id c.snapshots db.orderbook_snapshots) _ body in
      let written : (complete_orderbook_collection_run run_id c finished_at db).1.collection_items
          ≡ fail_items_by_token run_id c.errors
              (succeed_items run_id c.snapshots db.collection_items) =
        cc in
      let owed =
        All-append (IsOwed c.errors c.snapshots) old _ (Owed-old c old fresh)
          (Owed-new c news covered) in
      rw (written, start)
        (none-Owed _ (Owed-fail_items c.errors _ (Owed-succeed_items c.errors c.snapshots _ owed)))

  pub fail_orderbook_collection_run-resolves :
      (finished_at : Timestamp) (error : String) (db : Database)
      → any_of
          (is_pending_item run_id)
          (fail_orderbook_collection_run run_id finished_at error db).collection_items
        ≡ false
  unfolding fail_orderbook_collection_run
  fail_orderbook_collection_run-resolves finished_at error db =
      any_of-update_where (is_pending_item run_id) (is_pending_item run_id) (fail_item error)
        db.collection_items (λ item h. ground arith) (λ item h. h)
