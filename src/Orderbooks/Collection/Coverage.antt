-- ===== src/Orderbooks/Collection/Coverage.antt =====
-- No token of a collection is lost: each ends with a book or with an error.
use polymarket_market_discov.Base.{
  String, ◌≡◌, refl, Bool, true, false, ◌||◌, Option, none, some, List, [], ◌∷◌, ◌++◌, map, All,
  All-append, arith, eq_refl, ◌==◌, if◌then◌else◌, any_of,
}
use polymarket_market_discov.Base.Batches.{concat}
use polymarket_market_discov.Base.Dict.{
  contains, lookup, insert, keys, contains-keys, lookup-insert,
}
use polymarket_market_discov.Base.Json.{Json, dict, Fields, get}
use polymarket_market_discov.Base.Result.{Result, ok, raise, str}
use polymarket_market_discov.Base.Runtime.{Runtime}
use polymarket_market_discov.Core.Time.{Timestamp}
use polymarket_market_discov.Orderbooks.Domain.{OrderBookCollectionItemPayload, ParsedOrderBook}
use polymarket_market_discov.Orderbooks.Parser.{parse_orderbook_payload}
use polymarket_market_discov.Orderbooks.Parser.Book.{parse_orderbook_payload-eq-ok}
use polymarket_market_discov.Orderbooks.Collection.{
  Collected, Answers, fail_token, answer_token, add_answer, read_answer, read_answers, keep_book,
  use_answer, collect_items, fail_items, response_list, use_response, collect_batches,
  is_wrong_market,
}

abbrev pub is_book_of : String → ParsedOrderBook → Bool
is_book_of token_id book = book.token_id == token_id

-- The token has an error or a book.
abbrev pub is_covered : Collected → String → Bool
is_covered c token_id =
    contains token_id (keys c.errors) || any_of (is_book_of token_id) c.snapshots

-- What is covered before is covered behind.
abbrev pub Extends : Collected → Collected → Type 0
Extends c d = (id : String) → is_covered c id ≡ true → is_covered d id ≡ true

keys-insert :
    (k id error : String) (errors : List (String × String))
    → contains id (keys (insert k error errors)) ≡ ((k == id) || contains id (keys errors))
keys-insert k id error errors = ground (
  arith,
  contains-keys id (insert k error errors),
  contains-keys id errors,
  lookup-insert k id error errors,
)

any_of-append_one :
    (id : String) (books : List ParsedOrderBook) (book : ParsedOrderBook)
    → any_of (is_book_of id) (books ++ book ∷ [])
      ≡ any_of (is_book_of id) books || is_book_of id book
any_of-append_one id [] book = ground arith
any_of-append_one id (b ∷ books) book = ground (arith, any_of-append_one id books book)

fail_token-Extends : (token error : String) (c : Collected) → Extends c (fail_token token error c)
fail_token-Extends token error c id h = ground (arith, keys-insert token id error c.errors)

fail_token-covers :
    (token error : String) (c : Collected) → is_covered (fail_token token error c) token ≡ true
fail_token-covers token error c =
    ground (arith, keys-insert token token error c.errors, eq_refl token)

module _ (py : Runtime) where
  add_answer-Extends :
      (token : String) (payload : Fields) (answers : Answers) (c : Collected)
      → Extends c (add_answer py token payload answers c).1
  add_answer-Extends token payload answers c id h =
      ground (arith, fail_token-Extends token "CLOB returned duplicate token" c id h)

  read_answer-Extends :
      (answer : Json) (answers : Answers) (c : Collected)
      → Extends c (read_answer py answer answers c).1
  read_answer-Extends (dict payload) answers c =
      add_answer-Extends (answer_token py payload) payload answers c
  read_answer-Extends _ answers c = λ id h. h

  read_answers-Extends :
      (response : List Json) (answers : Answers) (c : Collected)
      → Extends c (read_answers py response answers c).1
  unfolding read_answers
  read_answers-Extends [] answers c = λ id h. h
  read_answers-Extends (answer ∷ response) answers c = λ id h.
      let next = read_answer py answer answers c in
      read_answers-Extends response next.0 next.1 id (read_answer-Extends answer answers c id h)

  module _ (started_at : Timestamp) where
    use_answer_covers :
        (item : OrderBookCollectionItemPayload) (found : Option Fields) (c : Collected)
        → Extends c (use_answer py started_at item found c)
          × (is_covered (use_answer py started_at item found c) item.token_id ≡ true)
    use_answer_covers item none c =
        (fail_token-Extends item.token_id _ c, fail_token-covers item.token_id _ c)
    use_answer_covers item (some payload) c =
        go (is_wrong_market py (get payload "market") item.condition_id) _ refl
      where
        kept :
            (parsed : Result ParsedOrderBook)
            → parse_orderbook_payload py item.condition_id item.token_id payload started_at ≡ parsed
            → Extends c (keep_book py item parsed c)
              × (is_covered (keep_book py item parsed c) item.token_id ≡ true)
        kept (raise exc) h = (
          fail_token-Extends item.token_id (str exc) c,
          fail_token-covers item.token_id (str exc) c,
        )
        kept (ok book) h =
            let (t, e) =
              parse_orderbook_payload-eq-ok py item.condition_id item.token_id payload started_at
                book h in
            let named : is_book_of item.token_id book ≡ true = rw e (eq_refl item.token_id) in
            (
              (λ id g. ground (arith, any_of-append_one id c.snapshots book)),
              ground (arith, any_of-append_one item.token_id c.snapshots book),
            )

        go :
            (wrong : Bool) (parsed : Result ParsedOrderBook)
            → parse_orderbook_payload py item.condition_id item.token_id payload started_at ≡ parsed
            → Extends c (
                if wrong
                then fail_token item.token_id "CLOB returned wrong market" c
                else keep_book py item parsed c)
              × (is_covered
                    (if wrong
                      then fail_token item.token_id "CLOB returned wrong market" c
                      else keep_book py item parsed c)
                    item.token_id
                  ≡ true)
        go true parsed h =
            (fail_token-Extends item.token_id _ c, fail_token-covers item.token_id _ c)
        go false parsed h = kept parsed h

    abbrev AllCovered : List OrderBookCollectionItemPayload → Collected → Type 0
    AllCovered items c = All (λ item. is_covered c item.token_id ≡ true) items

    AllCovered-Extends :
        (items : List OrderBookCollectionItemPayload) (c d : Collected)
        → Extends c d
        → AllCovered items c
        → AllCovered items d
    AllCovered-Extends [] c d more all = tt
    AllCovered-Extends (item ∷ items) c d more (this, rest) =
        (more item.token_id this, AllCovered-Extends items c d more rest)

    step_covers :
        (item : OrderBookCollectionItemPayload) (answers : Answers) (c : Collected)
        → (let next =
              if contains item.token_id (keys c.errors)
              then c
              else use_answer py started_at item (lookup item.token_id answers) c in
            Extends c next × (is_covered next item.token_id ≡ true))
    step_covers item answers c = go (contains item.token_id (keys c.errors)) refl
      where
        go :
            (old : Bool)
            → contains item.token_id (keys c.errors) ≡ old
            → (let next =
                  if old
                  then c
                  else use_answer py started_at item (lookup item.token_id answers) c in
                Extends c next × (is_covered next item.token_id ≡ true))
        go true h = ((λ id g. g), ground arith)
        go false h = use_answer_covers item (lookup item.token_id answers) c

    collect_items_covers :
        (answers : Answers) (items : List OrderBookCollectionItemPayload) (c : Collected)
        → Extends c (collect_items py started_at answers items c)
          × AllCovered items (collect_items py started_at answers items c)
    unfolding collect_items
    collect_items_covers answers [] c = ((λ id h. h), tt)
    collect_items_covers answers (item ∷ items) c =
        let (more, here) = step_covers item answers c in
        let (later, all) = collect_items_covers answers items _ in
        ((λ id h. later id (more id h)), (later item.token_id here, all))

    fail_items_covers :
        (error : String) (items : List OrderBookCollectionItemPayload) (c : Collected)
        → Extends c (fail_items py error items c) × AllCovered items (fail_items py error items c)
    fail_items_covers error [] c = ((λ id h. h), tt)
    fail_items_covers error (item ∷ items) c =
        let next = fail_token item.token_id error c in
        let (later, all) = fail_items_covers error items next in
        (
          (λ id h. later id (fail_token-Extends item.token_id error c id h)),
          (later item.token_id (fail_token-covers item.token_id error c), all),
        )

    use_response_covers :
        (batch : List OrderBookCollectionItemPayload) (response : Result (List Json))
        (c : Collected)
        → Extends c (use_response py started_at batch response c)
          × AllCovered batch (use_response py started_at batch response c)
    use_response_covers batch (raise exc) c = fail_items_covers (str exc) batch c
    use_response_covers batch (ok response) c =
        let read = read_answers py response [] c in
        let (more, all) = collect_items_covers read.0 batch read.1 in
        ((λ id h. more id (read_answers-Extends response [] c id h)), all)

    collect_batches-Extends :
        (get_order_books : List String → Result Json)
        (batches : List (List OrderBookCollectionItemPayload)) (c : Collected)
        → Extends c (collect_batches py get_order_books started_at batches c)
          × AllCovered (concat batches) (collect_batches py get_order_books started_at batches c)
    unfolding collect_batches
    collect_batches-Extends get_order_books [] c = ((λ id h. h), tt)
    collect_batches-Extends get_order_books (batch ∷ batches) c =
        let response = response_list py (get_order_books (map (λ item. item.token_id) batch)) in
        let next = use_response py started_at batch response c in
        let (more, here) = use_response_covers batch response c in
        let (later, all) = collect_batches-Extends get_order_books batches next in
        (
          (λ id h. later id (more id h)),
          All-append _ batch (concat batches)
              (AllCovered-Extends batch next
                (collect_batches py get_order_books started_at batches next) later here)
              all,
        )

    -- Whatever the CLOB answers, behind the loop over the batches each item's token has a book or an
    -- error.
    pub collect_batches_covers :
        (get_order_books : List String → Result Json)
        (batches : List (List OrderBookCollectionItemPayload)) (c : Collected)
        → All
            (λ item.
              is_covered (collect_batches py get_order_books started_at batches c) item.token_id
              ≡ true)
            (concat batches)
    collect_batches_covers get_order_books batches c =
        (collect_batches-Extends get_order_books batches c).1
