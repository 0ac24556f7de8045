-- ===== src/Orderbooks/Collection/Errors.antt =====
-- The errors of a collection are a dictionary: one error at most for each token.
use polymarket_market_discov.Base.{
  String, ◌≡◌, true, false, Option, none, some, List, [], ◌∷◌, map, if◌then◌else◌, arith,
}
use polymarket_market_discov.Base.Dict.{contains, lookup, keys, is_distinct, is_distinct-insert}
use polymarket_market_discov.Base.Json.{Json, dict, Fields, get}
use polymarket_market_discov.Base.Result.{Result, ok, raise, str}
use polymarket_market_discov.Base.Runtime.{Runtime}
use polymarket_market_discov.Core.Time.{Timestamp}
use polymarket_market_discov.Orderbooks.Collection.{
  Collected, Answers, fail_token, answer_token, add_answer, read_answers, keep_book, use_answer,
  is_wrong_market, collect_items, fail_items, use_response, response_list, collect_batches,
}
use polymarket_market_discov.Orderbooks.Domain.{OrderBookCollectionItemPayload, ParsedOrderBook}
use polymarket_market_discov.Orderbooks.Parser.{parse_orderbook_payload}

abbrev pub HasOnce : Collected → Type 0
HasOnce c = is_distinct (keys c.errors) ≡ true

fail_token-HasOnce :
    (token_id error : String) (c : Collected) → HasOnce c → HasOnce (fail_token token_id error c)
fail_token-HasOnce token_id error c once = is_distinct-insert token_id error c.errors once

module _ (py : Runtime) where
  add_answer-HasOnce :
      (token_id : String) (payload : Fields) (answers : Answers) (c : Collected)
      → HasOnce c
      → HasOnce (add_answer py token_id payload answers c).1
  add_answer-HasOnce token_id payload answers c once =
      ground (arith, fail_token-HasOnce token_id "CLOB returned duplicate token" c once)

  read_answers-HasOnce :
      (response : List Json) (answers : Answers) (c : Collected)
      → HasOnce c
      → HasOnce (read_answers py response answers c).1
  unfolding read_answers
  read_answers-HasOnce [] answers c once = once
  read_answers-HasOnce (dict payload ∷ response) answers c once =
      read_answers-HasOnce response _ _
        (add_answer-HasOnce (answer_token py payload) payload answers c once)
  read_answers-HasOnce (_ ∷ response) answers c once = read_answers-HasOnce response answers c once

  keep_book-HasOnce :
      (item : OrderBookCollectionItemPayload) (parsed : Result ParsedOrderBook) (c : Collected)
      → HasOnce c
      → HasOnce (keep_book py item parsed c)
  keep_book-HasOnce item (ok book) c once = once
  keep_book-HasOnce item (raise exc) c once = fail_token-HasOnce item.token_id (str exc) c once

  module _ (started_at : Timestamp) where
    use_answer-HasOnce :
        (item : OrderBookCollectionItemPayload) (found : Option Fields) (c : Collected)
        → HasOnce c
        → HasOnce (use_answer py started_at item found c)
    use_answer-HasOnce item none c once =
        fail_token-HasOnce item.token_id "CLOB omitted requested token" c once
    use_answer-HasOnce item (some payload) c once =
        elim (is_wrong_market py (get payload "market") item.condition_id)
          as (λ wrong. HasOnce (
            if wrong
            then fail_token item.token_id "CLOB returned wrong market" c
            else keep_book py item
                (parse_orderbook_payload py item.condition_id item.token_id payload started_at)
                c)) [
                  | true ↦ fail_token-HasOnce item.token_id "CLOB returned wrong market" c once
                  | false ↦ keep_book-HasOnce item _ c once
                ]

    collect_items-HasOnce :
        (answers : Answers) (items : List OrderBookCollectionItemPayload) (c : Collected)
        → HasOnce c
        → HasOnce (collect_items py started_at answers items c)
    unfolding collect_items
    collect_items-HasOnce answers [] c once = once
    collect_items-HasOnce answers (item ∷ items) c once =
        collect_items-HasOnce answers items _
          (elim (contains item.token_id (keys c.errors))
            as (λ old.
              HasOnce (
                if old
                then c
                else use_answer py started_at item (lookup item.token_id answers) c)) [
                  | true ↦ once
                  | false ↦ use_answer-HasOnce item (lookup item.token_id answers) c once
                ])

    fail_items-HasOnce :
        (error : String) (items : List OrderBookCollectionItemPayload) (c : Collected)
        → HasOnce c
        → HasOnce (fail_items py error items c)
    fail_items-HasOnce error [] c once = once
    fail_items-HasOnce error (item ∷ items) c once =
        fail_items-HasOnce error items _ (fail_token-HasOnce item.token_id error c once)

    use_response-HasOnce :
        (batch : List OrderBookCollectionItemPayload) (response : Result (List Json))
        (c : Collected)
        → HasOnce c
        → HasOnce (use_response py started_at batch response c)
    use_response-HasOnce batch (raise exc) c once = fail_items-HasOnce (str exc) batch c once
    use_response-HasOnce batch (ok response) c once =
        collect_items-HasOnce _ batch _ (read_answers-HasOnce response [] c once)

    pub collect_batches-HasOnce :
        (get_order_books : List String → Result Json)
        (batches : List (List OrderBookCollectionItemPayload)) (c : Collected)
        → HasOnce c
        → HasOnce (collect_batches py get_order_books started_at batches c)
    unfolding collect_batches
    collect_batches-HasOnce get_order_books [] c once = once
    collect_batches-HasOnce get_order_books (batch ∷ batches) c once =
        collect_batches-HasOnce get_order_books batches _ (
          use_response-HasOnce batch
            (response_list py (get_order_books (map (λ item. item.token_id) batch))) c once)
