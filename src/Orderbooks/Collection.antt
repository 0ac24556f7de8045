-- ===== src/Orderbooks/Collection.antt =====
-- The `for` loop over the batches in `_run_locked` of `orderbooks/service.py`.
pub mod Coverage
pub mod Errors
use polymarket_market_discov.Base.{
  String, Bool, true, false, not, ◌&&◌, Option, none, some, List, [], ◌∷◌, ◌++◌, map, ◌==◌,
  if◌then◌else◌, is_some,
}
use polymarket_market_discov.Base.Dict.{contains, lookup, insert, keys}
use polymarket_market_discov.Base.Json.{Json, null, list, dict, Fields, get, elements}
use polymarket_market_discov.Base.Result.{Result, ok, raise, str, value_error}
use polymarket_market_discov.Base.Runtime.{Runtime, text_of}
use polymarket_market_discov.Core.Time.{Timestamp}
use polymarket_market_discov.Orderbooks.Domain.{OrderBookCollectionItemPayload, ParsedOrderBook}
use polymarket_market_discov.Orderbooks.Fields.{truth}
use polymarket_market_discov.Orderbooks.Parser.{parse_orderbook_payload}

-- `snapshots` and `errors_by_token`.
pub record Collected : Type 0 where
  pub snapshots : List ParsedOrderBook
  pub errors : List (String × String)

abbrev pub nothing_collected : Collected
nothing_collected = record { snapshots = []; errors = [] }

abbrev pub fail_token : String → String → Collected → Collected
fail_token token_id error c = record c { errors = insert token_id error c.errors }

abbrev pub Answers : Type 0
Answers = List (String × Fields)

module _ (py : Runtime) where
  -- `str(payload.get("asset_id") or payload.get("token_id") or "")`
  abbrev pub answer_token : Fields → String
  answer_token payload =
      if truth (get payload "asset_id")
      then text_of py (get payload "asset_id")
      else if truth (get payload "token_id")
      then text_of py (get payload "token_id")
      else ""

  abbrev pub add_answer : String → Fields → Answers → Collected → Answers × Collected
  add_answer token_id payload answers c = if token_id == "" then (answers, c) else (
    insert token_id payload answers,
    (if contains token_id (keys answers)
        then fail_token token_id "CLOB returned duplicate token" c
        else c),
  )

  abbrev pub read_answer : Json → Answers → Collected → Answers × Collected
  read_answer (dict payload) answers c = add_answer (answer_token payload) payload answers c
  read_answer _ answers c = (answers, c)

  -- The `for` loop over the response.
  unfoldable pub read_answers : List Json → Answers → Collected → Answers × Collected
  read_answers [] answers c = (answers, c)
  read_answers (payload ∷ response) answers c =
      let next = read_answer payload answers c in read_answers response next.0 next.1

  -- `payload.get("market")` names another market.
  abbrev pub is_wrong_market : Json → String → Bool
  is_wrong_market null condition_id = false
  is_wrong_market market condition_id = not (text_of py market == condition_id)

  abbrev pub keep_book :
      OrderBookCollectionItemPayload → Result ParsedOrderBook → Collected → Collected
  keep_book item (ok book) c = record c { snapshots = c.snapshots ++ book ∷ [] }
  keep_book item (raise exc) c = fail_token item.token_id (str exc) c

  abbrev pub use_answer :
      Timestamp → OrderBookCollectionItemPayload → Option Fields → Collected → Collected
  use_answer started_at item none c = fail_token item.token_id "CLOB omitted requested token" c
  use_answer started_at item (some payload) c =
      if is_wrong_market (get payload "market") item.condition_id
      then fail_token item.token_id "CLOB returned wrong market" c
      else keep_book item
          (parse_orderbook_payload py item.condition_id item.token_id payload started_at) c

  -- The `for` loop over the items of a batch.
  unfoldable pub collect_items :
      Timestamp → Answers → List OrderBookCollectionItemPayload → Collected → Collected
  collect_items started_at answers [] c = c
  collect_items started_at answers (item ∷ items) c = collect_items started_at answers items (
      if contains item.token_id (keys c.errors)
      then c
      else use_answer started_at item (lookup item.token_id answers) c)

  -- The block under `except`.
  abbrev pub fail_items : String → List OrderBookCollectionItemPayload → Collected → Collected
  fail_items error [] c = c
  fail_items error (item ∷ items) c = fail_items error items (fail_token item.token_id error c)

  abbrev pub response_list : Result Json → Result (List Json)
  response_list (ok (list items)) = ok (elements items)
  response_list (ok _) = raise (value_error "CLOB books response must be a list")
  response_list (raise exc) = raise exc

  abbrev pub use_response :
      Timestamp → List OrderBookCollectionItemPayload → Result (List Json) → Collected → Collected
  use_response started_at batch (raise exc) c = fail_items (str exc) batch c
  use_response started_at batch (ok response) c =
      let read = read_answers response [] c in collect_items started_at read.0 batch read.1

  module _ (get_order_books : List String → Result Json) (started_at : Timestamp) where
    unfoldable pub collect_batches :
        List (List OrderBookCollectionItemPayload) → Collected → Collected
    collect_batches [] c = c
    collect_batches (batch ∷ batches) c = collect_batches batches (
        use_response started_at batch
          (response_list (get_order_books (map (λ item. item.token_id) batch))) c)
