-- ===== src/Orderbooks/Parser.antt =====
-- `orderbooks/parser.py`: from a payload of the CLOB API to a parsed book.
pub mod Book
use polymarket_market_discov.Base.{
  ℕ, ◌/◌, String, Bool, true, false, not, ◌&&◌, ◌||◌, Option, none, some, List, [], ◌∷◌, map,
  length, take, ltb, ◌==◌, if◌then◌else◌, is_some,
}
use polymarket_market_discov.Base.Decimal.{
  Decimal, zero_decimal, one_decimal, leb_decimal, ltb_decimal, add_decimal, sub_decimal,
  half_decimal,
}
use polymarket_market_discov.Base.Int.{ℤ, pos, negsuc}
use polymarket_market_discov.Base.Json.{
  Json, null, bool, int, float, string, list, dict, Items, nil, cons, Fields, end, get, elements,
}
use polymarket_market_discov.Base.Result.{Result, ok, raise, ◌>>=◌}
use polymarket_market_discov.Base.Runtime.{Runtime, text_of}
use polymarket_market_discov.Base.Sort.{sort_by}
use polymarket_market_discov.Base.Text.{f_string, strip_z}
use polymarket_market_discov.Core.Time.{Timestamp, Datetime, naive, east}
use polymarket_market_discov.Markets.Gamma.{is_missing}
use polymarket_market_discov.Orderbooks.Domain.{
  OrderBookLevel, DumpedLevel, ParsedOrderBook, parser_version_tag,
}
use polymarket_market_discov.Orderbooks.Fields.{
  read_decimal, levels, optional_text, optional_flag, exchange_timestamp_of,
}

-- `sorted(levels, key=price, reverse=True)` and `sorted(levels, key=price)`, which are stable.
unfoldable pub top_bid_levels : List OrderBookLevel → List OrderBookLevel
top_bid_levels levels = sort_by (λ a b. leb_decimal b.price a.price) levels

unfoldable pub top_ask_levels : List OrderBookLevel → List OrderBookLevel
top_ask_levels levels = sort_by (λ a b. leb_decimal a.price b.price) levels

-- `max(prices)` and `min(prices)` behind a first price: the first of equal ones is kept.
abbrev pub max_from : Decimal → List OrderBookLevel → Decimal
max_from best [] = best
max_from best (level ∷ levels) =
    max_from (if ltb_decimal best level.price then level.price else best) levels

abbrev pub min_from : Decimal → List OrderBookLevel → Decimal
min_from best [] = best
min_from best (level ∷ levels) =
    min_from (if ltb_decimal level.price best then level.price else best) levels

unfoldable pub best_bid_of : List OrderBookLevel → Option Decimal
best_bid_of [] = none
best_bid_of (level ∷ levels) = some (max_from level.price levels)

unfoldable pub best_ask_of : List OrderBookLevel → Option Decimal
best_ask_of [] = none
best_ask_of (level ∷ levels) = some (min_from level.price levels)

-- A value of both best prices, where there are both.
abbrev pub both : (Decimal → Decimal → Decimal) → Option Decimal → Option Decimal → Option Decimal
both f (some bid) (some ask) = some (f bid ask)
both f _ _ = none

unfoldable pub spread_of : Option Decimal → Option Decimal → Option Decimal
spread_of best_bid best_ask = both (λ bid ask. sub_decimal ask bid) best_bid best_ask

unfoldable pub midpoint_of : Option Decimal → Option Decimal → Option Decimal
midpoint_of best_bid best_ask =
    both (λ bid ask. half_decimal (add_decimal bid ask)) best_bid best_ask

abbrev pub no_levels : List OrderBookLevel → Bool
no_levels [] = true
no_levels (level ∷ levels) = false

-- The tests from `best_bid > best_ask` on.
abbrev pub invalid_prices : Option Decimal → Option Decimal → Option Decimal → Option String
invalid_prices (some bid) (some ask) (some spread) =
    if ltb_decimal ask bid
    then some "crossed_orderbook"
    else if ltb_decimal spread zero_decimal
    then some "negative_spread"
    else if leb_decimal bid zero_decimal
    then some "best_bid_not_positive"
    else if leb_decimal one_decimal ask
    then some "best_ask_not_below_one"
    else none
invalid_prices _ _ _ = some "missing_best_prices"

unfoldable pub invalid_reason_of :
    (bids asks : List OrderBookLevel) → (best_bid best_ask spread : Option Decimal) → Option String
invalid_reason_of bids asks best_bid best_ask spread =
    if no_levels bids
    then some "missing_bids"
    else if no_levels asks
    then some "missing_asks"
    else invalid_prices best_bid best_ask spread

-- `sum(sizes, Decimal("0"))` over the first `count` levels.
abbrev pub sum_from : Decimal → List OrderBookLevel → Decimal
sum_from total [] = total
sum_from total (level ∷ levels) = sum_from (add_decimal total level.size) levels

unfoldable pub depth : List OrderBookLevel → ℕ → Decimal
depth levels count = sum_from zero_decimal (take count levels)

module _ (py : Runtime) where
  abbrev dump_level : OrderBookLevel → DumpedLevel
  dump_level level = record {
    price = py.decimal_text level.price;
    size = py.decimal_text level.size;
  }

  -- The book that is returned, where the exchange's timestamp could be read.
  abbrev pub book_of :
      (condition_id token_id : String) → Fields → Timestamp → Option Datetime → ParsedOrderBook
  book_of condition_id token_id payload generated_at exchange_timestamp =
      let bids = levels py (get payload "bids") in
      let asks = levels py (get payload "asks") in
      let best_bid = best_bid_of bids in
      let best_ask = best_ask_of asks in
      let spread = spread_of best_bid best_ask in
      let invalid_reason = invalid_reason_of bids asks best_bid best_ask spread in
      record {
        condition_id = condition_id;
        token_id = token_id;
        generated_at = generated_at;
        exchange_timestamp = exchange_timestamp;
        exchange_timestamp_raw = optional_text py (get payload "timestamp");
        best_bid = best_bid;
        best_ask = best_ask;
        midpoint = midpoint_of best_bid best_ask;
        spread = spread;
        last_trade_price = read_decimal py (get payload "last_trade_price");
        bid_depth_top_1 = depth (top_bid_levels bids) 1;
        ask_depth_top_1 = depth (top_ask_levels asks) 1;
        bid_depth_top_3 = depth (top_bid_levels bids) 3;
        ask_depth_top_3 = depth (top_ask_levels asks) 3;
        bid_depth_top_5 = depth (top_bid_levels bids) 5;
        ask_depth_top_5 = depth (top_ask_levels asks) 5;
        bid_levels_count = length bids;
        ask_levels_count = length asks;
        min_order_size = read_decimal py (get payload "min_order_size");
        tick_size = read_decimal py (get payload "tick_size");
        negative_risk = optional_flag py (get payload "neg_risk");
        bids = map dump_level bids;
        asks = map dump_level asks;
        book_hash = optional_text py (get payload "hash");
        valid_orderbook = not (is_some invalid_reason);
        invalid_reason = invalid_reason;
        parser_version = parser_version_tag;
        raw_payload = payload;
      }

  unfoldable pub parse_orderbook_payload :
      (condition_id token_id : String) → Fields → Timestamp → Result ParsedOrderBook
  parse_orderbook_payload condition_id token_id payload generated_at = do
    exchange_timestamp ← exchange_timestamp_of py (get payload "timestamp")
    ok (book_of condition_id token_id payload generated_at exchange_timestamp)
