-- ===== src/Orderbooks/Parser/Book.antt =====
-- What a parsed book says: its best prices, and whether it is valid.
use polymarket_market_discov.Base.{
  String, ◌≡◌, refl, ◌∙◌, ap, ◌⊎◌, Bool, true, false, not, ◌&&◌, Option, none, some, List, [], ◌∷◌,
  All, arith, inl, inr, Bool-cases, if◌then◌else◌, is_some,
}
use polymarket_market_discov.Base.Decimal.{
  Decimal, zero_decimal, one_decimal, leb_decimal, ltb_decimal,
}
use polymarket_market_discov.Base.Decimal.Order.{
  leb_decimal-total, leb_decimal_trans, sub_decimal-negative,
}
use polymarket_market_discov.Base.Json.{Fields, get}
use polymarket_market_discov.Base.Result.{ok, >>=-eq-ok}
use polymarket_market_discov.Base.Runtime.{Runtime}
use polymarket_market_discov.Core.Time.{Timestamp, Datetime}
use polymarket_market_discov.Orderbooks.Domain.{OrderBookLevel, ParsedOrderBook}
use polymarket_market_discov.Orderbooks.Fields.{levels, exchange_timestamp_of}
use polymarket_market_discov.Orderbooks.Parser.{
  max_from, min_from, best_bid_of, best_ask_of, spread_of, invalid_reason_of, book_of,
  parse_orderbook_payload,
}

-- A price of one of the levels that is at least, and at most, every other price of them.
abbrev pub IsHighest : List OrderBookLevel → Decimal → Type 0
IsHighest levels best = All (λ level. leb_decimal level.price best ≡ true) levels

abbrev pub IsLowest : List OrderBookLevel → Decimal → Type 0
IsLowest levels best = All (λ level. leb_decimal best level.price ≡ true) levels

leb_decimal_refl : (a : Decimal) → leb_decimal a a ≡ true
leb_decimal_refl a = elim (Bool-cases (leb_decimal a a)) [
  | inl h ↦ h
  | inr h ↦ leb_decimal-total a a h
]

later_max-ge :
    (a b : Decimal)
    → (leb_decimal a (if ltb_decimal a b then b else a) ≡ true)
      × (leb_decimal b (if ltb_decimal a b then b else a) ≡ true)
unfolding ltb_decimal
later_max-ge a b = ground (arith, leb_decimal_refl a, leb_decimal_refl b, leb_decimal-total b a)

later_min-le :
    (a b : Decimal)
    → (leb_decimal (if ltb_decimal b a then b else a) a ≡ true)
      × (leb_decimal (if ltb_decimal b a then b else a) b ≡ true)
unfolding ltb_decimal
later_min-le a b = ground (arith, leb_decimal_refl a, leb_decimal_refl b, leb_decimal-total a b)

max_from-ge :
    (best : Decimal) (rest : List OrderBookLevel)
    → (leb_decimal best (max_from best rest) ≡ true) × IsHighest rest (max_from best rest)
max_from-ge best [] = (leb_decimal_refl best, tt)
max_from-ge best (level ∷ rest) =
    let (old, new) = later_max-ge best level.price in
    let (here, later) =
      max_from-ge (if ltb_decimal best level.price then level.price else best) rest in
    (leb_decimal_trans best _ _ old here, (leb_decimal_trans level.price _ _ new here, later))

min_from-le :
    (best : Decimal) (rest : List OrderBookLevel)
    → (leb_decimal (min_from best rest) best ≡ true) × IsLowest rest (min_from best rest)
min_from-le best [] = (leb_decimal_refl best, tt)
min_from-le best (level ∷ rest) =
    let (old, new) = later_min-le best level.price in
    let (here, later) =
      min_from-le (if ltb_decimal level.price best then level.price else best) rest in
    (leb_decimal_trans _ _ best here old, (leb_decimal_trans _ _ level.price here new, later))

abbrev pub IsPrice : Decimal → List OrderBookLevel → Type 0
IsPrice price [] = ⊥
IsPrice price (level ∷ levels) = (level.price ≡ price) ⊎ IsPrice price levels

later_IsPrice :
    (test : Bool) (best m : Decimal) (level : OrderBookLevel) (rest : List OrderBookLevel)
    → ((if test then level.price else best) ≡ m) ⊎ IsPrice m rest
    → (best ≡ m) ⊎ IsPrice m (level ∷ rest)
later_IsPrice true best m level rest (inl h) = inr (inl h)
later_IsPrice false best m level rest (inl h) = inl h
later_IsPrice test best m level rest (inr h) = inr (inr h)

max_from-IsPrice :
    (best : Decimal) (rest : List OrderBookLevel)
    → (best ≡ max_from best rest) ⊎ IsPrice (max_from best rest) rest
max_from-IsPrice best [] = inl refl
max_from-IsPrice best (level ∷ rest) =
    later_IsPrice (ltb_decimal best level.price) best _ level rest
      (max_from-IsPrice (if ltb_decimal best level.price then level.price else best) rest)

min_from-IsPrice :
    (best : Decimal) (rest : List OrderBookLevel)
    → (best ≡ min_from best rest) ⊎ IsPrice (min_from best rest) rest
min_from-IsPrice best [] = inl refl
min_from-IsPrice best (level ∷ rest) =
    later_IsPrice (ltb_decimal level.price best) best _ level rest
      (min_from-IsPrice (if ltb_decimal level.price best then level.price else best) rest)

-- The best price of a side, under the order `P` that it is to be first in; none for no levels.
abbrev pub IsBest :
    (List OrderBookLevel → Decimal → Type 0) → List OrderBookLevel → Option Decimal → Type 0
IsBest P levels none = levels ≡ []
IsBest P levels (some best) = IsPrice best levels × P levels best

best_bid_of-IsBest : (levels : List OrderBookLevel) → IsBest IsHighest levels (best_bid_of levels)
unfolding best_bid_of
best_bid_of-IsBest [] = refl
best_bid_of-IsBest (level ∷ rest) =
    (max_from-IsPrice level.price rest, max_from-ge level.price rest)

best_ask_of-IsBest : (levels : List OrderBookLevel) → IsBest IsLowest levels (best_ask_of levels)
unfolding best_ask_of
best_ask_of-IsBest [] = refl
best_ask_of-IsBest (level ∷ rest) =
    (min_from-IsPrice level.price rest, min_from-le level.price rest)

module _ (py : Runtime) (condition_id token_id : String) (payload : Fields)
    (generated_at : Timestamp) where
  pub parse_orderbook_payload-eq-ok :
      (book : ParsedOrderBook)
      → parse_orderbook_payload py condition_id token_id payload generated_at ≡ ok book
      → (t : Option Datetime) × (book ≡ book_of py condition_id token_id payload generated_at t)
  unfolding parse_orderbook_payload
  parse_orderbook_payload-eq-ok book h =
      let (t, read, made) = >>=-eq-ok (exchange_timestamp_of py (get payload "timestamp")) _ h in
      (t, cc)

  -- The best bid of a parsed book is a price of its bids that no bid is above, and the best ask a
  -- price of its asks that no ask is below; a side without levels has no best price.
  pub parse_orderbook_payload-IsBest :
      (book : ParsedOrderBook)
      → parse_orderbook_payload py condition_id token_id payload generated_at ≡ ok book
      → IsBest IsHighest (levels py (get payload "bids")) book.best_bid
        × IsBest IsLowest (levels py (get payload "asks")) book.best_ask
  parse_orderbook_payload-IsBest book h =
      let (t, e) = parse_orderbook_payload-eq-ok book h in
      rw e (
        best_bid_of-IsBest (levels py (get payload "bids")),
        best_ask_of-IsBest (levels py (get payload "asks")),
      )

-- The reasons against a book, as the code can give them: the tests for prices that are missing and
-- for a negative spread find nothing that the tests before them have not found.
abbrev pub price_fault : Option Decimal → Option Decimal → Option String
price_fault none ask = some "missing_bids"
price_fault (some bid) none = some "missing_asks"
price_fault (some bid) (some ask) =
    if ltb_decimal ask bid
    then some "crossed_orderbook"
    else if leb_decimal bid zero_decimal
    then some "best_bid_not_positive"
    else if leb_decimal one_decimal ask
    then some "best_ask_not_below_one"
    else none

invalid_reason_of-price_fault :
    (bids asks : List OrderBookLevel)
    → invalid_reason_of bids asks
        (best_bid_of bids)
        (best_ask_of asks)
        (spread_of (best_bid_of bids) (best_ask_of asks))
      ≡ price_fault (best_bid_of bids) (best_ask_of asks)
unfolding invalid_reason_of best_bid_of best_ask_of spread_of
invalid_reason_of-price_fault [] asks = refl
invalid_reason_of-price_fault (b ∷ bids) [] = refl
invalid_reason_of-price_fault (b ∷ bids) (a ∷ asks) =
    ground (arith, sub_decimal-negative (min_from a.price asks) (max_from b.price bids))

-- `0 < best_bid <= best_ask < 1`
abbrev pub is_valid_pair : Option Decimal → Option Decimal → Bool
is_valid_pair (some bid) (some ask) =
    ltb_decimal zero_decimal bid && leb_decimal bid ask && ltb_decimal ask one_decimal
is_valid_pair _ _ = false

price_fault-is_valid_pair :
    (bid ask : Option Decimal) → not (is_some (price_fault bid ask)) ≡ is_valid_pair bid ask
unfolding ltb_decimal
price_fault-is_valid_pair none ask = refl
price_fault-is_valid_pair (some bid) none = refl
price_fault-is_valid_pair (some bid) (some ask) = ground arith

module _ (py : Runtime) (condition_id token_id : String) (payload : Fields)
    (generated_at : Timestamp) where
  -- A parsed book is valid exactly where it has both best prices, 0 < best bid, best bid <= best
  -- ask and best ask < 1. What it gives as the reason is the first fault of its best prices.
  pub parse_orderbook_payload-valid :
      (book : ParsedOrderBook)
      → parse_orderbook_payload py condition_id token_id payload generated_at ≡ ok book
      → (book.valid_orderbook ≡ is_valid_pair book.best_bid book.best_ask)
        × (book.invalid_reason ≡ price_fault book.best_bid book.best_ask)
  parse_orderbook_payload-valid book h =
      let (t, e) =
        parse_orderbook_payload-eq-ok py condition_id token_id payload generated_at book h in
      let bids = levels py (get payload "bids") in
      let asks = levels py (get payload "asks") in
      let fault = invalid_reason_of-price_fault bids asks in
      rw e (
        ap (λ r. not (is_some r)) fault
            ∙ price_fault-is_valid_pair (best_bid_of bids) (best_ask_of asks),
        fault,
      )
