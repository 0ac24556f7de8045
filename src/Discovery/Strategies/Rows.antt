-- ===== src/Discovery/Strategies/Rows.antt =====
-- `_required_string`, `_required_decimal` and `_parse_leaderboard_wallet` of
-- `discovery/strategies/whale_leaderboard.py`, and what the strategy uses of the client.
use polymarket_market_discov.Base.{String, not, ◌||◌, Option, none, some, [], ◌∷◌, eqb}
use polymarket_market_discov.Base.Decimal.{Decimal}
use polymarket_market_discov.Base.Json.{Json, Fields, get}
use polymarket_market_discov.Base.Result.{
  Exception, value_error, Result, ok, raise, raise_if, ◌>>=◌, ◌>>◌,
}
use polymarket_market_discov.Base.Runtime.{Runtime, text_of}
use polymarket_market_discov.Base.Text.{f_string, text_length, begins_0x}
use polymarket_market_discov.Markets.Gamma.{is_missing}
use polymarket_market_discov.Polymarket.Params.{CurrentPositionsParams}
use polymarket_market_discov.Polymarket.Requests.{LeaderboardParams}

-- The two calls of the client that the strategy makes, by their results.
pub record DataApi : Type 0 where
  pub get_leaderboard : LeaderboardParams → Result Json
  pub get_current_positions : CurrentPositionsParams → Result Json

module _ (py : Runtime) where
  unfoldable pub required_string : Fields → String → Result String
  required_string row key = do
    raise_if (is_missing py (get row key))
        (value_error (f_string ("missing required field " ∷ key ∷ [])))
    ok (text_of py (get row key))

  abbrev invalid_decimal : String → Exception
  invalid_decimal key = value_error (f_string ("invalid decimal field " ∷ key ∷ []))

  abbrev decimal_or_raise : String → Option Decimal → Result Decimal
  decimal_or_raise key none = raise (invalid_decimal key)
  decimal_or_raise key (some value) = ok value

  -- The `try` block, with its handler.
  abbrev read_decimal_text : String → Result String → Result Decimal
  read_decimal_text key (ok text) = decimal_or_raise key (py.decimal text)
  read_decimal_text key (raise exc) = raise (invalid_decimal key)

  unfoldable pub required_decimal : Fields → String → Result Decimal
  required_decimal row key = read_decimal_text key (required_string row key)

  unfoldable pub parse_leaderboard_wallet : Fields → Result String
  parse_leaderboard_wallet row = do
    text ← required_string row "proxyWallet"
    let wallet = py.lower text
    raise_if (not (eqb (text_length wallet) 42) || not (begins_0x wallet))
        (value_error "leaderboard proxyWallet must be a 0x-prefixed address")
    ok wallet
