-- ===== src/Orderbooks/Fields.antt =====
-- The fields of a CLOB payload: `_levels`, `_decimal`, `_exchange_timestamp`, `_optional_string` and
-- `_optional_bool` of `orderbooks/parser.py`.
use polymarket_market_discov.Base.{
  zero, ◌/◌, String, Bool, true, false, not, ◌||◌, Option, none, some, List, [], ◌∷◌, ltb, ◌==◌,
  if◌then◌else◌,
}
use polymarket_market_discov.Base.Decimal.{Decimal}
use polymarket_market_discov.Base.Int.{ℤ, pos, negsuc}
use polymarket_market_discov.Base.Json.{
  Json, null, bool, int, float, string, list, dict, nil, cons, end, field, get, elements,
}
use polymarket_market_discov.Base.Result.{Result, ok, raise}
use polymarket_market_discov.Base.Runtime.{Runtime, text_of}
use polymarket_market_discov.Core.Time.{Timestamp, Datetime, naive, east}
use polymarket_market_discov.Markets.Gamma.{is_missing}
use polymarket_market_discov.Orderbooks.Domain.{OrderBookLevel}
use Prim.Native.String.{◌++◌ as append}
use Prim.Native.Char.{code}
use polymarket_market_discov.Base.{eqb}

-- `timestamp // 1000` where `timestamp > 10_000_000_000`
abbrev pub in_seconds : ℤ → ℤ
in_seconds (pos n) = if ltb 10000000000 n then pos (n / 1000) else pos n
in_seconds (negsuc n) = negsuc n

-- `text.replace("Z", "+00:00")`
abbrev pub replace_z : String → String
replace_z String.[] = ""
replace_z (String.◌∷◌ c text) =
    if eqb (code c) b'Z' then append "+00:00" (replace_z text) else String.◌∷◌ c (replace_z text)

-- `bool(value)` of a value that is no text: a float is given by what `repr` prints of it.
abbrev pub truth : Json → Bool
truth null = false
truth (bool b) = b
truth (int (pos zero)) = false
truth (int _) = true
truth (float text) = not (text == "0.0" || text == "-0.0")
truth (string s) = not (s == "")
truth (list nil) = false
truth (list (cons _ _)) = true
truth (dict end) = false
truth (dict (field _ _ _)) = true

module _ (py : Runtime) where
  unfoldable pub read_decimal : Json → Option Decimal
  read_decimal value = if is_missing py value then none else py.decimal (text_of py value)

  abbrev level_of : Option Decimal → Option Decimal → List OrderBookLevel → List OrderBookLevel
  level_of (some price) (some size) rest = record { price = price; size = size } ∷ rest
  level_of _ _ rest = rest

  abbrev read_level : Json → List OrderBookLevel → List OrderBookLevel
  read_level (dict row) rest =
      level_of (read_decimal (get row "price")) (read_decimal (get row "size")) rest
  read_level _ rest = rest

  -- The `for` loop over the rows: a row that is no level is left out.
  unfoldable pub read_levels : List Json → List OrderBookLevel
  read_levels [] = []
  read_levels (row ∷ rows) = read_level row (read_levels rows)

  unfoldable pub levels : Json → List OrderBookLevel
  levels (list rows) = read_levels (elements rows)
  levels _ = []

  unfoldable pub optional_text : Json → Option String
  optional_text value = if is_missing py value then none else some (text_of py value)

  unfoldable pub optional_flag : Json → Option Bool
  optional_flag null = none
  optional_flag (bool b) = some b
  optional_flag (string s) =
      if s == ""
      then none
      else some (py.lower s == "1" || py.lower s == "true" || py.lower s == "yes")
  optional_flag value = some (truth value)

  -- `parsed if parsed.tzinfo else parsed.replace(tzinfo=UTC)`
  abbrev with_utc : Datetime → Datetime
  with_utc parsed = elim parsed.tzinfo [ naive ↦ record parsed { tzinfo = east 0 } | _ ↦ parsed ]

  abbrev iso_timestamp : Option Datetime → Option Datetime
  iso_timestamp none = none
  iso_timestamp (some parsed) = some (with_utc parsed)

  abbrev unix_timestamp : Result Timestamp → Result (Option Datetime)
  unix_timestamp (ok t) = ok (some (record { wall = t; tzinfo = east 0 }))
  unix_timestamp (raise exc) = raise exc

  abbrev timestamp_of : String → Option ℤ → Result (Option Datetime)
  timestamp_of text (some timestamp) = unix_timestamp (py.fromtimestamp (in_seconds timestamp))
  timestamp_of text none = ok (iso_timestamp (py.fromisoformat (replace_z text)))

  unfoldable pub exchange_timestamp_of : Json → Result (Option Datetime)
  exchange_timestamp_of value =
      if is_missing py value
      then ok none
      else timestamp_of (text_of py value) (py.integer (text_of py value))
