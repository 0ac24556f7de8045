-- ===== src/Base/Runtime.antt =====
-- What the program asks of Python's own conversions between texts and values. They are parameters:
-- every theorem holds whatever they answer.
use Prim.Native.String.{String}
use mathlib.Core.Option.{Option}
use polymarket_market_discov.Base.Int.{ℤ}
use polymarket_market_discov.Base.Json.{Json, string}
use polymarket_market_discov.Base.Result.{Result}
use polymarket_market_discov.Base.Decimal.{Decimal}
use polymarket_market_discov.Core.Time.{Datetime, Timestamp}

-- `none` stands for the exception that the conversion raises on a text that it cannot read.
pub record Runtime : Type 0 where
  -- `str(value)` of a value that is no text
  pub repr : Json → String
  pub lower : String → String
  pub upper : String → String
  pub strip : String → String
  -- `Decimal(text)`, for texts of finite numbers, and `str(decimal)`
  pub decimal : String → Option Decimal
  pub decimal_text : Decimal → String
  -- `int(text)`
  pub integer : String → Option ℤ
  -- `int(text, 16)`
  pub hexadecimal : String → Option ℤ
  -- `urllib.parse.urljoin(base, url)`
  pub urljoin : String → String → String
  -- `datetime.fromisoformat(text)`, `datetime.fromtimestamp(seconds, tz=UTC)`
  pub fromisoformat : String → Option Datetime
  pub fromtimestamp : ℤ → Result Timestamp
  -- `json.loads(text)`
  pub loads : String → Option Json
  -- `started_at.strftime('%Y%m%dT%H%M%S%fZ')`
  pub strftime : Timestamp → String

-- `str(value)`
abbrev pub text_of : Runtime → Json → String
text_of py (string s) = s
text_of py value = py.repr value
