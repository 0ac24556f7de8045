-- ===== src/Base/Float.antt =====
-- Python's floats: a finite value as an exact decimal, the infinities, and NaN, which no comparison
-- holds of. The rounding of finite values is left out.
use polymarket_market_discov.Base.Decimal.{Decimal, leb_decimal}
use polymarket_market_discov.Base.Int.{scale}
use Prim.Native.Nat.{ℕ, zero, suc}
use mathlib.Core.Bool.{Bool, true, false, not}

pub data Float : Type 0 where
  finite : Decimal → Float
  infinite : (negative : Bool) → Float
  nan : Float

-- `a <= b`
abbrev pub leb_float : Float → Float → Bool
leb_float nan b = false
leb_float a nan = false
leb_float (finite a) (finite b) = leb_decimal a b
leb_float (infinite negative) (finite b) = negative
leb_float (finite a) (infinite negative) = not negative
leb_float (infinite true) (infinite negative) = true
leb_float (infinite false) (infinite negative) = not negative

-- `a < b`
abbrev pub ltb_float : Float → Float → Bool
ltb_float nan b = false
ltb_float a nan = false
ltb_float a b = not (leb_float b a)

-- `a * n`, for a natural number
abbrev pub times_float : Float → ℕ → Float
times_float nan n = nan
times_float (infinite negative) zero = nan
times_float (infinite negative) (suc n) = infinite negative
times_float (finite a) n = finite (record a { coefficient = scale a.coefficient n })
