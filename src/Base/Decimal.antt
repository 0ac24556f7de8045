-- ===== src/Base/Decimal.antt =====
-- Python's `Decimal`, for finite values: `coefficient / 10 ^ places`. Sums, differences and halves
-- are exact, as Python's are while a result has at most 28 digits. NaN and infinities are left out.
pub mod Order
use Prim.Native.Nat.{ℕ, ◌+◌, ◌^◌}
use mathlib.Core.Bool.{Bool, not}
use polymarket_market_discov.Base.Int.{ℤ, pos, ◌+ℤ◌, ◌-ℤ◌, leb_ℤ, scale}

pub record Decimal : Type 0 where
  pub coefficient : ℤ
  pub places : ℕ

abbrev pub zero_decimal : Decimal
zero_decimal = record { coefficient = pos 0; places = 0 }

abbrev pub one_decimal : Decimal
one_decimal = record { coefficient = pos 1; places = 0 }

-- Two values over a common denominator: `over a b` is `a`'s coefficient there.
abbrev pub over : Decimal → Decimal → ℤ
over a b = scale a.coefficient (10 ^ b.places)

-- `a <= b`, and `a < b` as `not (b <= a)`.
unfoldable pub leb_decimal : Decimal → Decimal → Bool
leb_decimal a b = leb_ℤ (over a b) (over b a)

unfoldable pub ltb_decimal : Decimal → Decimal → Bool
unfolding leb_decimal
ltb_decimal a b = not (leb_decimal b a)

unfoldable pub add_decimal : Decimal → Decimal → Decimal
add_decimal a b = record { coefficient = over a b +ℤ over b a; places = a.places + b.places }

unfoldable pub sub_decimal : Decimal → Decimal → Decimal
sub_decimal a b = record { coefficient = over a b -ℤ over b a; places = a.places + b.places }

-- `a / Decimal("2")`
unfoldable pub half_decimal : Decimal → Decimal
half_decimal a = record { coefficient = scale a.coefficient 5; places = a.places + 1 }
