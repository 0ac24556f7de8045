-- ===== src/Base/Decimal/Order.antt =====
-- The order of decimals is total, and a difference has the sign that the order says.
use Prim.Native.Nat.{ℕ, zero, suc, ◌+◌, ◌*◌, ◌^◌, ◌≤◌, ◌<◌}
use mathlib.Core.Path.{◌≡◌, sym, ◌∙◌}
use mathlib.Core.Bool.{true, false}
use native.Mathlib.Omega.{arith}
use native.Mathlib.Numerals.{unary_clauses}
use native.Mathlib.Nat.{mul-le-mul_right, le_of_mul-le-mul_right}
use polymarket_market_discov.Base.Tests.{leb, leb→le, le→leb}
use polymarket_market_discov.Base.Int.{pos, pos_part, neg_part, scale, scale_parts, ◌-ℤ◌, -ℤ_parts}
use polymarket_market_discov.Base.Decimal.{
  Decimal, zero_decimal, leb_decimal, ltb_decimal, sub_decimal,
}

power_positive : (n : ℕ) → 0 < 10 ^ n
power_positive zero = omega arith
power_positive (suc n) = simp (unary_clauses) (omega (arith, power_positive n))

-- `a <= b` over the signed parts of the coefficients.
leb_decimal_iff :
    (a b : Decimal)
    → leb_decimal a b
      ≡ leb
          (pos_part a.coefficient * 10 ^ b.places + neg_part b.coefficient * 10 ^ a.places)
          (pos_part b.coefficient * 10 ^ a.places + neg_part a.coefficient * 10 ^ b.places)
unfolding leb_decimal
leb_decimal_iff a b =
    ground
      (arith, scale_parts a.coefficient (10 ^ b.places), scale_parts b.coefficient (10 ^ a.places))

pub leb_decimal-total : (a b : Decimal) → leb_decimal a b ≡ false → leb_decimal b a ≡ true
leb_decimal-total a b h = ground (arith, leb_decimal_iff a b, leb_decimal_iff b a)

cross :
    (pa na pb nb pc nc ta tb tc : ℕ)
    → 0 < tb
    → pa * tb + nb * ta ≤ pb * ta + na * tb
    → pb * tc + nc * tb ≤ pc * tb + nb * tc
    → pa * tc + nc * ta ≤ pc * ta + na * tc
cross pa na pb nb pc nc ta tb tc positive h k =
    le_of_mul-le-mul_right (omega (arith, mul-le-mul_right tc h, mul-le-mul_right ta k)) positive

pub leb_decimal_trans :
    (a b c : Decimal) → leb_decimal a b ≡ true → leb_decimal b c ≡ true → leb_decimal a c ≡ true
leb_decimal_trans a b c h k =
    let ta = 10 ^ a.places in
    let tb = 10 ^ b.places in
    let tc = 10 ^ c.places in
    let ab = leb→le _ _ (sym (leb_decimal_iff a b) ∙ h) in
    let bc = leb→le _ _ (sym (leb_decimal_iff b c) ∙ k) in
    leb_decimal_iff a c
    ∙ le→leb _ _ (
        cross (pos_part a.coefficient) (neg_part a.coefficient) (pos_part b.coefficient)
          (neg_part b.coefficient) (pos_part c.coefficient) (neg_part c.coefficient) ta tb tc
          (power_positive b.places) ab bc)

-- A difference is negative where the first value is the smaller one.
pub sub_decimal-negative :
    (a b : Decimal) → ltb_decimal (sub_decimal a b) zero_decimal ≡ ltb_decimal a b
unfolding sub_decimal ltb_decimal leb_decimal
sub_decimal-negative a b = ground (
  arith,
  scale_parts (pos 0) (10 ^ (a.places + b.places)),
  scale_parts (scale a.coefficient (10 ^ b.places) -ℤ scale b.coefficient (10 ^ a.places)) 1,
  -ℤ_parts (scale a.coefficient (10 ^ b.places)) (scale b.coefficient (10 ^ a.places)),
)
