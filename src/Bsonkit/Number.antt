-- ===== src/Bsonkit/Number.antt =====
-- The numbers of bsonkit/compare.go: int32, int64, float64 as its IEEE 754 bit pattern, and
-- Decimal128. The package github.com/shopspring/decimal, and the conversion of a float64 out of
-- the range of int64, which Go leaves to the implementation, are parameters.
use lungo.Base.{
  ℕ, zero, suc, ◌+◌, ◌-◌, ◌*◌, ◌/◌, ◌%◌, ◌^◌, Bool, not, ◌&&◌, ltb, leb, ◌==◌, if◌then◌else◌, ℤ,
  pos, negsuc, ltb_ℤ, eqb_ℤ, neg_ℤ, Ordering, reverse_order, ◌≡◌, refl,
}
use lungo.Bsonkit.Value.{Value, int32, int64, double, decimal128}

-- A decimal.Decimal is a coefficient and an exponent.
abbrev pub Decimal : Type 0
Decimal = ℤ × ℤ

pub record Numerics : Type 0 where
  -- decimal.NewFromFloat, decimal.NewFromInt and NewFromInt32, and d128ToDec. Both NewFromFloat and
  -- d128ToDec panic on NaN and the infinities, which the model leaves out: what it says of a
  -- comparison with a decimal is about finite numbers.
  pub decimal_of_float : ℕ → Decimal
  pub decimal_of_int : ℤ → Decimal
  pub decimal_of_d128 : ℕ → ℕ → Decimal
  -- Decimal.Cmp
  pub decimal_cmp : Decimal → Decimal → Ordering
  -- int64(r) for a float64 that int64 cannot hold
  pub int_of_large_float : ℕ → ℤ
  -- byte(r) for a float64
  pub byte_of_float : ℕ → ℕ

-- The sign bit, and the exponent and fraction below it.
abbrev sign_bit : ℕ → ℕ
sign_bit b = b / 2 ^ 63

abbrev magnitude : ℕ → ℕ
magnitude b = b % 2 ^ 63

-- math.IsNaN: all ones in the exponent and a fraction that is not 0.
unfoldable pub is_nan : ℕ → Bool
is_nan b = ltb (0x7ff * 2 ^ 52) (magnitude b)

-- Two patterns that are no NaN compare as these integers do; 0 and -0 are both 0.
unfoldable pub float_key : ℕ → ℤ
float_key b = if sign_bit b == 0 then pos (magnitude b) else neg_ℤ (pos (magnitude b))

unfoldable pub float_eq : ℕ → ℕ → Bool
float_eq a b = not (is_nan a) && not (is_nan b) && eqb_ℤ (float_key a) (float_key b)

unfoldable pub float_lt : ℕ → ℕ → Bool
float_lt a b = not (is_nan a) && not (is_nan b) && ltb_ℤ (float_key a) (float_key b)

unfoldable pub compare_float64s : ℕ → ℕ → Ordering
unfolding float_eq float_lt
compare_float64s l r =
    if float_eq l r
    then Ordering.eq
    else if float_lt r l
    then Ordering.gt
    else if float_lt l r
    then Ordering.lt
    else if is_nan l
    then (if is_nan r then Ordering.eq else Ordering.lt)
    else Ordering.gt

-- The one function of the source for int32, int64 and primitive.DateTime.
unfoldable pub compare_int64s : ℤ → ℤ → Ordering
compare_int64s l r =
    if eqb_ℤ l r then Ordering.eq else if ltb_ℤ r l then Ordering.gt else Ordering.lt

-- The exponent of the leading bit of a number below 2 ^ fuel.
log2_fuel : ℕ → ℕ → ℕ
log2_fuel zero n = 0
log2_fuel (suc f) n = let rest = suc (log2_fuel f (n / 2)) in if leb n 1 then 0 else rest

-- float64(n) of a whole number up to 2 ^ 53, which is exact.
float_of_nat : ℕ → ℕ
float_of_nat n =
    let e = log2_fuel 64 n in
    if n == 0 then 0 else (e + 1023) * 2 ^ 52 + (n * 2 ^ (52 - e) / 2 ^ (e - 52) - 2 ^ 52)

unfoldable pub float_of_int : ℤ → ℕ
unfolding float_of_nat log2_fuel
float_of_int (pos n) = float_of_nat n
float_of_int (negsuc n) = 2 ^ 63 + float_of_nat (suc n)

-- int64(r) of a float64 in range: the fraction is cut off.
float_whole : ℕ → ℕ
float_whole m =
    let e = m / 2 ^ 52 in
    let digits = 2 ^ 52 + m % 2 ^ 52 in
    if ltb e 1023
    then 0
    else if leb e 1075
    then digits / 2 ^ (1075 - e)
    else digits * 2 ^ (e - 1075)

module _ (ar : Numerics) where
  unfoldable pub int_of_float : ℕ → ℤ
  unfolding float_whole
  int_of_float b =
      if leb (0x43e * 2 ^ 52) (magnitude b)
      then ar.int_of_large_float b
      else if sign_bit b == 0
      then pos (float_whole (magnitude b))
      else neg_ℤ (pos (float_whole (magnitude b)))

  -- The constant boundOfLongRange, 2 << 63, as a float64, and its negation.
  unfoldable pub compare_int64_to_float64 : ℤ → ℕ → Ordering
  unfolding int_of_float
  compare_int64_to_float64 l r =
      if is_nan r
      then Ordering.gt
      else if not (ltb_ℤ (pos (2 ^ 53)) l) && not (ltb_ℤ l (neg_ℤ (pos (2 ^ 53))))
      then compare_float64s (float_of_int l) r
      else if not (float_lt r (float_of_int (pos (2 ^ 64))))
      then Ordering.lt
      else if float_lt r (float_of_int (neg_ℤ (pos (2 ^ 64))))
      then Ordering.gt
      else compare_int64s l (int_of_float r)

  unfoldable pub compare_float64_to_int64 : ℕ → ℤ → Ordering
  compare_float64_to_int64 l r = reverse_order (compare_int64_to_float64 r l)

  -- The two type switches of compareNumbers. Its last line, for a value of another class, is not
  -- reached: the answer there is a filler.
  unfoldable pub compare_numbers : Value → Value → Ordering
  compare_numbers (double l) (double r) = compare_float64s l r
  compare_numbers (double l) (int32 r) = compare_float64s l (float_of_int r)
  compare_numbers (double l) (int64 r) = compare_float64_to_int64 l r
  compare_numbers (double l) (decimal128 h w) =
      ar.decimal_cmp (ar.decimal_of_float l) (ar.decimal_of_d128 h w)
  compare_numbers (int32 l) (double r) = compare_float64s (float_of_int l) r
  compare_numbers (int32 l) (int32 r) = compare_int64s l r
  compare_numbers (int32 l) (int64 r) = compare_int64s l r
  compare_numbers (int32 l) (decimal128 h w) =
      ar.decimal_cmp (ar.decimal_of_int l) (ar.decimal_of_d128 h w)
  compare_numbers (int64 l) (double r) = compare_int64_to_float64 l r
  compare_numbers (int64 l) (int32 r) = compare_int64s l r
  compare_numbers (int64 l) (int64 r) = compare_int64s l r
  compare_numbers (int64 l) (decimal128 h w) =
      ar.decimal_cmp (ar.decimal_of_int l) (ar.decimal_of_d128 h w)
  compare_numbers (decimal128 h w) (double r) =
      ar.decimal_cmp (ar.decimal_of_d128 h w) (ar.decimal_of_float r)
  compare_numbers (decimal128 h w) (int32 r) =
      ar.decimal_cmp (ar.decimal_of_d128 h w) (ar.decimal_of_int r)
  compare_numbers (decimal128 h w) (int64 r) =
      ar.decimal_cmp (ar.decimal_of_d128 h w) (ar.decimal_of_int r)
  compare_numbers (decimal128 h w) (decimal128 h' w') =
      ar.decimal_cmp (ar.decimal_of_d128 h w) (ar.decimal_of_d128 h' w')
  compare_numbers _ _ = Ordering.eq

one_float : float_of_int (pos 1) ≡ 0x3ff0000000000000
unfolding float_of_int
one_float = refl

bound_float : float_of_int (pos (2 ^ 64)) ≡ 0x43f0000000000000
unfolding float_of_int
bound_float = refl

three_float : float_of_int (negsuc 2) ≡ 0xc008000000000000
unfolding float_of_int
three_float = refl
