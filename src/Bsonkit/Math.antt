-- ===== src/Bsonkit/Math.antt =====
-- bsonkit/math.go, and Increment and Multiply of bsonkit/access.go. The sums and products of
-- float64 and of the decimal package are the fields of a record, which is a parameter.
pub mod Bounds
use lungo.Base.{
  ℕ, ◌+◌, ◌-◌, ◌*◌, ◌%◌, ◌^◌, ltb, if◌then◌else◌, ℤ, pos, negsuc, pos_part, neg_part, ◌+ℤ◌, ◌*ℤ◌,
  Bool, false, Text, Result, ok, fail, ◌>>=◌, not_a_number,
}
use lungo.Bsonkit.Value.{Value, missing, int32, int64, double, decimal128, Fields, is_missing}
use lungo.Bsonkit.Number.{Numerics, Decimal}
use lungo.Bsonkit.Access.{get_path, put_path}

pub record Arithmetic : Type 0 where
  -- the conversion float64(n), and + and * of float64
  pub float_of_int64 : ℤ → ℕ
  pub float_add : ℕ → ℕ → ℕ
  pub float_mul : ℕ → ℕ → ℕ
  -- Decimal.Add and Decimal.Mul
  pub decimal_add : Decimal → Decimal → Decimal
  pub decimal_mul : Decimal → Decimal → Decimal
  -- decTod128
  pub d128_of_decimal : Decimal → ℕ × ℕ

-- The residue of an integer below a modulus.
unfoldable pub residue : ℕ → ℤ → ℕ
residue m z = (pos_part z + (m - neg_part z % m)) % m

-- The integer that the low 32 or 64 bits of a result stand for.
unfoldable pub wrap32 : ℤ → ℤ
unfolding residue
wrap32 z = let n = residue (2 ^ 32) z in if ltb n (2 ^ 31) then pos n else negsuc (2 ^ 32 - n - 1)

unfoldable pub wrap64 : ℤ → ℤ
unfolding residue
wrap64 z = let n = residue (2 ^ 64) z in if ltb n (2 ^ 63) then pos n else negsuc (2 ^ 64 - n - 1)

module _ (ar : Numerics) (ops : Arithmetic) where
  abbrev decimal_value : Decimal → Value
  decimal_value d = let (h, l) = ops.d128_of_decimal d in decimal128 h l

  -- The three arithmetics, by which Add and Mul compute once both types are known.
  unfoldable pub combine :
      (ℤ → ℤ → ℤ) → (ℕ → ℕ → ℕ) → (Decimal → Decimal → Decimal) → Value → Value → Value
  unfolding wrap32 wrap64
  combine i f d (int32 a) (int32 b) = int32 (wrap32 (i a b))
  combine i f d (int32 a) (int64 b) = int64 (wrap64 (i a b))
  combine i f d (int32 a) (double b) = double (f (ops.float_of_int64 a) b)
  combine i f d (int32 a) (decimal128 h w) =
      decimal_value (d (ar.decimal_of_int a) (ar.decimal_of_d128 h w))
  combine i f d (int64 a) (int32 b) = int64 (wrap64 (i a b))
  combine i f d (int64 a) (int64 b) = int64 (wrap64 (i a b))
  combine i f d (int64 a) (double b) = double (f (ops.float_of_int64 a) b)
  combine i f d (int64 a) (decimal128 h w) =
      decimal_value (d (ar.decimal_of_int a) (ar.decimal_of_d128 h w))
  combine i f d (double a) (int32 b) = double (f a (ops.float_of_int64 b))
  combine i f d (double a) (int64 b) = double (f a (ops.float_of_int64 b))
  combine i f d (double a) (double b) = double (f a b)
  combine i f d (double a) (decimal128 h w) =
      decimal_value (d (ar.decimal_of_float a) (ar.decimal_of_d128 h w))
  combine i f d (decimal128 h w) (int32 b) =
      decimal_value (d (ar.decimal_of_d128 h w) (ar.decimal_of_int b))
  combine i f d (decimal128 h w) (int64 b) =
      decimal_value (d (ar.decimal_of_d128 h w) (ar.decimal_of_int b))
  combine i f d (decimal128 h w) (double b) =
      decimal_value (d (ar.decimal_of_d128 h w) (ar.decimal_of_float b))
  combine i f d (decimal128 h w) (decimal128 h' w') =
      decimal_value (d (ar.decimal_of_d128 h w) (ar.decimal_of_d128 h' w'))
  combine i f d _ _ = missing

  unfoldable pub add_values : Value → Value → Value
  unfolding combine ◌+ℤ◌
  add_values a b = combine (λ x y. x +ℤ y) ops.float_add ops.decimal_add a b

  unfoldable pub mul_values : Value → Value → Value
  unfolding combine ◌*ℤ◌
  mul_values a b = combine (λ x y. x *ℤ y) ops.float_mul ops.decimal_mul a b

  -- The field as it stands, or an int32 zero.
  abbrev pub number_at : Fields → Text → Value
  number_at d p = let v = get_path d p in if is_missing v then int32 (pos 0) else v

  -- What Increment and Multiply do with the value that they have computed.
  abbrev pub store_number : Fields → Text → Value → Result (Value × Fields)
  store_number d p v =
      if is_missing v
      then fail (not_a_number p)
      else (put_path d p v false >>= λ put. ok (v, put.1))

  unfoldable pub increment : Fields → Text → Value → Result (Value × Fields)
  unfolding get_path put_path add_values
  increment d p inc = store_number d p (add_values (number_at d p) inc)

  unfoldable pub multiply : Fields → Text → Value → Result (Value × Fields)
  unfolding get_path put_path mul_values
  multiply d p mul = store_number d p (mul_values (number_at d p) mul)
