-- ===== src/Bsonkit/Math/Bounds.antt =====
-- bsonkit/math.go: integers stay in the range of their type, and sums and products are exact
-- where they fit.
use lungo.Base.{
  ℕ, ◌-◌, ◌^◌, Bool, true, false, ◌&&◌, ℤ, pos, negsuc, ◌≤ℤ◌, ◌+ℤ◌, ◌*ℤ◌, ◌≡◌, refl, arith,
}
use lungo.Bsonkit.Value.{Value, int32, int64}
use lungo.Bsonkit.Number.{Numerics, Decimal}
use lungo.Bsonkit.Math.{Arithmetic, wrap32, wrap64, residue, combine, add_values, mul_values}

abbrev pub In32 : ℤ → Type 0
In32 z = (negsuc (2 ^ 31 - 1) ≤ℤ z) × (z ≤ℤ pos (2 ^ 31 - 1))

abbrev pub In64 : ℤ → Type 0
In64 z = (negsuc (2 ^ 63 - 1) ≤ℤ z) × (z ≤ℤ pos (2 ^ 63 - 1))

wrap32-In32 : (z : ℤ) → In32 (wrap32 z)
unfolding wrap32 residue
wrap32-In32 z = ground arith

wrap32_exact : (z : ℤ) → In32 z → wrap32 z ≡ z
unfolding wrap32 residue
wrap32_exact (pos n) h = ground arith
wrap32_exact (negsuc n) h = ground arith

wrap64-In64 : (z : ℤ) → In64 (wrap64 z)
unfolding wrap64 residue
wrap64-In64 z = ground arith

wrap64_exact : (z : ℤ) → In64 z → wrap64 z ≡ z
unfolding wrap64 residue
wrap64_exact (pos n) h = ground arith
wrap64_exact (negsuc n) h = ground arith

-- The integer types, and the integer in a value of one of them.
abbrev pub is_int32 : Value → Bool
is_int32 (int32 a) = true
is_int32 v = false

abbrev pub is_int : Value → Bool
is_int (int32 a) = true
is_int (int64 a) = true
is_int v = false

abbrev pub whole : Value → ℤ
whole (int32 a) = a
whole (int64 a) = a
whole v = pos 0

-- The values of the type that two integers are combined in.
abbrev pub Fits : Value → Value → ℤ → Type 0
Fits (int32 a) (int32 b) z = In32 z
Fits a b z = In64 z

-- The result is an int32 if both are, it is in the range of its type, and it is exact if the
-- exact result is in that range.
pub record IsExact (a b r : Value) (exact : ℤ) : Type 0 where
  pub integer : is_int r ≡ true
  pub narrow : is_int32 r ≡ is_int32 a && is_int32 b
  pub bounded : Fits a b (whole r)
  pub equal : Fits a b exact → whole r ≡ exact

module _ (ar : Numerics) (ops : Arithmetic) where
  combine-IsExact :
      (i : ℤ → ℤ → ℤ) (f : ℕ → ℕ → ℕ) (d : Decimal → Decimal → Decimal) (a b : Value)
      → is_int a ≡ true
      → is_int b ≡ true
      → IsExact a b (combine ar ops i f d a b) (i (whole a) (whole b))
  unfolding combine
  combine-IsExact i f d (int32 a) (int32 b) h k = record {
    integer = refl;
    narrow = refl;
    bounded = wrap32-In32 (i a b);
    equal = wrap32_exact (i a b);
  }
  combine-IsExact i f d (int32 a) (int64 b) h k = record {
    integer = refl;
    narrow = refl;
    bounded = wrap64-In64 (i a b);
    equal = wrap64_exact (i a b);
  }
  combine-IsExact i f d (int64 a) (int32 b) h k = record {
    integer = refl;
    narrow = refl;
    bounded = wrap64-In64 (i a b);
    equal = wrap64_exact (i a b);
  }
  combine-IsExact i f d (int64 a) (int64 b) h k = record {
    integer = refl;
    narrow = refl;
    bounded = wrap64-In64 (i a b);
    equal = wrap64_exact (i a b);
  }
  combine-IsExact i f d _ (int32 b) h k = cc
  combine-IsExact i f d _ (int64 b) h k = cc
  combine-IsExact i f d a _ h k = cc

  -- Add and Mul of two integers answer an int32 if both are int32 and an int64 if not, in the
  -- range of that type, and the exact sum or product if the range has it.
  pub add_values-mul_values :
      (a b : Value)
      → is_int a ≡ true
      → is_int b ≡ true
      → IsExact a b (add_values ar ops a b) (whole a +ℤ whole b)
        × IsExact a b (mul_values ar ops a b) (whole a *ℤ whole b)
  unfolding add_values mul_values
  add_values-mul_values a b h k = (
    combine-IsExact (λ x y. x +ℤ y) ops.float_add ops.decimal_add a b h k,
    combine-IsExact (λ x y. x *ℤ y) ops.float_mul ops.decimal_mul a b h k,
  )
