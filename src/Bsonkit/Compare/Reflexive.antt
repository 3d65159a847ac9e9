-- ===== src/Bsonkit/Compare/Reflexive.antt =====
-- bsonkit/compare.go: a value is equal to itself. Of Decimal.Cmp it uses that it answers 0 for
-- equal arguments.
use lungo.Base.{
  ℕ, ◌≡◌, ◌^◌, ◌/◌, ◌%◌, Bool, true, ◌&&◌, ltb, refl, arith, Ordering, compare as compare_ℕ,
  compare_text_self, then_compare, ℤ,
}
use lungo.Bsonkit.Value.{
  Value, int32, int64, double, decimal128, string, doc, array, binary, object_id, boolean, date,
  timestamp, regex, Items, empty, item, Fields, end, field, Class, class_of, rank,
}
use lungo.Bsonkit.Number.{Numerics, Decimal, compare_numbers, compare_int64s, compare_float64s}
use lungo.Bsonkit.Compare.{
  compare, compare_documents, compare_arrays, by_class, compare_scalars, compare_binaries,
  compare_booleans, compare_timestamps, compare_regexes,
}

-- Neither NaN nor an infinity, by the combination bits of a Decimal128: d128ToDec panics on these.
unfoldable pub is_finite_d128 : ℕ → Bool
is_finite_d128 h = ltb ((h / 2 ^ 58) % 32) 30

-- Every Decimal128 in the value is finite.
unfoldable mutual
  unfolding is_finite_d128

  pub is_finite : Value → Bool
  is_finite (decimal128 h w) = is_finite_d128 h
  is_finite (doc fs) = are_finite_fields fs
  is_finite (array xs) = are_finite_items xs
  is_finite v = true

  pub are_finite_fields : Fields → Bool
  are_finite_fields end = true
  are_finite_fields (field k v fs) = is_finite v && are_finite_fields fs

  pub are_finite_items : Items → Bool
  are_finite_items empty = true
  are_finite_items (item v xs) = is_finite v && are_finite_items xs

compare_ℕ_self : (n : ℕ) → compare_ℕ n n ≡ Ordering.eq
compare_ℕ_self n = ground arith

compare_int64s_self : (n : ℤ) → compare_int64s n n ≡ Ordering.eq
unfolding compare_int64s
compare_int64s_self n = ground arith

compare_float64s_self : (b : ℕ) → compare_float64s b b ≡ Ordering.eq
unfolding compare_float64s
compare_float64s_self b = ground arith

then_compare_eq :
    {p q : Ordering} → p ≡ Ordering.eq → q ≡ Ordering.eq → then_compare p q ≡ Ordering.eq
then_compare_eq h k = rw (h, k) refl

by_class_self : (c : Class) (o : Ordering) → o ≡ Ordering.eq → by_class c c o ≡ Ordering.eq
by_class_self c o h = then_compare_eq (compare_ℕ_self (rank c)) h

module _ (ar : Numerics) (cmp_self : (a : Decimal) → ar.decimal_cmp a a ≡ Ordering.eq) where
  compare_scalars_self : (v : Value) → compare_scalars ar v v ≡ Ordering.eq
  unfolding compare_scalars compare_binaries compare_booleans compare_timestamps compare_regexes
      compare_numbers
  compare_scalars_self (string l) = compare_text_self l
  compare_scalars_self (binary s l) =
      then_compare_eq (compare_ℕ_self _) (then_compare_eq (compare_ℕ_self s) (compare_text_self l))
  compare_scalars_self (object_id l) = compare_text_self l
  compare_scalars_self (boolean b) = ground arith
  compare_scalars_self (date l) = compare_int64s_self l
  compare_scalars_self (timestamp t i) = then_compare_eq (compare_ℕ_self t) (compare_ℕ_self i)
  compare_scalars_self (regex p o) = rw (compare_text_self p, compare_text_self o) refl
  compare_scalars_self (int32 n) = compare_int64s_self n
  compare_scalars_self (int64 n) = compare_int64s_self n
  compare_scalars_self (double b) = compare_float64s_self b
  compare_scalars_self (decimal128 h w) = cmp_self _
  compare_scalars_self _ = refl

  mutual
    unfolding compare

    pub compare_value_self : (v : Value) → compare ar v v ≡ Ordering.eq
    compare_value_self (doc fs) = by_class_self Class.document_class _ (compare_documents_self fs)
    compare_value_self (array xs) = by_class_self Class.array_class _ (compare_arrays_self xs)
    compare_value_self v = by_class_self (class_of v) _ (compare_scalars_self v)

    compare_documents_self : (fs : Fields) → compare_documents ar fs fs ≡ Ordering.eq
    compare_documents_self end = refl
    compare_documents_self (field k v fs) =
        then_compare_eq (compare_text_self k)
          (then_compare_eq (compare_value_self v) (compare_documents_self fs))

    compare_arrays_self : (xs : Items) → compare_arrays ar xs xs ≡ Ordering.eq
    compare_arrays_self empty = refl
    compare_arrays_self (item v xs) =
        then_compare_eq (compare_value_self v) (compare_arrays_self xs)

  -- Compare finds a value equal to itself, a double that is NaN and regular expressions included, if
  -- every Decimal128 in it is finite and Cmp of the decimal package finds equal decimals equal.
  pub compare_self : (v : Value) → is_finite v ≡ true → compare ar v v ≡ Ordering.eq
  compare_self v h = compare_value_self v
