-- ===== src/Bsonkit/Compare/Laws.antt =====
-- The comparison of bsonkit/compare.go the other way round. Of Decimal.Cmp of the decimal package it
-- uses that it answers -1, 0 or 1 as its first argument is less, equal or greater.
use lungo.Base.{
  ℕ, Bool, true, false, ◌&&◌, ℤ, Ordering, reverse_order, then-anti, and_left, and_right,
  compare_text-anti, ◌≡◌, refl, sym, ap, ◌∙◌, arith,
}
use lungo.Bsonkit.Value.{
  Value, missing, nil, null, int32, int64, double, decimal128, string, doc, array, binary,
  object_id, boolean, date, timestamp, regex, Items, empty, item, Fields, end, field, Class,
  class_of,
}
use lungo.Bsonkit.Number.{
  Numerics, compare_numbers, compare_int64s, Decimal, compare_float64s, compare_float64_to_int64,
}
use lungo.Bsonkit.Compare.{compare, compare_documents, compare_arrays, by_class, compare_scalars}

compare_int64s-anti : (l r : ℤ) → compare_int64s l r ≡ reverse_order (compare_int64s r l)
unfolding compare_int64s
compare_int64s-anti l r = ground arith

compare_float64s-anti : (l r : ℕ) → compare_float64s l r ≡ reverse_order (compare_float64s r l)
unfolding compare_float64s
compare_float64s-anti l r = ground arith

-- No regular expression stands in the value, at any depth.
unfoldable mutual
  pub no_regex : Value → Bool
  no_regex (regex p o) = false
  no_regex (doc fs) = no_regex_fields fs
  no_regex (array xs) = no_regex_items xs
  no_regex v = true

  pub no_regex_fields : Fields → Bool
  no_regex_fields end = true
  no_regex_fields (field k v fs) = no_regex v && no_regex_fields fs

  pub no_regex_items : Items → Bool
  no_regex_items empty = true
  no_regex_items (item v xs) = no_regex v && no_regex_items xs

abbrev pub is_plain : Class → Bool
is_plain Class.null_class = true
is_plain Class.document_class = true
is_plain Class.array_class = true
is_plain _ = false

module _ (ar : Numerics) where
  -- Values of a class that needs no look inside.
  pub compare_scalars-plain :
      (l r : Value) → is_plain (class_of l) ≡ true → compare_scalars ar l r ≡ Ordering.eq
  unfolding compare_scalars compare_numbers
  compare_scalars-plain missing r h = refl
  compare_scalars-plain nil r h = refl
  compare_scalars-plain null r h = refl
  compare_scalars-plain (doc fs) r h = refl
  compare_scalars-plain (array xs) r h = refl
  compare_scalars-plain _ r h = cc

module _ (ar : Numerics)
    (cmp : (a b : Decimal) → ar.decimal_cmp a b ≡ reverse_order (ar.decimal_cmp b a)) where
  compare_numbers-anti :
      (l r : Value)
      → class_of l ≡ Class.number_class
      → class_of r ≡ Class.number_class
      → compare_numbers ar l r ≡ reverse_order (compare_numbers ar r l)
  unfolding compare_numbers compare_float64_to_int64
  compare_numbers-anti (double l) (double r) c d = compare_float64s-anti l r
  compare_numbers-anti (double l) (int32 r) c d = compare_float64s-anti l _
  compare_numbers-anti (double l) (int64 r) c d = refl
  compare_numbers-anti (double l) (decimal128 h w) c d = cmp _ _
  compare_numbers-anti (int32 l) (double r) c d = compare_float64s-anti _ r
  compare_numbers-anti (int32 l) (int32 r) c d = compare_int64s-anti l r
  compare_numbers-anti (int32 l) (int64 r) c d = compare_int64s-anti l r
  compare_numbers-anti (int32 l) (decimal128 h w) c d = cmp _ _
  compare_numbers-anti (int64 l) (double r) c d = ground arith
  compare_numbers-anti (int64 l) (int32 r) c d = compare_int64s-anti l r
  compare_numbers-anti (int64 l) (int64 r) c d = compare_int64s-anti l r
  compare_numbers-anti (int64 l) (decimal128 h w) c d = cmp _ _
  compare_numbers-anti (decimal128 h w) (double r) c d = cmp _ _
  compare_numbers-anti (decimal128 h w) (int32 r) c d = cmp _ _
  compare_numbers-anti (decimal128 h w) (int64 r) c d = cmp _ _
  compare_numbers-anti (decimal128 h w) (decimal128 h' w') c d = cmp _ _
  compare_numbers-anti _ _ c d = cc

  compare_scalars-number :
      (l r : Value)
      → class_of l ≡ Class.number_class
      → compare_scalars ar l r ≡ compare_numbers ar l r
  unfolding compare_scalars
  compare_scalars-number (int32 _) r h = refl
  compare_scalars-number (int64 _) r h = refl
  compare_scalars-number (double _) r h = refl
  compare_scalars-number (decimal128 _ _) r h = refl
  compare_scalars-number _ r h = cc

  plain-anti :
      (l r : Value)
      → is_plain (class_of l) ≡ true
      → class_of l ≡ class_of r
      → compare_scalars ar l r ≡ reverse_order (compare_scalars ar r l)
  plain-anti l r h e =
      compare_scalars-plain ar l r h
      ∙ ap reverse_order (sym (compare_scalars-plain ar r l (ap is_plain (sym e) ∙ h)))

  number-anti :
      (l r : Value)
      → class_of l ≡ Class.number_class
      → class_of l ≡ class_of r
      → compare_scalars ar l r ≡ reverse_order (compare_scalars ar r l)
  number-anti l r h e =
      let c : class_of r ≡ Class.number_class = sym e ∙ h in
      compare_scalars-number l r h
      ∙ compare_numbers-anti l r h c
      ∙ ap reverse_order (sym (compare_scalars-number r l c))

  compare_scalars-anti :
      (l r : Value)
      → no_regex l ≡ true
      → class_of l ≡ class_of r
      → compare_scalars ar l r ≡ reverse_order (compare_scalars ar r l)
  unfolding compare_scalars no_regex
  compare_scalars-anti (string l) (string r) h e = compare_text-anti l r
  compare_scalars-anti (binary s l) (binary t r) h e = ground (arith, compare_text-anti l r)
  compare_scalars-anti (object_id l) (object_id r) h e = compare_text-anti l r
  compare_scalars-anti (boolean l) (boolean r) h e = ground arith
  compare_scalars-anti (date l) (date r) h e = compare_int64s-anti l r
  compare_scalars-anti (timestamp t i) (timestamp t' i') h e = ground arith
  compare_scalars-anti (regex p o) (regex p' o') h e = cc
  compare_scalars-anti missing r h e = plain-anti missing r refl e
  compare_scalars-anti nil r h e = plain-anti nil r refl e
  compare_scalars-anti null r h e = plain-anti null r refl e
  compare_scalars-anti (doc fs) r h e = plain-anti (doc fs) r refl e
  compare_scalars-anti (array xs) r h e = plain-anti (array xs) r refl e
  compare_scalars-anti (int32 x) r h e = number-anti (int32 x) r refl e
  compare_scalars-anti (int64 x) r h e = number-anti (int64 x) r refl e
  compare_scalars-anti (double x) r h e = number-anti (double x) r refl e
  compare_scalars-anti (decimal128 x y) r h e = number-anti (decimal128 x y) r refl e
  compare_scalars-anti l r h e = cc

  by_class-anti :
      (lc rc : Class) (p q : Ordering)
      → (lc ≡ rc → p ≡ reverse_order q)
      → by_class lc rc p ≡ reverse_order (by_class rc lc q)
  by_class-anti lc rc p q h = ground arith

  mutual
    unfolding compare no_regex

    compare_lem :
        (l r : Value) → no_regex l ≡ true → compare ar l r ≡ reverse_order (compare ar r l)
    compare_lem (doc fs) (doc gs) h = compare_documents-anti fs gs h
    compare_lem (doc fs) r h = refl
    compare_lem (array xs) (array ys) h = compare_arrays-anti xs ys h
    compare_lem (array xs) r h = refl
    compare_lem l (doc gs) h = refl
    compare_lem l (array ys) h = refl
    compare_lem l r h =
        by_class-anti (class_of l) (class_of r) _ _ (λ e. compare_scalars-anti l r h e)

    compare_documents-anti :
        (fs gs : Fields)
        → no_regex_fields fs ≡ true
        → compare_documents ar fs gs ≡ reverse_order (compare_documents ar gs fs)
    compare_documents-anti end end h = refl
    compare_documents-anti end (field k v gs) h = refl
    compare_documents-anti (field k v fs) end h = refl
    compare_documents-anti (field k v fs) (field k' v' gs) h =
        then-anti _ _ _ _ (compare_text-anti k k') (
          then-anti _ _ _ _ (compare_lem v v' (and_left _ _ h))
            (compare_documents-anti fs gs (and_right _ _ h)))

    compare_arrays-anti :
        (xs ys : Items)
        → no_regex_items xs ≡ true
        → compare_arrays ar xs ys ≡ reverse_order (compare_arrays ar ys xs)
    compare_arrays-anti empty empty h = refl
    compare_arrays-anti empty (item v ys) h = refl
    compare_arrays-anti (item v xs) empty h = refl
    compare_arrays-anti (item v xs) (item v' ys) h =
        then-anti _ _ _ _ (compare_lem v v' (and_left _ _ h))
          (compare_arrays-anti xs ys (and_right _ _ h))

  -- Comparing the other way round reverses the answer, for a left value that holds no regular
  -- expression and a decimal package whose Cmp has that property.
  pub compare-anti :
      (l r : Value) → no_regex l ≡ true → compare ar l r ≡ reverse_order (compare ar r l)
  compare-anti l r h = compare_lem l r h
