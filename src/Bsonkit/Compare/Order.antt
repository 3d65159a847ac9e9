-- ===== src/Bsonkit/Compare/Order.antt =====
-- The comparison of bsonkit/compare.go as an order: what two comparisons say of a third.
use lungo.Base.{
  ℕ, Bool, true, false, ◌&&◌, Text, ℤ, pos, Ordering, compare as compare_ℕ, length, ◌≡◌, refl, sym,
  ap, ◌∙◌, arith, chains, chains-then, chains-lt, chains-gt, chains-then_if, compare_text-chains,
  compare_ℕ-chains, and_left, and_right,
}
use lungo.Bsonkit.Value.{
  Value, missing, nil, null, int32, int64, double, decimal128, string, doc, array, binary,
  object_id, boolean, date, timestamp, regex, Items, empty, item, Fields, end, field, Class,
  class_of, rank,
}
use lungo.Bsonkit.Number.{Numerics, compare_numbers, compare_int64s}
use lungo.Bsonkit.Compare.{
  compare, compare_documents, compare_arrays, by_class, compare_scalars, compare_binaries,
  compare_booleans, compare_timestamps, fields_of, items_of,
}
use lungo.Bsonkit.Compare.Laws.{is_plain, compare_scalars-plain}

-- Every number in the value is an integer, and no regular expression stands in it.
unfoldable mutual
  pub is_exact : Value → Bool
  is_exact (double b) = false
  is_exact (decimal128 h w) = false
  is_exact (regex p o) = false
  is_exact (doc fs) = is_exact_fields fs
  is_exact (array xs) = is_exact_items xs
  is_exact v = true

  pub is_exact_fields : Fields → Bool
  is_exact_fields end = true
  is_exact_fields (field k v fs) = is_exact v && is_exact_fields fs

  pub is_exact_items : Items → Bool
  is_exact_items empty = true
  is_exact_items (item v xs) = is_exact v && is_exact_items xs

abbrev whole : Value → ℤ
whole (int32 x) = x
whole (int64 x) = x
whole _ = pos 0

compare_int64s-chains :
    (a b c : ℤ) → chains (compare_int64s a b) (compare_int64s b c) (compare_int64s a c) ≡ true
unfolding compare_int64s
compare_int64s-chains a b c = ground arith

booleans-chains :
    (a b c : Bool)
    → chains (compare_booleans a b) (compare_booleans b c) (compare_booleans a c) ≡ true
unfolding compare_booleans
booleans-chains a b c = ground arith

binaries-chains :
    (s : ℕ) (l : Text) (t : ℕ) (r : Text) (u : ℕ) (q : Text)
    → chains (compare_binaries s l t r) (compare_binaries t r u q) (compare_binaries s l u q) ≡ true
unfolding compare_binaries
binaries-chains s l t r u q =
    chains-then _ _ _ _ _ _ (compare_ℕ-chains (length l) (length r) (length q))
      (chains-then _ _ _ _ _ _ (compare_ℕ-chains s t u) (compare_text-chains l r q))

timestamps-chains :
    (t i t' i' t'' i'' : ℕ)
    → chains
        (compare_timestamps t i t' i')
        (compare_timestamps t' i' t'' i'')
        (compare_timestamps t i t'' i'')
      ≡ true
unfolding compare_timestamps
timestamps-chains t i t' i' t'' i'' =
    chains-then _ _ _ _ _ _ (compare_ℕ-chains t t' t'') (compare_ℕ-chains i i' i'')

rank_inj : (a b : Class) → compare_ℕ (rank a) (rank b) ≡ Ordering.eq → a ≡ b
rank_inj Class.null_class Class.null_class h = refl
rank_inj Class.number_class Class.number_class h = refl
rank_inj Class.string_class Class.string_class h = refl
rank_inj Class.document_class Class.document_class h = refl
rank_inj Class.array_class Class.array_class h = refl
rank_inj Class.binary_class Class.binary_class h = refl
rank_inj Class.object_id_class Class.object_id_class h = refl
rank_inj Class.boolean_class Class.boolean_class h = refl
rank_inj Class.date_class Class.date_class h = refl
rank_inj Class.timestamp_class Class.timestamp_class h = refl
rank_inj Class.regex_class Class.regex_class h = refl
rank_inj _ _ h = cc

-- Within one class the inner comparison counts.
by_class-chains :
    (a b c : Class) (p q r : Ordering)
    → (a ≡ b → b ≡ c → chains p q r ≡ true)
    → chains (by_class a b p) (by_class b c q) (by_class a c r) ≡ true
by_class-chains a b c p q r h =
    chains-then_if _ _ _ _ _ _ (compare_ℕ-chains (rank a) (rank b) (rank c))
      (λ k k'. h (rank_inj a b k) (rank_inj b c k'))

-- A document holds its fields, an array its items.
is_exact-fields_of :
    (v : Value)
    → class_of v ≡ Class.document_class
    → is_exact v ≡ true
    → is_exact_fields (fields_of v) ≡ true
unfolding is_exact
is_exact-fields_of (doc fs) e h = h
is_exact-fields_of _ e h = cc

is_exact-items_of :
    (v : Value)
    → class_of v ≡ Class.array_class
    → is_exact v ≡ true
    → is_exact_items (items_of v) ≡ true
unfolding is_exact
is_exact-items_of (array xs) e h = h
is_exact-items_of _ e h = cc

abbrev is_nested : Class → Bool
is_nested Class.document_class = true
is_nested Class.array_class = true
is_nested _ = false

module _ (ar : Numerics) where
  exact-numbers :
      (l r : Value)
      → is_exact l ≡ true
      → is_exact r ≡ true
      → class_of l ≡ Class.number_class
      → class_of r ≡ Class.number_class
      → compare_scalars ar l r ≡ compare_int64s (whole l) (whole r)
  unfolding compare_scalars compare_numbers is_exact
  exact-numbers (int32 x) (int32 y) h k c d = refl
  exact-numbers (int32 x) (int64 y) h k c d = refl
  exact-numbers (int64 x) (int32 y) h k c d = refl
  exact-numbers (int64 x) (int64 y) h k c d = refl
  exact-numbers _ _ h k c d = cc

  abbrev ScalarChain : Value → Value → Value → Type 0
  ScalarChain a b c =
      chains (compare_scalars ar a b) (compare_scalars ar b c) (compare_scalars ar a c) ≡ true

  plain-chain :
      (a b c : Value) → is_plain (class_of a) ≡ true → class_of a ≡ class_of b → ScalarChain a b c
  plain-chain a b c h e = rw (
    compare_scalars-plain ar a b h,
    compare_scalars-plain ar b c (ap is_plain (sym e) ∙ h),
    compare_scalars-plain ar a c h,
  )

  number-chain :
      (a b c : Value)
      → is_exact a ≡ true
      → is_exact b ≡ true
      → is_exact c ≡ true
      → class_of a ≡ Class.number_class
      → class_of a ≡ class_of b
      → class_of b ≡ class_of c
      → ScalarChain a b c
  number-chain a b c xa xb xc n e e' =
      let m : class_of b ≡ Class.number_class = sym e ∙ n in
      let o : class_of c ≡ Class.number_class = sym e' ∙ m in
      rw (exact-numbers a b xa xb n m, exact-numbers b c xb xc m o, exact-numbers a c xa xc n o)
        (compare_int64s-chains (whole a) (whole b) (whole c))

  scalar-chain :
      (a b c : Value)
      → is_exact a ≡ true
      → is_exact b ≡ true
      → is_exact c ≡ true
      → class_of a ≡ class_of b
      → class_of b ≡ class_of c
      → ScalarChain a b c
  unfolding compare_scalars is_exact
  scalar-chain (string s) (string t) (string u) xa xb xc e e' = compare_text-chains s t u
  scalar-chain (object_id s) (object_id t) (object_id u) xa xb xc e e' = compare_text-chains s t u
  scalar-chain (binary s l) (binary t r) (binary u q) xa xb xc e e' = binaries-chains s l t r u q
  scalar-chain (boolean s) (boolean t) (boolean u) xa xb xc e e' = booleans-chains s t u
  scalar-chain (date s) (date t) (date u) xa xb xc e e' = compare_int64s-chains s t u
  scalar-chain (timestamp t i) (timestamp t' i') (timestamp t'' i'') xa xb xc e e' =
      timestamps-chains t i t' i' t'' i''
  scalar-chain missing b c xa xb xc e e' = plain-chain missing b c refl e
  scalar-chain nil b c xa xb xc e e' = plain-chain nil b c refl e
  scalar-chain null b c xa xb xc e e' = plain-chain null b c refl e
  scalar-chain (doc fs) b c xa xb xc e e' = plain-chain (doc fs) b c refl e
  scalar-chain (array xs) b c xa xb xc e e' = plain-chain (array xs) b c refl e
  scalar-chain (int32 x) b c xa xb xc e e' = number-chain (int32 x) b c xa xb xc refl e e'
  scalar-chain (int64 x) b c xa xb xc e e' = number-chain (int64 x) b c xa xb xc refl e e'
  scalar-chain _ _ _ xa xb xc e e' = cc

  -- What decides between two values of one class.
  within : Value → Value → Ordering
  within (doc fs) r = compare_documents ar fs (fields_of r)
  within (array xs) r = compare_arrays ar xs (items_of r)
  within l r = compare_scalars ar l r

  compare-within : (l r : Value) → compare ar l r ≡ by_class (class_of l) (class_of r) (within l r)
  unfolding compare within
  compare-within (doc fs) r = refl
  compare-within _ r = refl

  within-doc :
      (l r : Value)
      → class_of l ≡ Class.document_class
      → within l r ≡ compare_documents ar (fields_of l) (fields_of r)
  unfolding within
  within-doc (doc fs) r h = refl
  within-doc _ r h = cc

  within-array :
      (l r : Value)
      → class_of l ≡ Class.array_class
      → within l r ≡ compare_arrays ar (items_of l) (items_of r)
  unfolding within
  within-array (array xs) r h = refl
  within-array _ r h = cc

  within-scalar :
      (l r : Value) → is_nested (class_of l) ≡ false → within l r ≡ compare_scalars ar l r
  unfolding within
  within-scalar (doc fs) r h = cc
  within-scalar (array xs) r h = cc
  within-scalar _ r h = refl

  abbrev Chain : Value → Value → Value → Type 0
  Chain a b c = chains (compare ar a b) (compare ar b c) (compare ar a c) ≡ true

  -- From one class to all.
  Chain-by_class :
      (a b c : Value)
      → (class_of a ≡ class_of b
          → class_of b ≡ class_of c
          → chains (within a b) (within b c) (within a c) ≡ true)
      → Chain a b c
  Chain-by_class a b c h =
      rw (compare-within a b, compare-within b c, compare-within a c)
        (by_class-chains (class_of a) (class_of b) (class_of c) _ _ _ h)

  within-scalar-Chain :
      (a b c : Value)
      → is_nested (class_of a) ≡ false
      → is_exact a ≡ true
      → is_exact b ≡ true
      → is_exact c ≡ true
      → Chain a b c
  within-scalar-Chain a b c n xa xb xc = Chain-by_class a b c λ e e'.
      rw (within-scalar a b n, within-scalar b c (ap is_nested (sym e) ∙ n), within-scalar a c n)
        (scalar-chain a b c xa xb xc e e')

  mutual
    unfolding is_exact compare

    chain :
        (a b c : Value) → is_exact a ≡ true → is_exact b ≡ true → is_exact c ≡ true → Chain a b c
    chain (doc fs) b c xa xb xc = Chain-by_class (doc fs) b c λ e e'.
        rw (within-doc (doc fs) b refl, within-doc b c (sym e), within-doc (doc fs) c refl)
          (document-chain fs (fields_of b) (fields_of c) xa (is_exact-fields_of b (sym e) xb)
            (is_exact-fields_of c (sym (e ∙ e')) xc))
    chain (array xs) b c xa xb xc = Chain-by_class (array xs) b c λ e e'.
        rw
          (within-array (array xs) b refl, within-array b c (sym e), within-array (array xs) c refl)
          (array-chain xs (items_of b) (items_of c) xa (is_exact-items_of b (sym e) xb)
            (is_exact-items_of c (sym (e ∙ e')) xc))
    chain a b c xa xb xc = within-scalar-Chain a b c refl xa xb xc

    document-chain :
        (fs gs hs : Fields)
        → is_exact_fields fs ≡ true
        → is_exact_fields gs ≡ true
        → is_exact_fields hs ≡ true
        → chains
            (compare_documents ar fs gs)
            (compare_documents ar gs hs)
            (compare_documents ar fs hs)
          ≡ true
    document-chain end end end x y z = refl
    document-chain end end (field k v hs) x y z = refl
    document-chain end (field k v gs) end x y z = refl
    document-chain end (field k v gs) (field k' v' hs) x y z = chains-lt _
    document-chain (field k v fs) end end x y z = refl
    document-chain (field k v fs) end (field k' v' hs) x y z = refl
    document-chain (field k v fs) (field k' v' gs) end x y z = chains-gt _
    document-chain (field k v fs) (field k' v' gs) (field k'' v'' hs) x y z =
        chains-then _ _ _ _ _ _ (compare_text-chains k k' k'') (
          chains-then _ _ _ _ _ _
            (chain v v' v'' (and_left _ _ x) (and_left _ _ y) (and_left _ _ z))
            (document-chain fs gs hs (and_right _ _ x) (and_right _ _ y) (and_right _ _ z)))

    array-chain :
        (xs ys zs : Items)
        → is_exact_items xs ≡ true
        → is_exact_items ys ≡ true
        → is_exact_items zs ≡ true
        → chains (compare_arrays ar xs ys) (compare_arrays ar ys zs) (compare_arrays ar xs zs)
          ≡ true
    array-chain empty empty empty x y z = refl
    array-chain empty empty (item v zs) x y z = refl
    array-chain empty (item v ys) empty x y z = refl
    array-chain empty (item v ys) (item v' zs) x y z = chains-lt _
    array-chain (item v xs) empty empty x y z = refl
    array-chain (item v xs) empty (item v' zs) x y z = refl
    array-chain (item v xs) (item v' ys) empty x y z = chains-gt _
    array-chain (item v xs) (item v' ys) (item v'' zs) x y z =
        chains-then _ _ _ _ _ _ (chain v v' v'' (and_left _ _ x) (and_left _ _ y) (and_left _ _ z))
          (array-chain xs ys zs (and_right _ _ x) (and_right _ _ y) (and_right _ _ z))

  -- On values whose numbers are integers and that hold no regular expression the order of `a` to
  -- `b` and that of `b` to `c` decide that of `a` to `c`: equal values are interchangeable, and
  -- less and greater are transitive.
  pub compare-chains :
      (a b c : Value)
      → is_exact a ≡ true
      → is_exact b ≡ true
      → is_exact c ≡ true
      → chains (compare ar a b) (compare ar b c) (compare ar a c) ≡ true
  compare-chains a b c xa xb xc = chain a b c xa xb xc
