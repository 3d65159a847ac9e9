-- ===== src/Bsonkit/Compare.antt =====
-- bsonkit/compare.go: the order of BSON values.
pub mod Laws
pub mod Order
pub mod Reflexive
use lungo.Base.{
  ℕ, Bool, true, false, ltb, leb, ◌==◌, if◌then◌else◌, ◌&&◌, Text, ℤ, Ordering,
  compare as compare_ℕ, compare_text, then_compare, is_gt, length, ◌≡◌, refl, codes, pos,
}
use lungo.Bsonkit.Value.{
  Value, missing, nil, null, int32, int64, double, decimal128, string, doc, array, binary,
  object_id, boolean, date, timestamp, regex, Items, empty, item, Fields, end, field, Class,
  class_of, rank,
}
use lungo.Bsonkit.Number.{Numerics, compare_numbers, compare_int64s}

-- The type assertions of compareDocuments and compareArrays, which the class check makes safe.
abbrev pub fields_of : Value → Fields
fields_of (doc fs) = fs
fields_of _ = end

abbrev pub items_of : Value → Items
items_of (array xs) = xs
items_of _ = empty

-- By class, and within one class as given.
abbrev pub by_class : Class → Class → Ordering → Ordering
by_class lc rc o = then_compare (compare_ℕ (rank lc) (rank rc)) o

unfoldable pub compare_binaries : ℕ → Text → ℕ → Text → Ordering
compare_binaries s l t r =
    then_compare (compare_ℕ (length l) (length r)) (then_compare (compare_ℕ s t) (compare_text l r))

unfoldable pub compare_booleans : Bool → Bool → Ordering
compare_booleans true true = Ordering.eq
compare_booleans false false = Ordering.eq
compare_booleans true false = Ordering.gt
compare_booleans false true = Ordering.lt

-- primitive.CompareTimestamp: seconds, then the counter.
unfoldable pub compare_timestamps : ℕ → ℕ → ℕ → ℕ → Ordering
compare_timestamps t i t' i' = then_compare (compare_ℕ t t') (compare_ℕ i i')

-- A smaller pattern does not decide: only a greater one is returned at once.
unfoldable pub compare_regexes : Text → Text → Text → Text → Ordering
compare_regexes p o p' o' =
    if is_gt (compare_text p p') then compare_text p p' else compare_text o o'

module _ (ar : Numerics) where
  -- The cases of the switch but for documents and arrays, for two values of one class.
  unfoldable pub compare_scalars : Value → Value → Ordering
  unfolding compare_binaries compare_booleans compare_timestamps compare_regexes
  compare_scalars (string l) (string r) = compare_text l r
  compare_scalars (binary s l) (binary t r) = compare_binaries s l t r
  compare_scalars (object_id l) (object_id r) = compare_text l r
  compare_scalars (boolean l) (boolean r) = compare_booleans l r
  compare_scalars (date l) (date r) = compare_int64s l r
  compare_scalars (timestamp t i) (timestamp t' i') = compare_timestamps t i t' i'
  compare_scalars (regex p o) (regex p' o') = compare_regexes p o p' o'
  compare_scalars l r = compare_numbers ar l r

  -- The checks for empty lists in the source are the first round of its loops.
  unfoldable mutual
    pub compare : Value → Value → Ordering
    compare (doc fs) r =
        by_class Class.document_class (class_of r) (compare_documents fs (fields_of r))
    compare (array xs) r = by_class Class.array_class (class_of r) (compare_arrays xs (items_of r))
    compare l r = by_class (class_of l) (class_of r) (compare_scalars l r)

    pub compare_documents : Fields → Fields → Ordering
    compare_documents end end = Ordering.eq
    compare_documents end (field k v fs) = Ordering.lt
    compare_documents (field k v fs) end = Ordering.gt
    compare_documents (field k v fs) (field k' v' fs') =
        then_compare (compare_text k k') (then_compare (compare v v') (compare_documents fs fs'))

    pub compare_arrays : Items → Items → Ordering
    compare_arrays empty empty = Ordering.eq
    compare_arrays empty (item v xs) = Ordering.lt
    compare_arrays (item v xs) empty = Ordering.gt
    compare_arrays (item v xs) (item v' xs') = then_compare (compare v v') (compare_arrays xs xs')
