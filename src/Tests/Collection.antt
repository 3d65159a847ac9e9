-- ===== src/Tests/Collection.antt =====
-- Calls on a collection over the btree in a list, and the theorems there.
use lungo.Bsonkit.PathTree.{leaf, store_path}
use lungo.Bsonkit.Access.RoundTrip.{unsigned}
use lungo.Mongokit.Apply.{ApplyState}
use lungo.Mongokit.Apply.Records.{inc_writer, IsRecorded, operator_of-IsRecorded}
use lungo.Base.{
  ◌⊎◌, ℕ, ◌+◌, ◌≡◌, inl, inr, refl, Bool, true, false, List, [], ◌∷◌, none, some, if_both, arith,
  sym, ℤ, compare_text, text_eq, codes, pos, negsuc, ok, Ordering, ◌+ℤ◌, ◌*ℤ◌,
}
use lungo.Bsonkit.Value.{
  Fields, array, date, doc, empty, end, field, int32, int64, item, object_id, string, timestamp,
}
use lungo.Bsonkit.Number.{compare_int64s, compare_numbers}
use lungo.Bsonkit.Compare as C
use lungo.Bsonkit.Compare.{compare}
use lungo.Bsonkit.Compare.Reflexive as Reflexive
use lungo.Bsonkit.Math.{Arithmetic, add_values, mul_values}
use lungo.Bsonkit.Math.Bounds as Bounds
use lungo.Bsonkit.Sort.{Doc}
use lungo.Bsonkit.Index.{index_less, new_index}
use lungo.Bsonkit.Index.Refines.{without}
use lungo.Mongokit.Index.{Index}
use lungo.Mongokit.Match.{match_comp}
use lungo.Mongokit.Apply.{Clock, apply_inc}
use lungo.Mongokit.Extract.{extract, extract_eq}
use lungo.Mongokit.Index.Holds.{Trust}
use lungo.Mongokit.Find.Members.{IsPart, IsSort, IsPart-trans, IsPart-cons}
use lungo.Mongokit.Collection.{Collection, empty_collection, id_config, new_collection, docs}
use lungo.Mongokit.Collection.Operations.{World, Moment}
use lungo.Mongokit.Collection.Consistent.{IsConsistent}
use lungo.Mongokit.Collection.Invariant as Invariant
use lungo.Mongokit.Collection.Invariant.{
  Operation, insert_op, update_op, upsert_op, delete_op, perform_all, stays_plain,
}
use lungo.Tests.{numerics, any_schema, sample}
use lungo.Tests.Find.{insertion_sort, insert_by}
use lungo.Tests.Index.{list_tree, contract, first}

IsPart-swap : (x y : Doc) (xs : List Doc) → IsPart (y ∷ x ∷ xs) (x ∷ y ∷ xs)
IsPart-swap x y xs = (
  λ z m. elim m [ inl e ↦ inr (inl e) | inr (inl e) ↦ inl e | inr (inr n) ↦ inr (inr n) ],
  λ (nx, (ny, u)). (λ m. elim m [ inl e ↦ nx (inl (sym e)) | inr n ↦ ny n ], (λ n. nx (inr n), u)),
)

pub IsPart-insert_by :
    (less : Doc → Doc → Bool) (d : Doc) (xs : List Doc) → IsPart (insert_by less d xs) (d ∷ xs)
IsPart-insert_by less d [] = (λ x m. m, λ u. u)
IsPart-insert_by less d (y ∷ ys) =
    if_both (λ l. IsPart l (d ∷ y ∷ ys)) (less d y) (λ x m. m, λ u. u)
      (IsPart-trans (y ∷ insert_by less d ys) (y ∷ d ∷ ys) (d ∷ y ∷ ys)
        (IsPart-cons y (insert_by less d ys) (d ∷ ys) (IsPart-insert_by less d ys))
        (IsPart-swap d y ys))

pub IsPart-insertion_sort :
    (less : Doc → Doc → Bool) (xs : List Doc) → IsPart (insertion_sort less xs) xs
IsPart-insertion_sort less [] = (λ x m. m, λ u. u)
IsPart-insertion_sort less (x ∷ xs) =
    IsPart-trans (insert_by less x (insertion_sort less xs)) (x ∷ insertion_sort less xs) (x ∷ xs)
      (IsPart-insert_by less x (insertion_sort less xs))
      (IsPart-cons x (insertion_sort less xs) xs (IsPart-insertion_sort less xs))

pub insertion_sort-IsSort : IsSort insertion_sort
insertion_sort-IsSort = record { part = IsPart-insertion_sort }

abbrev pub arithmetic : Arithmetic
arithmetic = record {
  float_of_int64 = λ z. 0;
  float_add = λ a b. a + b;
  float_mul = λ a b. a;
  decimal_add = λ a b. a;
  decimal_mul = λ a b. b;
  d128_of_decimal = λ d. (0, 0);
}

abbrev pub clock : Clock
clock = record { date_now = date (pos 1000); timestamp_now = timestamp 1 1 }

abbrev pub world : World
world = record {
  numerics = numerics;
  arithmetic = arithmetic;
  schema = any_schema;
  clock = clock;
  sort_slice = insertion_sort;
  object_id = object_id (codes "twelve bytes");
  fresh = λ n. 100 + n;
}

pub compare_int64s_self : (z : ℤ) → compare_int64s z z ≡ Ordering.eq
unfolding compare_int64s
compare_int64s_self z = ground arith

pub trust : Trust list_tree numerics
trust = record { contract = contract; cmp_self = λ a. compare_int64s_self a.0 }

-- {"_id": id, "n": n}
abbrev pub entry : ℕ → ℕ → Fields
entry id n = field (codes "_id") (int32 (pos id)) (field (codes "n") (int32 (pos n)) end)

abbrev pub stored : ℕ → ℕ → ℕ → Doc
stored address id n = record { address = address; content = entry id n }

-- {"n": {"$gte": n}}
abbrev pub from : ℕ → Fields
from n = field (codes "n") (doc (field (codes "$gte") (int32 (pos n)) end)) end

-- {"$inc": {"n": 1}}
abbrev pub bump : Fields
bump = field (codes "$inc") (doc (field (codes "n") (int32 (pos 1)) end)) end

abbrev pub moment : ℕ → Moment
moment a = record {
  clock = clock;
  object_id = object_id (codes "twelve bytes");
  fresh = λ n. a + n;
}

-- The second insert has the id of the first, and the update finds two documents.
abbrev operations : List (Moment × Operation)
operations =
    (moment 100, insert_op (stored 1 7 5))
    ∷ (moment 100, insert_op (stored 2 7 6))
    ∷ (moment 100, insert_op (stored 3 8 6))
    ∷ (moment 100, insert_op (stored 4 9 1))
    ∷ (moment 100, update_op (from 5) bump end 0 (pos 0) [])
    ∷ (moment 200, upsert_op (field (codes "_id") (int32 (pos 4)) end) none (some bump) [])
    ∷ (moment 300, delete_op (from 7) end 0 (pos 0))
    ∷ []

program : Unit {0}
unfolding perform_all new_collection compare C.compare_scalars compare_numbers compare_int64s
    compare_text text_eq index_less extract extract_eq apply_inc match_comp without first add_values
    mul_values
program = tt

abbrev id_index : Index list_tree
id_index = record {
  config = id_config;
  index_columns = record { path = codes "_id"; reverse = false } ∷ [];
  base = new_index list_tree numerics true (record { path = codes "_id"; reverse = false } ∷ []);
}

abbrev made : Collection list_tree
made = record (empty_collection list_tree) { indexes = (codes "_id_", id_index) ∷ [] }

made_new : new_collection list_tree numerics true ≡ ok made
unfolding program
made_new = refl

left_over :
    docs (perform_all world made operations) ≡ stored 100 7 6 ∷ stored 4 9 1 ∷ stored 200 4 1 ∷ []
unfolding program
left_over = refl

stays : stays_plain world made operations ≡ true
unfolding program stays_plain
stays = refl

perform_all-IsConsistent_example :
    IsConsistent numerics any_schema trust (perform_all world made operations)
perform_all-IsConsistent_example =
    Invariant.perform_all-IsConsistent world trust insertion_sort-IsSort made true operations
      made_new stays

extracted :
    extract (field (codes "_id") (int32 (pos 4)) (from 3))
    ≡ ok (field (codes "_id") (int32 (pos 4)) end)
unfolding program
extracted = refl

sample_finite : Reflexive.is_finite (doc sample) ≡ true
unfolding Reflexive.is_finite
sample_finite = refl

compare_self_example : compare numerics (doc sample) (doc sample) ≡ Ordering.eq
compare_self_example =
    Reflexive.compare_self numerics (λ a. compare_int64s_self a.0) (doc sample) sample_finite

-- An int32 that overflows wraps around.
add_values-mul_values_example :
    Bounds.IsExact
      (int32 (pos 0x7fffffff))
      (int32 (pos 2))
      (add_values numerics arithmetic (int32 (pos 0x7fffffff)) (int32 (pos 2)))
      (pos 0x7fffffff +ℤ pos 2)
    × Bounds.IsExact
        (int32 (pos 0x7fffffff))
        (int32 (pos 2))
        (mul_values numerics arithmetic (int32 (pos 0x7fffffff)) (int32 (pos 2)))
        (pos 0x7fffffff *ℤ pos 2)
add_values-mul_values_example =
    Bounds.add_values-mul_values numerics arithmetic (int32 (pos 0x7fffffff)) (int32 (pos 2)) refl
      refl

wrapped :
    add_values numerics arithmetic (int32 (pos 0x7fffffff)) (int32 (pos 2))
    ≡ int32 (negsuc 0x7ffffffe)
unfolding program
wrapped = refl

-- {"a": {"b": [1, 2]}, "c": "x"}, and 3 added to "a.b.1".
abbrev state : ApplyState
state = record {
  document = sample;
  changes = record { upsert = false; changed = []; path_tree = leaf };
}

abbrev incremented : ApplyState
incremented = record {
  document =
      field (codes "a")
        (doc (field (codes "b") (array (item (int32 (pos 1)) (item (int64 (pos 5)) empty))) end))
        (field (codes "c") (string (codes "x")) end);
  changes = record {
    upsert = false;
    changed = (codes "a.b.1", int64 (pos 5)) ∷ [];
    path_tree = store_path leaf (codes "a.b.1");
  };
}

operator_of-IsRecorded_example : (incremented ≡ state) ⊎ IsRecorded incremented (codes "a.b.1")
unfolding program unsigned
operator_of-IsRecorded_example =
    operator_of-IsRecorded numerics arithmetic clock inc_writer state incremented (codes "$inc")
      (codes "a.b.1") (int32 (pos 3)) refl refl
