-- ===== src/Mongokit/Collection.antt =====
-- mongokit/collection.go: a set of documents and its indexes.
pub mod Operations
pub mod Consistent
pub mod Documents
pub mod Keeps
pub mod Schema
pub mod Writes
pub mod Invariant
use lungo.Base.{
  ℕ, zero, suc, ◌+◌, Bool, true, false, not, ◌&&◌, ◌||◌, List, [], ◌∷◌, ◌++◌, map, ◌==◌, Option,
  none, some, if◌then◌else◌, Text, text_eq, codes, ℤ, pos, negsuc, eqb_ℤ, is_eq, Result, ok, fail,
  ◌>>=◌, panic, duplicate_document, missing_in_index, cannot_add_document, cannot_replace_document,
  cannot_remove_document, immutable_id, exclusive_upsert, mismatched_id, same_index_key,
  missing_index,
}
use lungo.Bsonkit.Value.{
  Value, missing, nil, null, int32, int64, double, decimal128, string, doc, array, binary,
  object_id, boolean, date, timestamp, regex, Items, Fields, end, field, is_missing,
}
use lungo.Bsonkit.Number.{Numerics, float_eq}
use lungo.Bsonkit.Compare.{compare}
use lungo.Bsonkit.Access.{get_path, put_path}
use lungo.Bsonkit.Sort.{Doc}
use lungo.Bsonkit.Set as S
use lungo.Bsonkit.Set.{DocSet, new_set}
use lungo.Bsonkit.Index.{Btree}
use lungo.Bsonkit.Math.{Arithmetic}
use lungo.Mongokit.Query.{SchemaCheck}
use lungo.Mongokit.Filter.{filter}
use lungo.Mongokit.Find.{find, sorted}
use lungo.Mongokit.Apply.{Changes, Clock, apply, update_list}
use lungo.Mongokit.Extract.{extract}
use lungo.Mongokit.Index as I
use lungo.Mongokit.Index.{Index, IndexConfig, create_index}

-- `content` is what stands at the addresses of the set; a stored document is not written to. The
-- Go map of the indexes is a list of its entries, in the order in which the loops visit them.
pub record Collection (B : Btree) : Type 0 where
  pub documents : DocSet
  pub content : ℕ → Fields
  pub indexes : List (Text × Index B)

-- The type Result.
pub record Outcome : Type 0 where
  pub matched : List Doc
  pub modified : List Doc
  pub upserted : Option Doc
  pub changes : List Changes

abbrev pub no_outcome : Outcome
no_outcome = record { matched = []; modified = []; upserted = none; changes = [] }

-- The comparison `a == b` of two Go interfaces: values of a type that holds a slice panic.
unfoldable pub go_equal : Value → Value → Result Bool
unfolding float_eq text_eq
go_equal missing missing = ok true
go_equal nil nil = ok true
go_equal null null = ok true
go_equal (int32 a) (int32 b) = ok (eqb_ℤ a b)
go_equal (int64 a) (int64 b) = ok (eqb_ℤ a b)
go_equal (double a) (double b) = ok (float_eq a b)
go_equal (decimal128 h l) (decimal128 h' l') = ok (h == h' && l == l')
go_equal (string a) (string b) = ok (text_eq a b)
go_equal (doc a) (doc b) = fail panic
go_equal (array a) (array b) = fail panic
go_equal (binary s a) (binary t b) = fail panic
go_equal (object_id a) (object_id b) = ok (text_eq a b)
go_equal (boolean true) (boolean b) = ok b
go_equal (boolean false) (boolean b) = ok (not b)
go_equal (date a) (date b) = ok (eqb_ℤ a b)
go_equal (timestamp t i) (timestamp t' i') = ok (t == t' && i == i')
go_equal (regex p o) (regex p' o') = ok (text_eq p p' && text_eq o o')
go_equal a b = ok false

-- A write to an index of the map, and its deletion.
unfoldable pub set_index {ℓ} : {A : Type ℓ} → List (Text × A) → Text → A → List (Text × A)
set_index [] name i = (name, i) ∷ []
set_index ((n, j) ∷ is) name i =
    let rest = set_index is name i in if text_eq n name then (n, i) ∷ is else (n, j) ∷ rest

unfoldable pub index_at {ℓ} : {A : Type ℓ} → List (Text × A) → Text → Option A
index_at [] name = none
index_at ((n, i) ∷ is) name = let rest = index_at is name in if text_eq n name then some i else rest

unfoldable pub delete_index {ℓ} : {A : Type ℓ} → List (Text × A) → Text → List (Text × A)
delete_index [] name = []
delete_index ((n, i) ∷ is) name =
    let rest = delete_index is name in if text_eq n name then rest else (n, i) ∷ rest

module _ {B : Btree} where
  -- The list of the set.
  abbrev pub docs : Collection B → List Doc
  docs c = map (λ a. record { address = a; content = c.content a }) c.documents.list

  -- Add, Replace and Remove of the set, and what stands at an address that comes in.
  unfoldable pub add_document : Collection B → Doc → Result (Collection B)
  unfolding S.add
  add_document c d =
      let (s, done) = S.add c.documents d.address in
      if done
      then ok (record c {
        documents = s;
        content = λ a. if a == d.address then d.content else c.content a;
      })
      else fail cannot_add_document

  unfoldable pub replace_document : Collection B → Doc → Doc → Result (Collection B)
  unfolding S.replace
  replace_document c old d =
      let (s, done) = S.replace c.documents old.address d.address in
      if done
      then ok (record c {
        documents = s;
        content = λ a. if a == d.address then d.content else c.content a;
      })
      else fail cannot_replace_document

  unfoldable pub remove_document : Collection B → Doc → Result (Collection B)
  unfolding S.remove
  remove_document c d =
      let (s, done) = S.remove c.documents d.address in
      if done then ok (record c { documents = s }) else fail cannot_remove_document

  unfoldable pub remove_documents : Collection B → List Doc → Result (Collection B)
  unfolding remove_document
  remove_documents c [] = ok c
  remove_documents c (d ∷ ds) = remove_document c d >>= λ c'. remove_documents c' ds

  unfoldable pub replace_documents : Collection B → List Doc → List Doc → Result (Collection B)
  unfolding replace_document
  replace_documents c (old ∷ olds) (d ∷ ds) =
      replace_document c old d >>= λ c'. replace_documents c' olds ds
  replace_documents c _ _ = ok c

abbrev pub empty_collection : (B : Btree) → Collection B
empty_collection B = record { documents = new_set []; content = λ _. end; indexes = [] }

abbrev pub id_config : IndexConfig
id_config = record {
  key = field (codes "_id") (int32 (pos 1)) end;
  unique = true;
  partial = none;
  expiry = pos 0;
}

-- NewCollection: with the index over `_id`, or with none.
unfoldable pub new_collection : (B : Btree) → Numerics → Bool → Result (Collection B)
unfolding new_set create_index set_index
new_collection B ar false = ok (empty_collection B)
new_collection B ar true = create_index B ar id_config >>= λ i.
    ok (record (empty_collection B) { indexes = set_index [] (codes "_id_") i })

module _ {B : Btree} (ar : Numerics) (schema : SchemaCheck) where
  -- The loops over the indexes that add a document, remove one, and do both at each index.
  unfoldable pub add_to_indexes : List (Text × Index B) → Doc → Result (List (Text × Index B))
  unfolding I.add
  add_to_indexes [] d = ok []
  add_to_indexes ((n, i) ∷ is) d =
      let rest = add_to_indexes is d in
      I.add ar schema i d >>= λ (done, i').
      if done then (rest >>= λ is'. ok ((n, i') ∷ is')) else fail (duplicate_document n)

  unfoldable pub remove_from_indexes : List (Text × Index B) → Doc → Result (List (Text × Index B))
  unfolding I.remove
  remove_from_indexes [] d = ok []
  remove_from_indexes ((n, i) ∷ is) d =
      let rest = remove_from_indexes is d in
      I.remove ar schema i d >>= λ (done, i').
      if done then (rest >>= λ is'. ok ((n, i') ∷ is')) else fail (missing_in_index n)

  unfoldable pub replace_in_indexes :
      List (Text × Index B) → Doc → Doc → Result (List (Text × Index B))
  unfolding I.add I.remove
  replace_in_indexes [] old d = ok []
  replace_in_indexes ((n, i) ∷ is) old d =
      let rest = replace_in_indexes is old d in
      I.remove ar schema i old >>= λ (removed, i').
      if removed
      then (I.add ar schema i' d >>= λ (done, i'').
          if done then (rest >>= λ is'. ok ((n, i'') ∷ is')) else fail (duplicate_document n))
      else fail (missing_in_index n)

  -- The loops over documents around the loops over indexes.
  unfoldable pub add_all_to_indexes :
      List (Text × Index B) → List Doc → Result (List (Text × Index B))
  unfolding add_to_indexes
  add_all_to_indexes is [] = ok is
  add_all_to_indexes is (d ∷ ds) = add_to_indexes is d >>= λ is'. add_all_to_indexes is' ds

  unfoldable pub remove_all_from_indexes :
      List (Text × Index B) → List Doc → Result (List (Text × Index B))
  unfolding remove_from_indexes
  remove_all_from_indexes is [] = ok is
  remove_all_from_indexes is (d ∷ ds) =
      remove_from_indexes is d >>= λ is'. remove_all_from_indexes is' ds

  -- The end of Insert and Upsert: the document goes to the indexes, then to the set.
  unfoldable pub store : Collection B → Doc → Result (Collection B)
  unfolding add_to_indexes add_document
  store c d = add_to_indexes c.indexes d >>= λ is. add_document (record c { indexes = is }) d

-- The document with an `_id`, generated if it has none. primitive.NewObjectID is an argument.
unfoldable pub ensure_id : Value → Fields → Result Fields
unfolding get_path put_path
ensure_id id d =
    if is_missing (get_path d (codes "_id"))
    then (put_path d (codes "_id") id true >>= λ put. ok put.1)
    else ok d

-- The check of Replace and Update that a document keeps its `_id`.
unfoldable pub check_id : Value → Value → Result (Unit {0})
unfolding go_equal
check_id new old = go_equal new old >>= λ same. if same then ok tt else fail immutable_id

unfoldable pub check_ids : List (Fields × Changes) → List Doc → Result (Unit {0})
unfolding check_id get_path
check_ids ((d, _) ∷ ds) (old ∷ olds) =
    check_id (get_path d (codes "_id")) (get_path old.content (codes "_id")) >>= λ _.
    check_ids ds olds
check_ids _ _ = ok tt

-- The new documents of Update. The clone of the i-th document stands at an address that is given.
unfoldable pub place : (ℕ → ℕ) → ℕ → List (Fields × Changes) → List Doc
place fresh i [] = []
place fresh i ((d, _) ∷ ds) = record { address = fresh i; content = d } ∷ place fresh (suc i) ds

unfoldable pub changes_of : List (Fields × Changes) → List Changes
changes_of [] = []
changes_of ((_, c) ∷ ds) = c ∷ changes_of ds

-- The replacement with the `_id` of the document that it replaces, if it has none.
unfoldable pub adopt_id : Fields → Fields → Result Fields
unfolding get_path put_path check_id
adopt_id repl old =
    let id = get_path repl (codes "_id") in
    let old_id = get_path old (codes "_id") in
    if is_missing id
    then (put_path repl (codes "_id") old_id true >>= λ put. ok put.1)
    else (check_id id old_id >>= λ _. ok repl)

module _ (ar : Numerics) where
  -- The document that Upsert starts from, for a replacement: its `_id` or that of the query.
  unfoldable pub upsert_replacement : Fields → Fields → Result Fields
  unfolding get_path put_path compare
  upsert_replacement d repl =
      let query_id = get_path d (codes "_id") in
      let repl_id = get_path repl (codes "_id") in
      if not (is_missing query_id)
        && not (is_missing repl_id)
        && not (is_eq (compare ar repl_id query_id))
      then fail mismatched_id
      else if not (is_missing repl_id)
      then (put_path repl (codes "_id") repl_id true >>= λ put. ok put.1)
      else if not (is_missing query_id)
      then (put_path repl (codes "_id") query_id true >>= λ put. ok put.1)
      else ok repl
