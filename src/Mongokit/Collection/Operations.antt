-- ===== src/Mongokit/Collection/Operations.antt =====
-- mongokit/collection.go: the operations of a collection. What the source reads from outside
-- stands in the record of the section: the decimal package, the clock, sort.Slice, the generated
-- object ids, and the addresses of new documents.
use lungo.Base.{
  ℕ, Bool, true, false, List, [], ◌∷◌, Option, none, some, if◌then◌else◌, Text, text_eq, codes, ℤ,
  pos, is_eq, Result, ok, fail, ◌>>=◌, exclusive_upsert, same_index_key, missing_index,
  duplicate_document,
}
use lungo.Bsonkit.Value.{Value, doc, Fields}
use lungo.Bsonkit.Number.{Numerics}
use lungo.Bsonkit.Compare.{compare}
use lungo.Bsonkit.Sort.{Doc}
use lungo.Bsonkit.Index.{Btree}
use lungo.Bsonkit.Math.{Arithmetic}
use lungo.Mongokit.Query.{SchemaCheck}
use lungo.Mongokit.Filter.{filter}
use lungo.Mongokit.Find.{find, sorted}
use lungo.Mongokit.Apply.{Clock, apply, update_list}
use lungo.Mongokit.Extract.{extract}
use lungo.Mongokit.Index as I
use lungo.Mongokit.Index.{Index, IndexConfig, create_index, index_name, equal}
use lungo.Mongokit.Collection.{
  Collection, Outcome, no_outcome, docs, store, ensure_id, adopt_id, check_ids, place, changes_of,
  replace_in_indexes, replace_document, replace_documents, remove_documents, add_all_to_indexes,
  remove_all_from_indexes, upsert_replacement, set_index, index_at, delete_index,
}

pub record World : Type 0 where
  pub numerics : Numerics
  pub arithmetic : Arithmetic
  pub schema : SchemaCheck
  pub clock : Clock
  pub sort_slice : (Doc → Doc → Bool) → List Doc → List Doc
  -- primitive.NewObjectID
  pub object_id : Value
  -- the addresses of documents that an operation allocates
  pub fresh : ℕ → ℕ

-- What the world gives to one call: the time, an object id, and addresses that are not in use.
pub record Moment : Type 0 where
  pub clock : Clock
  pub object_id : Value
  pub fresh : ℕ → ℕ

abbrev pub at : World → Moment → World
at w m = record w { clock = m.clock; object_id = m.object_id; fresh = m.fresh }

abbrev pub contents : List Doc → List Fields
contents [] = []
contents (d ∷ ds) = d.content ∷ contents ds

module _ (w : World) where
  -- The document that Upsert inserts, but for a generated id.
  unfoldable pub upsert_document :
      Fields → Option Fields → Option Fields → List Fields → Result Fields
  unfolding extract upsert_replacement apply
  upsert_document query repl change filters = extract query >>= λ d. elim repl [
    | some r ↦ elim change [
      | some _ ↦ fail exclusive_upsert
      | none ↦ upsert_replacement w.numerics d r
    ]
    | none ↦ elim change [
      | some u ↦ apply w.numerics w.arithmetic w.clock w.schema d u true filters >>= λ r. ok r.0
      | none ↦ ok d
    ]
  ]

  -- The name as given, or computed if it is empty.
  unfoldable pub effective_name : Text → IndexConfig → Result Text
  unfolding index_name
  effective_name [] config = index_name w.numerics config
  effective_name (ch ∷ name) config = ok (ch ∷ name)

module _ {B : Btree} where
  -- The names but that of the index over `_id`, and that index alone.
  unfoldable pub other_names : List (Text × Index B) → List Text
  other_names [] = []
  other_names ((n, i) ∷ is) =
      let rest = other_names is in if text_eq n (codes "_id_") then rest else n ∷ rest

  unfoldable pub only_id : List (Text × Index B) → List (Text × Index B)
  only_id [] = []
  only_id ((n, i) ∷ is) =
      let rest = only_id is in if text_eq n (codes "_id_") then (n, i) ∷ rest else rest

module _ {B : Btree} where
  -- DropIndex of one index, by what stands under its name.
  unfoldable pub drop_named :
      Collection B → Text → Option (Index B) → Result (List Text × Collection B)
  unfolding delete_index
  drop_named c name none = fail (missing_index name)
  drop_named c name (some _) = ok (name ∷ [], record c { indexes = delete_index c.indexes name })

  unfoldable pub drop_index : Collection B → Text → Result (List Text × Collection B)
  unfolding other_names only_id index_at drop_named
  drop_index c [] = ok (other_names c.indexes, record c { indexes = only_id c.indexes })
  drop_index c (ch ∷ name) = drop_named c (ch ∷ name) (index_at c.indexes (ch ∷ name))

module _ {B : Btree} (w : World) where
  -- Sort, limit, filter and skip, as Find, Update and Delete begin.
  unfoldable pub select_documents : Collection B → Fields → Fields → ℕ → ℤ → Result (List Doc)
  unfolding find
  select_documents c query order_by skip limit =
      find w.numerics w.schema w.sort_slice (docs c) query order_by skip limit

  -- Insert writes an id to the caller's document, which it stores.
  unfoldable pub insert : Collection B → Doc → Result (Outcome × Collection B)
  unfolding ensure_id store
  insert c d = ensure_id w.object_id d.content >>= λ content.
      let d' : Doc = record { address = d.address; content = content } in
      store w.numerics w.schema c d' >>= λ c'. ok (record no_outcome { modified = d' ∷ [] }, c')

  -- The first document that the query matches.
  unfoldable pub first_match : Collection B → Fields → Fields → Result (List Doc)
  unfolding sorted filter
  first_match c query order_by =
      sorted w.numerics w.schema w.sort_slice (docs c) order_by >>= λ list.
      let found = filter w.numerics w.schema list query (pos 1) in
      elim found.1 [ some e ↦ fail e | none ↦ ok found.0 ]

  -- Replace with the documents that it found, which are at most one.
  unfoldable pub replace_found : Collection B → Doc → List Doc → Result (Outcome × Collection B)
  unfolding adopt_id replace_in_indexes replace_document
  replace_found c repl [] = ok (no_outcome, c)
  replace_found c repl (old ∷ rest) = adopt_id repl.content old.content >>= λ content.
      let repl' : Doc = record { address = repl.address; content = content } in
      replace_in_indexes w.numerics w.schema c.indexes old repl' >>= λ is.
      replace_document (record c { indexes = is }) old repl' >>= λ c'.
      ok (record no_outcome { matched = old ∷ rest; modified = repl' ∷ [] }, c')

  unfoldable pub replace : Collection B → Fields → Doc → Fields → Result (Outcome × Collection B)
  unfolding first_match replace_found
  replace c query repl order_by = first_match c query order_by >>= replace_found c repl

  -- Update with the documents that it found.
  unfoldable pub update_found :
      Collection B → Fields → List Fields → List Doc → Result (Outcome × Collection B)
  unfolding update_list check_ids place changes_of add_all_to_indexes remove_all_from_indexes
      replace_documents
  update_found c change filters [] = ok (no_outcome, c)
  update_found c change filters (d ∷ ds) =
      update_list w.numerics w.arithmetic w.clock w.schema (contents (d ∷ ds)) change false filters
      >>= λ changed. check_ids changed (d ∷ ds) >>= λ _.
          let new = place w.fresh 0 changed in
          remove_all_from_indexes w.numerics w.schema c.indexes (d ∷ ds) >>= λ is.
          add_all_to_indexes w.numerics w.schema is new >>= λ is'.
          replace_documents (record c { indexes = is' }) (d ∷ ds) new >>= λ c'.
          ok (
            record no_outcome { matched = d ∷ ds; modified = new; changes = changes_of changed },
            c',
          )

  unfoldable pub update :
      Collection B
      → Fields
      → Fields
      → Fields
      → ℕ
      → ℤ
      → List Fields
      → Result (Outcome × Collection B)
  unfolding select_documents update_found
  update c query change order_by skip limit filters =
      select_documents c query order_by skip limit >>= update_found c change filters

  unfoldable pub upsert :
      Collection B
      → Fields
      → Option Fields
      → Option Fields
      → List Fields
      → Result (Outcome × Collection B)
  unfolding upsert_document ensure_id store
  upsert c query repl change filters = upsert_document w query repl change filters >>= λ d.
      ensure_id w.object_id d >>= λ content.
      let d' : Doc = record { address = w.fresh 0; content = content } in
      store w.numerics w.schema c d' >>= λ c'. ok (record no_outcome { upserted = some d' }, c')

  unfoldable pub delete : Collection B → Fields → Fields → ℕ → ℤ → Result (Outcome × Collection B)
  unfolding select_documents remove_all_from_indexes remove_documents
  delete c query order_by skip limit = select_documents c query order_by skip limit >>= λ list.
      remove_all_from_indexes w.numerics w.schema c.indexes list >>= λ is.
      remove_documents (record c { indexes = is }) list >>= λ c'.
      ok (record no_outcome { matched = list }, c')

  -- An index has the key of the configuration.
  unfoldable pub same_key_index : List (Text × Index B) → Fields → Option Text
  unfolding compare
  same_key_index [] key = none
  same_key_index ((n, i) ∷ is) key =
      let rest = same_key_index is key in
      if is_eq (compare w.numerics (doc key) (doc i.config.key)) then some n else rest

  -- There is an index of the name with an equal configuration.
  unfoldable pub has_equal : Collection B → Text → IndexConfig → Bool
  unfolding index_at equal
  has_equal c name config = elim (index_at c.indexes name) [
    | none ↦ false
    | some i ↦ equal w.numerics config i.config
  ]

  -- CreateIndex of a collection, once there is a name, by the index that has the key.
  unfoldable pub create_named :
      Collection B → IndexConfig → Text → Option Text → Result (Text × Collection B)
  unfolding create_index set_index I.build
  create_named c config name (some n) = fail (same_index_key n)
  create_named c config name none = create_index B w.numerics config >>= λ i.
      I.build w.numerics w.schema i (docs c) >>= λ (done, i').
      if done
      then ok (name, record c { indexes = set_index c.indexes name i' })
      else fail (duplicate_document name)

  unfoldable pub create : Collection B → Text → IndexConfig → Result (Text × Collection B)
  unfolding effective_name has_equal same_key_index create_named
  create c given config = effective_name w given config >>= λ name.
      if has_equal c name config
      then ok (name, c)
      else create_named c config name (same_key_index c.indexes config.key)
