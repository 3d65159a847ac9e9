-- ===== src/Oplog.antt =====
-- The method append of transaction.go, which writes the oplog, and the conversion of its events
-- (bsonkit/convert.go).
pub mod Events
use lungo.Base.{
  ℕ, suc, Bool, ◌||◌, List, [], ◌∷◌, Option, none, some, if◌then◌else◌, Text, text_eq, compare_text,
  is_lt, codes, Result, ok, fail, ◌>>=◌, panic,
}
use lungo.Bsonkit.Value.{
  Value, missing, string, doc, array, Items, empty, item, Fields, end, field, is_missing,
}
use lungo.Bsonkit.Access.{get_path}
use lungo.Bsonkit.Sort.{Doc}
use lungo.Bsonkit.Index.{Btree}
use lungo.Mongokit.Apply.{Changes}
use lungo.Mongokit.Collection.{Collection}
use lungo.Mongokit.Collection.Operations.{World, insert}
use lungo.Catalog.{Handle}

-- ConvertValue of a value: every type of a document is its own conversion, but Missing is none.
unfoldable mutual
  pub convert_value : Value → Result Value
  convert_value missing = fail panic
  convert_value (doc fs) = convert_fields fs >>= λ fs'. ok (doc fs')
  convert_value (array xs) = convert_items xs >>= λ xs'. ok (array xs')
  convert_value v = ok v

  pub convert_fields : Fields → Result Fields
  convert_fields end = ok end
  convert_fields (field k v fs) =
      convert_value v >>= λ v'. convert_fields fs >>= λ fs'. ok (field k v' fs')

  pub convert_items : Items → Result Items
  convert_items empty = ok empty
  convert_items (item v xs) = convert_value v >>= λ v'. convert_items xs >>= λ xs'. ok (item v' xs')

-- A field at its place in the order of the keys, as convertMap sorts the entries of a map.
unfoldable pub insert_sorted : Text → Value → Fields → Fields
unfolding compare_text
insert_sorted k v end = field k v end
insert_sorted k v (field l w fs) =
    let rest = insert_sorted k v fs in
    if is_lt (compare_text k l) then field k v (field l w fs) else field l w rest

unfoldable pub updated_fields : List (Text × Value) → Fields
unfolding insert_sorted
updated_fields [] = end
updated_fields ((path, v) ∷ changed) =
    let rest = updated_fields changed in if is_missing v then rest else insert_sorted path v rest

unfoldable pub removed_fields : List (Text × Value) → Items
removed_fields [] = empty
removed_fields ((path, v) ∷ changed) =
    let rest = removed_fields changed in if is_missing v then item (string path) rest else rest

abbrev pub namespace_fields : Handle → Fields
namespace_fields (d, []) = field (codes "db") (string d) end
namespace_fields (d, b ∷ c) =
    field (codes "coll") (string (b ∷ c)) (field (codes "db") (string d) end)

abbrev description : Option Changes → Fields
description none = end
description (some c) =
    field (codes "updateDescription")
      (doc (
        field (codes "removedFields") (array (removed_fields c.changed)) (
          field (codes "truncatedArrays") (array empty)
            (field (codes "updatedFields") (doc (updated_fields c.changed)) end))))
      end

-- What follows the document in the order of the keys.
abbrev pub event_end : Handle → Text → Option Changes → Fields
event_end handle op changes =
    field (codes "ns") (doc (namespace_fields handle))
      (field (codes "operationType") (string op) (description changes))

abbrev pub has_document : Text → Bool
has_document op =
    text_eq op (codes "insert") || text_eq op (codes "replace") || text_eq op (codes "update")

abbrev document_fields : Text → Option Doc → Fields → Fields
document_fields op none rest = rest
document_fields op (some d) rest =
    field (codes "documentKey") (doc (field (codes "_id") (get_path d.content (codes "_id")) end))
      (if has_document op then field (codes "fullDocument") (doc d.content) rest else rest)

-- The event, its keys in order.
unfoldable pub event : Value → Handle → Text → Option Doc → Option Changes → Result Fields
unfolding convert_fields get_path text_eq removed_fields updated_fields
event now handle op d changes = convert_fields (
    field (codes "_id") (doc (field (codes "ts") now end))
      (field (codes "clusterTime") now (document_fields op d (event_end handle op changes))))

-- The timestamps and addresses of the events that a call writes.
pub record Stamps : Type 0 where
  pub now : ℕ → Value
  pub event_address : ℕ → ℕ

-- A collection as the oplog, with the number of events that the call has written.
abbrev pub Log : Btree → Type 0
Log B = Collection B × ℕ

module _ {B : Btree} (w : World) (s : Stamps) (handle : Handle) where
  unfoldable pub append : Log B → Text → Option Doc → Option Changes → Result (Log B)
  unfolding event insert
  append (oplog, n) op d changes = event (s.now n) handle op d changes >>= λ content.
      insert w oplog (record { address = s.event_address n; content = content }) >>= λ (_, oplog').
      ok (oplog', suc n)

  -- The event of the first document, where there is one.
  unfoldable pub append_first : Log B → Text → List Doc → Result (Log B)
  unfolding append
  append_first log op [] = ok log
  append_first log op (d ∷ ds) = append log op (some d) none

  -- An event for each document.
  unfoldable pub append_deletes : Log B → List Doc → Result (Log B)
  unfolding append
  append_deletes log [] = ok log
  append_deletes log (d ∷ ds) =
      append log (codes "delete") (some d) none >>= λ log'. append_deletes log' ds

  unfoldable pub append_updates : Log B → List Doc → List Changes → Result (Log B)
  unfolding append
  append_updates log [] _ = ok log
  append_updates log (d ∷ ds) [] = fail panic
  append_updates log (d ∷ ds) (c ∷ cs) =
      append log (codes "update") (some d) (some c) >>= λ log'. append_updates log' ds cs
