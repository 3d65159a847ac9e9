-- ===== src/Transaction/Maintain.antt =====
-- transaction.go: Find, Drop, CreateIndex, DropIndex, CountDocuments, Clean and Expire.
use lungo.Base.{
  ℕ, zero, suc, ◌+◌, Bool, true, false, ◌&&◌, ◌||◌, List, [], ◌∷◌, ◌++◌, Option, none, some,
  if◌then◌else◌, ltb, ltb_ℤ, length, drop, Text, text_eq, codes, ℤ, pos, is_lt, missing_namespace,
  panic, Result, ok, fail, ◌>>=◌,
}
use lungo.Bsonkit.Value.{Fields, Value, doc, array, Items, empty, item, end, field}
use lungo.Bsonkit.Compare.{compare}
use lungo.Bsonkit.Access.{get_path}
use lungo.Bsonkit.Sort.{Doc}
use lungo.Bsonkit.Index.{Btree}
use lungo.Bsonkit.Set as S
use lungo.Mongokit.Index.{Index, IndexConfig}
use lungo.Mongokit.Collection.{Collection}
use lungo.Mongokit.Collection.Operations as Op
use lungo.Mongokit.Collection.Operations.{World}
use lungo.Catalog.{
  Handle, handle_eq, handle_text, oplog_handle, check_access, validate, namespace_at, set_namespace,
  or_new, or_panic,
}
use lungo.Oplog.{Stamps, Log, append}
use lungo.Transaction.{Transaction, is_nonempty, delete_some}

module _ {B : Btree} (w : World) (s : Stamps) where
  -- The loop of Drop: the namespaces that are kept, and an event for each that is not.
  unfoldable pub drop_from :
      Handle → List (Handle × Collection B) → Log B → Result (List (Handle × Collection B) × Log B)
  unfolding append text_eq
  drop_from handle [] log = ok ([], log)
  drop_from handle ((h, c) ∷ ns) log =
      if handle_eq h handle || (text_eq handle.1 [] && text_eq h.0 handle.0)
      then append w s h log (codes "drop") none none >>= drop_from handle ns
      else drop_from handle ns log >>= λ (kept, log'). ok ((h, c) ∷ kept, log')

  -- The event for a database, if namespaces of it are dropped.
  unfoldable pub drop_database : Handle → Log B → Result (Log B)
  unfolding append
  drop_database (d, b ∷ c) log = ok log
  drop_database (d, []) (oplog, zero) = ok (oplog, zero)
  drop_database (d, []) (oplog, suc n) =
      append w s (d, []) (oplog, suc n) (codes "dropDatabase") none none

  unfoldable pub drop_namespaces : Transaction B → Handle → Result (Transaction B)
  unfolding check_access namespace_at or_panic drop_from drop_database set_namespace
  drop_namespaces t handle = check_access handle false >>= λ _.
      or_panic (namespace_at t.catalog.namespaces oplog_handle) >>= λ oplog.
      drop_from handle t.catalog.namespaces (oplog, 0) >>= λ (kept, log).
      drop_database handle log >>= λ log'. ok (
        if ltb 0 log.1
        then record {
          catalog = record { namespaces = set_namespace kept oplog_handle log'.0 };
          dirty = true;
        }
        else t)

module _ {B : Btree} (w : World) (t : Transaction B) (handle : Handle) where
  unfoldable pub create_index : Text → IndexConfig → Result (Text × Transaction B)
  unfolding check_access namespace_at or_new set_namespace Op.create
  create_index name config = check_access handle true >>= λ _.
      or_new w.numerics (namespace_at t.catalog.namespaces handle) >>= λ c.
      Op.create w c name config >>= λ (name', c'). ok (
        name',
        record {
          catalog = record { namespaces = set_namespace t.catalog.namespaces handle c' };
          dirty = true;
        },
      )

module _ {B : Btree} (t : Transaction B) (handle : Handle) where
  unfoldable pub drop_index_of : Text → Option (Collection B) → Result (Transaction B)
  unfolding set_namespace Op.drop_index
  drop_index_of name none = fail (missing_namespace (handle_text handle))
  drop_index_of name (some c) = Op.drop_index c name >>= λ (dropped, c'). ok (
      if is_nonempty dropped
      then record {
        catalog = record { namespaces = set_namespace t.catalog.namespaces handle c' };
        dirty = true;
      }
      else t)

  unfoldable pub drop_index : Text → Result (Transaction B)
  unfolding check_access namespace_at drop_index_of
  drop_index name = check_access handle true >>= λ _.
      drop_index_of name (namespace_at t.catalog.namespaces handle)

  unfoldable pub count_documents : Result ℕ
  unfolding validate namespace_at
  count_documents = validate handle true >>= λ _. elim (namespace_at t.catalog.namespaces handle) [
    | none ↦ ok 0
    | some c ↦ ok (length c.documents.list)
  ]

module _ {B : Btree} (w : World) (t : Transaction B) (handle : Handle) where
  -- Find: without a namespace there are no documents.
  unfoldable pub find_documents : Fields → Fields → ℕ → ℤ → Result (List Doc)
  unfolding validate namespace_at Op.select_documents
  find_documents query order_by skip limit = validate handle true >>= λ _.
      elim (namespace_at t.catalog.namespaces handle) [
        | none ↦ ok []
        | some c ↦ Op.select_documents w c query order_by skip limit
      ]

-- The bounds of Clean: the sizes, and the timestamps that are the least and the largest age ago.
pub record Bounds : Type 0 where
  pub min_size : ℕ
  pub max_size : ℕ
  pub min_timestamp : Value
  pub max_timestamp : Value

-- Remove moves the documents behind the removed one in the array that the loop reads.
abbrev shifted : List ℕ → List ℕ → List ℕ
shifted list cells = list ++ drop (length list) cells

abbrev cell : List ℕ → ℕ → Result ℕ
cell [] i = fail panic
cell (a ∷ cells) zero = ok a
cell (a ∷ cells) (suc i) = cell cells i

module _ {B : Btree} (w : World) where
  abbrev is_due : Bounds → Collection B → ℕ → ℕ → ℕ → Bool
  is_due b c size i a =
      let ts = get_path (c.content a) (codes "_id.ts") in
      (ltb (i + b.min_size) size && is_lt (compare w.numerics ts b.min_timestamp))
      && (ltb (i + b.max_size) size || is_lt (compare w.numerics ts b.max_timestamp))

  -- The loop of Clean over the positions of the array from `i` on, with the events it has dropped.
  unfoldable pub clean_from : Bounds → ℕ → List ℕ → Collection B → ℕ → ℕ → Result (Collection B × ℕ)
  unfolding S.remove get_path compare
  clean_from b size cells c i zero = ok (c, 0)
  clean_from b size cells c i (suc n) = cell cells i >>= λ a.
      if is_due b c size i a
      then (let s' = (S.remove c.documents a).0 in
          clean_from b size (shifted s'.list cells) (record c { documents = s' }) (suc i) n
          >>= λ (c', dropped). ok (c', suc dropped))
      else ok (c, 0)

  unfoldable pub clean : Transaction B → Bounds → Result (Transaction B)
  unfolding clean_from namespace_at or_panic set_namespace
  clean t b = or_panic (namespace_at t.catalog.namespaces oplog_handle) >>= λ oplog.
      let list = oplog.documents.list in
      clean_from b (length list) list oplog 0 (length list) >>= λ (oplog', dropped). ok (
        if ltb 0 dropped
        then record {
          catalog = record { namespaces = set_namespace t.catalog.namespaces oplog_handle oplog' };
          dirty = true;
        }
        else t)

  -- The conditions of the expiring indexes. The time that lies an expiry ago is an argument.
  unfoldable pub conditions : (ℤ → Value) → List (Text × Index B) → Result Items
  conditions ago [] = ok empty
  conditions ago ((name, i) ∷ is) =
      let rest = conditions ago is in
      if ltb_ℤ (pos 0) i.config.expiry
      then elim i.config.key [
        | end ↦ fail panic
        | field k _ _ ↦ rest >>= λ cs.
            ok (item (doc (field k (doc (field (codes "$lt") (ago i.config.expiry) end)) end)) cs)
      ]
      else rest

  -- A namespace of Expire, by its conditions: the namespace, the log and the number of deletions.
  unfoldable pub expire_one :
      Stamps → Handle → Collection B → Log B → Items → Result ((Collection B × Log B) × ℕ)
  unfolding delete_some
  expire_one s handle c log empty = ok ((c, log), 0)
  expire_one s handle c log (item v vs) =
      delete_some w s handle c log (field (codes "$or") (array (item v vs)) end) end 0 (pos 0)
      >>= λ a. ok ((a.namespace, a.log), length a.outcome.matched)

  unfoldable pub expire_from :
      Stamps
      → (ℤ → Value)
      → List (Handle × Collection B)
      → Log B
      → Result ((List (Handle × Collection B) × Log B) × ℕ)
  unfolding conditions expire_one
  expire_from s ago [] log = ok (([], log), 0)
  expire_from s ago ((h, c) ∷ ns) log = conditions ago c.indexes >>= λ cs.
      expire_one s h c log cs >>= λ ((c', log'), n).
      expire_from s ago ns log' >>= λ ((ns', log''), m). ok (((h, c') ∷ ns', log''), n + m)

  unfoldable pub expire : Transaction B → Stamps → (ℤ → Value) → Result (Transaction B)
  unfolding expire_from namespace_at or_panic set_namespace
  expire t s ago = or_panic (namespace_at t.catalog.namespaces oplog_handle) >>= λ oplog.
      expire_from s ago t.catalog.namespaces (oplog, 0) >>= λ ((ns, log), deletions). ok (
        if ltb 0 deletions
        then record {
          catalog = record { namespaces = set_namespace ns oplog_handle log.0 };
          dirty = true;
        }
        else t)
