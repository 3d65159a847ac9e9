-- ===== src/Transaction.antt =====
-- transaction.go: the writes to one document list, and Create, Replace, Update and Delete. A call
-- runs under the lock of its transaction. One that fails has not yet written the transaction, so
-- it answers its error only, and the caller keeps the transaction.
pub mod Batch
pub mod Maintain
pub mod Keeps
pub mod Appends
pub mod Local
pub mod Loops
pub mod Drops
pub mod Calls
pub mod Invariant
pub mod Dirty
pub mod Refused
use lungo.Base.{
  ℕ, ◌+◌, Bool, true, false, not, ◌&&◌, ◌||◌, List, [], ◌∷◌, Option, none, some, if◌then◌else◌,
  codes, ℤ, Result, ok, fail, ◌>>=◌,
}
use lungo.Bsonkit.Value.{Fields}
use lungo.Bsonkit.Sort.{Doc}
use lungo.Bsonkit.Index.{Btree}
use lungo.Mongokit.Collection.{Collection, Outcome, no_outcome, new_collection}
use lungo.Mongokit.Collection.Operations as Op
use lungo.Mongokit.Collection.Operations.{World}
use lungo.Catalog.{
  Handle, Catalog, oplog_handle, check_access, namespace_at, set_namespace, or_new, or_panic,
}
use lungo.Oplog.{Stamps, Log, append_first, append_deletes, append_updates}

pub record Transaction (B : Btree) : Type 0 where
  pub catalog : Catalog B
  pub dirty : Bool

abbrev pub new_transaction : {B : Btree} → Catalog B → Transaction B
new_transaction c = record { catalog = c; dirty = false }

-- What one of insert, replace, update and delete leaves: its outcome, the namespace and the oplog.
pub record Attempt (B : Btree) : Type 0 where
  pub outcome : Outcome
  pub namespace : Collection B
  pub log : Log B

abbrev pub is_nonempty {ℓ} : {A : Type ℓ} → List A → Bool
is_nonempty [] = false
is_nonempty (x ∷ xs) = true

abbrev pub is_some {ℓ} : {A : Type ℓ} → Option A → Bool
is_some none = false
is_some (some x) = true

abbrev pub to_list {ℓ} : {A : Type ℓ} → Option A → List A
to_list none = []
to_list (some x) = x ∷ []

module _ {B : Btree} (w : World) (s : Stamps) (handle : Handle) where
  unfoldable pub insert_one : Collection B → Log B → Doc → Result (Attempt B)
  unfolding Op.insert append_first
  insert_one namespace log d = Op.insert w namespace d >>= λ (o, namespace').
      append_first w s handle log (codes "insert") o.modified >>= λ log'.
      ok (record { outcome = o; namespace = namespace'; log = log' })

  -- The upsert of replace and update.
  unfoldable pub upsert_one :
      Collection B
      → Log B
      → Fields
      → Option Fields
      → Option Fields
      → List Fields
      → Result (Attempt B)
  unfolding Op.upsert append_first
  upsert_one namespace log query repl change filters =
      Op.upsert w namespace query repl change filters >>= λ (o, namespace').
      append_first w s handle log (codes "insert") (to_list o.upserted) >>= λ log'.
      ok (record { outcome = o; namespace = namespace'; log = log' })

  -- The end of replace and update, by whether documents have been written or an upsert follows.
  unfoldable pub replace_end : Log B → Outcome × Collection B → Result (Attempt B)
  unfolding append_first
  replace_end log (o, namespace) =
      append_first w s handle log (codes "replace") o.modified >>= λ log'.
      ok (record { outcome = o; namespace = namespace; log = log' })

  unfoldable pub update_end : Log B → Outcome × Collection B → Result (Attempt B)
  unfolding append_updates
  update_end log (o, namespace) = append_updates w s handle log o.modified o.changes >>= λ log'.
      ok (record { outcome = o; namespace = namespace; log = log' })

  unfoldable pub replace_one :
      Collection B → Log B → Fields → Doc → Fields → Bool → Result (Attempt B)
  unfolding Op.replace upsert_one replace_end
  replace_one namespace log query repl order_by upsert =
      Op.replace w namespace query repl order_by >>= λ (o, namespace').
      if not (is_nonempty o.modified) && upsert
      then upsert_one namespace' log query (some repl.content) none []
      else replace_end log (o, namespace')

  unfoldable pub update_some :
      Collection B
      → Log B
      → Fields
      → Fields
      → Fields
      → Bool
      → ℕ
      → ℤ
      → List Fields
      → Result (Attempt B)
  unfolding Op.update upsert_one update_end
  update_some namespace log query change order_by upsert skip limit filters =
      Op.update w namespace query change order_by skip limit filters >>= λ (o, namespace').
      if not (is_nonempty o.modified) && upsert
      then upsert_one namespace' log query none (some change) filters
      else update_end log (o, namespace')

  unfoldable pub delete_some : Collection B → Log B → Fields → Fields → ℕ → ℤ → Result (Attempt B)
  unfolding Op.delete append_deletes
  delete_some namespace log query order_by skip limit =
      Op.delete w namespace query order_by skip limit >>= λ (o, namespace').
      append_deletes w s handle log o.matched >>= λ log'.
      ok (record { outcome = o; namespace = namespace'; log = log' })

module _ {B : Btree} where
  -- The clone of the catalog with its new namespace and oplog.
  unfoldable pub commit : Transaction B → Handle → Collection B → Collection B → Transaction B
  unfolding set_namespace
  commit t handle namespace oplog = record {
    catalog = record {
      namespaces =
          set_namespace (set_namespace t.catalog.namespaces handle namespace) oplog_handle oplog;
    };
    dirty = true;
  }

  -- The catalog is set only if there are changes.
  unfoldable pub commit_if :
      Bool → Transaction B → Handle → Collection B → Collection B → Transaction B
  unfolding commit
  commit_if changed t handle namespace oplog =
      if changed then commit t handle namespace oplog else t

abbrev pub has_written : Outcome → Bool
has_written o = is_nonempty o.modified || is_some o.upserted

module _ {B : Btree} (w : World) (t : Transaction B) (handle : Handle) where
  unfoldable pub create_namespace : Option (Collection B) → Result (Transaction B)
  unfolding new_collection set_namespace
  create_namespace (some c) = ok t
  create_namespace none = new_collection B w.numerics true >>= λ c. ok (record {
    catalog = record { namespaces = set_namespace t.catalog.namespaces handle c };
    dirty = true;
  })

  unfoldable pub create : Result (Transaction B)
  unfolding check_access create_namespace namespace_at
  create =
      check_access handle true >>= λ _. create_namespace (namespace_at t.catalog.namespaces handle)

  -- What Replace, Update and Delete share: without a namespace they do nothing, or create it for
  -- an upsert; the run works on the namespace and the oplog.
  unfoldable pub edit :
      Bool
      → (Collection B → Log B → Result (Attempt B))
      → (Outcome → Bool)
      → Result (Outcome × Transaction B)
  unfolding check_access namespace_at or_new or_panic commit_if
  edit upsert run changed = check_access handle true >>= λ _.
      let found = namespace_at t.catalog.namespaces handle in
      if not (is_some found) && not upsert
      then ok (no_outcome, t)
      else (or_new w.numerics found >>= λ namespace.
          or_panic (namespace_at t.catalog.namespaces oplog_handle) >>= λ oplog.
          run namespace (oplog, 0) >>= λ a.
          ok (a.outcome, commit_if (changed a.outcome) t handle a.namespace a.log.0))

  module _ (s : Stamps) where
    unfoldable pub replace : Fields → Fields → Doc → Bool → Result (Outcome × Transaction B)
    unfolding edit replace_one
    replace query order_by repl upsert =
        edit upsert (λ c log. replace_one w s handle c log query repl order_by upsert) has_written

    unfoldable pub update :
        Fields → Fields → Fields → ℕ → ℤ → Bool → List Fields → Result (Outcome × Transaction B)
    unfolding edit update_some
    update query order_by change skip limit upsert filters =
        edit upsert
          (λ c log. update_some w s handle c log query change order_by upsert skip limit filters)
          has_written

    unfoldable pub delete : Fields → Fields → ℕ → ℤ → Result (Outcome × Transaction B)
    unfolding edit delete_some
    delete query order_by skip limit =
        edit false (λ c log. delete_some w s handle c log query order_by skip limit)
          (λ o. is_nonempty o.matched)
