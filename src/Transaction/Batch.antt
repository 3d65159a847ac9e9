-- ===== src/Transaction/Batch.antt =====
-- transaction.go: Insert and Bulk. Every operation works on clones of the namespace and the oplog,
-- which it replaces if it succeeds. A panic ends the call.
use lungo.Base.{
  ℕ, suc, ◌+◌, Bool, true, List, [], ◌∷◌, ◌++◌, Option, none, some, if◌then◌else◌, ltb, length, ℤ,
  Failure, panic, unsupported_opcode, Result, ok, fail, ◌>>=◌,
}
use lungo.Bsonkit.Value.{Fields}
use lungo.Bsonkit.Sort.{Doc}
use lungo.Bsonkit.Index.{Btree}
use lungo.Mongokit.Collection.{Collection, Outcome}
use lungo.Mongokit.Collection.Operations.{World, Moment, at}
use lungo.Catalog.{Handle, oplog_handle, check_access, namespace_at, or_new, or_panic}
use lungo.Oplog.{Stamps, Log}
use lungo.Transaction.{
  Transaction, Attempt, is_nonempty, is_some, insert_one, replace_one, update_some, delete_some,
  commit_if,
}

-- The constants, and any other number.
pub data Opcode : Type 0 where
  insert_code : Opcode
  replace_code : Opcode
  update_code : Opcode
  delete_code : Opcode
  other_code : Opcode

pub record Operation : Type 0 where
  pub opcode : Opcode
  pub filter : Fields
  pub document : Doc
  pub order_by : Fields
  pub upsert : Bool
  pub skip : ℕ
  pub limit : ℤ
  pub array_filters : List Fields

-- The variables of the loops: the namespace and the oplog of the clone, the results, the error of
-- Insert, and the changes that Bulk counts.
pub record Progress (B : Btree) : Type 0 where
  pub namespace : Collection B
  pub log : Log B
  pub inserted : List Doc
  pub error : Option Failure
  pub results : List (Result Outcome)
  pub changes : ℕ

abbrev pub started : {B : Btree} → Collection B → Collection B → Progress B
started namespace oplog = record {
  namespace = namespace;
  log = (oplog, 0);
  inserted = [];
  error = none;
  results = [];
  changes = 0;
}

abbrev pub first_error : Option Failure → Failure → Option Failure
first_error none e = some e
first_error (some e') e = some e'

-- The changes of one operation.
abbrev pub count_changes : Opcode → Outcome → ℕ
count_changes delete_code o =
    length o.modified + (if is_some o.upserted then 1 else length o.matched)
count_changes code o = length o.modified + (if is_some o.upserted then 1 else 0)

module _ {B : Btree} (w : World) (s : Stamps) (moments : ℕ → Moment) (handle : Handle) where
  -- What follows an insert: the next document, or the end if the list is ordered.
  unfoldable pub inserted_next :
      Bool
      → (Progress B → Result (Progress B))
      → Progress B
      → Result (Attempt B)
      → Result (Progress B)
  inserted_next ordered next p (ok a) = next (record p {
    namespace = a.namespace;
    log = a.log;
    inserted = p.inserted ++ a.outcome.modified;
  })
  inserted_next ordered next p (fail panic) = fail panic
  inserted_next ordered next p (fail e) =
      let p' = record p { error = first_error p.error e } in if ordered then ok p' else next p'

  unfoldable pub insert_from : Bool → ℕ → List Doc → Progress B → Result (Progress B)
  unfolding insert_one inserted_next
  insert_from ordered i [] p = ok p
  insert_from ordered i (d ∷ ds) p =
      inserted_next ordered (insert_from ordered (suc i) ds) p
        (insert_one (at w (moments i)) s handle p.namespace p.log d)

  unfoldable pub insert :
      Transaction B → List Doc → Bool → Result ((List Doc × Option Failure) × Transaction B)
  unfolding check_access namespace_at or_new or_panic insert_from commit_if
  insert t [] ordered = check_access handle true >>= λ _. ok (([], none), t)
  insert t (d ∷ ds) ordered = check_access handle true >>= λ _.
      or_new w.numerics (namespace_at t.catalog.namespaces handle) >>= λ namespace.
      or_panic (namespace_at t.catalog.namespaces oplog_handle) >>= λ oplog.
      insert_from ordered 0 (d ∷ ds) (started namespace oplog) >>= λ p.
      ok ((p.inserted, p.error), commit_if (is_nonempty p.inserted) t handle p.namespace p.log.0)

  -- The switch over the opcode. The outer failure ends the call.
  unfoldable pub run_operation :
      World → Collection B → Log B → Operation → Opcode → Result (Result (Attempt B))
  unfolding insert_one replace_one update_some delete_some
  run_operation v c log op insert_code = ok (insert_one v s handle c log op.document)
  run_operation v c log op replace_code =
      ok (replace_one v s handle c log op.filter op.document op.order_by op.upsert)
  run_operation v c log op update_code = ok (
      update_some v s handle c log op.filter op.document.content op.order_by op.upsert op.skip
        op.limit op.array_filters)
  run_operation v c log op delete_code =
      ok (delete_some v s handle c log op.filter op.order_by op.skip op.limit)
  run_operation v c log op other_code = fail unsupported_opcode

  unfoldable pub operation_next :
      Bool
      → (Progress B → Result (Progress B))
      → Progress B
      → Opcode
      → Result (Attempt B)
      → Result (Progress B)
  operation_next ordered next p code (ok a) = next (record p {
    namespace = a.namespace;
    log = a.log;
    results = p.results ++ ok a.outcome ∷ [];
    changes = p.changes + count_changes code a.outcome;
  })
  operation_next ordered next p code (fail panic) = fail panic
  operation_next ordered next p code (fail e) =
      let p' = record p { results = p.results ++ fail e ∷ [] } in if ordered then ok p' else next p'

  unfoldable pub bulk_from : Bool → ℕ → List Operation → Progress B → Result (Progress B)
  unfolding run_operation operation_next
  bulk_from ordered i [] p = ok p
  bulk_from ordered i (op ∷ ops) p =
      let next = bulk_from ordered (suc i) ops in
      run_operation (at w (moments i)) p.namespace p.log op op.opcode >>= λ r.
      operation_next ordered next p op.opcode r

  unfoldable pub bulk :
      Transaction B → List Operation → Bool → Result (List (Result Outcome) × Transaction B)
  unfolding check_access namespace_at or_new or_panic bulk_from commit_if
  bulk t [] ordered = check_access handle true >>= λ _. ok ([], t)
  bulk t (op ∷ ops) ordered = check_access handle true >>= λ _.
      or_new w.numerics (namespace_at t.catalog.namespaces handle) >>= λ namespace.
      or_panic (namespace_at t.catalog.namespaces oplog_handle) >>= λ oplog.
      bulk_from ordered 0 (op ∷ ops) (started namespace oplog) >>= λ p.
      ok (p.results, commit_if (ltb 0 p.changes) t handle p.namespace p.log.0)
