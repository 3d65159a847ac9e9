-- ===== src/Transaction/Loops.antt =====
-- transaction.go: the loops of Insert and Bulk keep predicates on the namespace and the oplog.
use lungo.Base.{
  ℕ, suc, ◌≡◌, refl, subst, ◌∙◌, Bool, List, [], ◌∷◌, panic, Result, ok, fail, bind-ok,
  ok_injective, ite_ok,
}
use lungo.Bsonkit.Sort.{Doc}
use lungo.Bsonkit.Index.{Btree}
use lungo.Mongokit.Collection.{Collection}
use lungo.Mongokit.Collection.Operations.{World, Moment, at}
use lungo.Catalog.{Handle}
use lungo.Oplog.{Stamps, Log}
use lungo.Transaction.{Attempt, insert_one}
use lungo.Transaction.Batch.{
  Opcode, insert_code, replace_code, update_code, delete_code, other_code, Operation, Progress,
  inserted_next, insert_from, run_operation, operation_next, bulk_from,
}
use lungo.Transaction.Keeps.{
  Keeps, insert_one-Kept, replace_one-Kept, update_some-Kept, delete_some-Kept,
}

module _ {B : Btree} (w : World) (s : Stamps) (moments : ℕ → Moment) (handle : Handle)
    (P Q : Collection B → Type 0) (K : (m : Moment) → Keeps (at w m) P Q) where
  abbrev pub Good : Progress B → Type 0
  Good p = P p.namespace × Q p.log.0

  inserted_next-Good :
      (ordered : Bool) (next : Progress B → Result (Progress B)) (p p' : Progress B)
      (r : Result (Attempt B))
      → inserted_next w s moments handle ordered next p r ≡ ok p'
      → ((q : Progress B) → next q ≡ ok p' → Good q → Good p')
      → ((a : Attempt B) → r ≡ ok a → P a.namespace × Q a.log.0)
      → Good p
      → Good p'
  unfolding inserted_next
  inserted_next-Good ordered next p p' (ok a) h rest run g = rest _ h (run a refl)
  inserted_next-Good ordered next p p' (fail panic) h rest run g = cc
  inserted_next-Good ordered next p p' (fail e) h rest run g =
      ite_ok ordered _ _ p' h (λ k. subst (λ (q : Progress B). Good q) (ok_injective k) g)
        (λ k. rest _ k g)

  pub insert_from-Good :
      (ordered : Bool) (i : ℕ) (ds : List Doc) (p p' : Progress B)
      → insert_from w s moments handle ordered i ds p ≡ ok p'
      → Good p
      → Good p'
  unfolding insert_from
  insert_from-Good ordered i [] p p' h g = subst (λ (q : Progress B). Good q) (ok_injective h) g
  insert_from-Good ordered i (d ∷ ds) p p' h (n, l) =
      let v = at w (moments i) in
      inserted_next-Good ordered (insert_from w s moments handle ordered (suc i) ds) p p'
        (insert_one v s handle p.namespace p.log d) h
        (λ q k g. insert_from-Good ordered (suc i) ds q p' k g)
        (λ a e. insert_one-Kept v s handle P Q (K (moments i)) p.namespace p.log d a e n l) (n, l)

  run_operation-Kept :
      (m : Moment) (c : Collection B) (log : Log B) (op : Operation) (code : Opcode)
      (r : Result (Attempt B)) (a : Attempt B)
      → run_operation w s moments handle (at w m) c log op code ≡ ok r
      → r ≡ ok a
      → P c
      → Q log.0
      → P a.namespace × Q a.log.0
  unfolding run_operation
  run_operation-Kept m c log op insert_code r a h e p q =
      insert_one-Kept (at w m) s handle P Q (K m) c log op.document a (ok_injective h ∙ e) p q
  run_operation-Kept m c log op replace_code r a h e p q =
      replace_one-Kept (at w m) s handle P Q (K m) c log op.filter op.document op.order_by op.upsert
        a (ok_injective h ∙ e) p q
  run_operation-Kept m c log op update_code r a h e p q =
      update_some-Kept (at w m) s handle P Q (K m) c log op.filter op.document.content op.order_by
        op.upsert op.skip op.limit op.array_filters a (ok_injective h ∙ e) p q
  run_operation-Kept m c log op delete_code r a h e p q =
      delete_some-Kept (at w m) s handle P Q (K m) c log op.filter op.order_by op.skip op.limit a
        (ok_injective h ∙ e) p q
  run_operation-Kept m c log op other_code r a h e p q = cc

  operation_next-Good :
      (ordered : Bool) (next : Progress B → Result (Progress B)) (p p' : Progress B) (code : Opcode)
      (r : Result (Attempt B))
      → operation_next w s moments handle ordered next p code r ≡ ok p'
      → ((q : Progress B) → next q ≡ ok p' → Good q → Good p')
      → ((a : Attempt B) → r ≡ ok a → P a.namespace × Q a.log.0)
      → Good p
      → Good p'
  unfolding operation_next
  operation_next-Good ordered next p p' code (ok a) h rest run g = rest _ h (run a refl)
  operation_next-Good ordered next p p' code (fail panic) h rest run g = cc
  operation_next-Good ordered next p p' code (fail e) h rest run g =
      ite_ok ordered _ _ p' h (λ k. subst (λ (q : Progress B). Good q) (ok_injective k) g)
        (λ k. rest _ k g)

  pub bulk_from-Good :
      (ordered : Bool) (i : ℕ) (ops : List Operation) (p p' : Progress B)
      → bulk_from w s moments handle ordered i ops p ≡ ok p'
      → Good p
      → Good p'
  unfolding bulk_from
  bulk_from-Good ordered i [] p p' h g = subst (λ (q : Progress B). Good q) (ok_injective h) g
  bulk_from-Good ordered i (op ∷ ops) p p' h (n, l) =
      let v = at w (moments i) in
      let (r, e, k) =
        bind-ok (run_operation w s moments handle v p.namespace p.log op op.opcode) _ p' h in
      operation_next-Good ordered (bulk_from w s moments handle ordered (suc i) ops) p p' op.opcode
        r k (λ q k' g. bulk_from-Good ordered (suc i) ops q p' k' g)
        (λ a e'. run_operation-Kept (moments i) p.namespace p.log op op.opcode r a e e' n l) (n, l)
