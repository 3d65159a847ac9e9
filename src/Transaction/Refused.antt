-- ===== src/Transaction/Refused.antt =====
-- transaction.go: the calls that a transaction refuses for their handle.
use lungo.Base.{
  ◌≡◌, refl, Bool, true, false, ◌&&◌, [], ◌∷◌, Option, none, some, if◌then◌else◌, Text, text_eq,
  Failure, Result, ok, fail, missing_database, missing_collection, read_only, arith,
}
use lungo.Bsonkit.Index.{Btree}
use lungo.Mongokit.Collection.Operations.{World, at}
use lungo.Catalog.{Handle, local, validate, check_access}
use lungo.Transaction.{Transaction, create, edit, replace, update, delete}
use lungo.Transaction.Batch.{insert, bulk}
use lungo.Transaction.Maintain.{drop_namespaces, create_index, drop_index}
use lungo.Transaction.Calls.{
  Call, create_call, bulk_call, insert_call, replace_call, update_call, delete_call, drop_call,
  create_index_call, drop_index_call, Setting, perform,
}

abbrev pub target : Call → Handle
target (create_call h) = h
target (bulk_call h _ _) = h
target (insert_call h _ _) = h
target (replace_call h _ _ _ _) = h
target (update_call h _ _ _ _ _ _ _) = h
target (delete_call h _ _ _ _) = h
target (drop_call h) = h
target (create_index_call h _ _) = h
target (drop_index_call h _) = h

abbrev pub needs_collection : Call → Bool
needs_collection (drop_call h) = false
needs_collection c = true

abbrev is_empty : Text → Bool
is_empty [] = true
is_empty (b ∷ s) = false

-- The error of a handle, if it has one.
abbrev pub refusal : Handle → Bool → Option Failure
refusal h need =
    if is_empty h.0
    then some missing_database
    else if need && is_empty h.1
    then some missing_collection
    else if text_eq h.0 local
    then some read_only
    else none

check_access-refusal :
    (h : Handle) (need : Bool) (f : Failure)
    → refusal h need ≡ some f
    → check_access h need ≡ fail f
unfolding check_access validate
check_access-refusal ([], c) need f e = ground arith
check_access-refusal (b ∷ d, []) true f e = ground arith
check_access-refusal (b ∷ d, []) false f e = ground arith
check_access-refusal (b ∷ d, a ∷ c) true f e = ground arith
check_access-refusal (b ∷ d, a ∷ c) false f e = ground arith

abbrev second : {A C : Type 0} → Result (A × C) → Result C
second (ok (a, c)) = ok c
second (fail e) = fail e

module _ {B : Btree} (w : World) (t : Transaction B) (x : Setting) where
  -- What a call answers, without its documents.
  abbrev pub answer : Call → Result (Transaction B)
  answer (create_call h) = create (at w x.moment) t h
  answer (bulk_call h ops ordered) = second (bulk w x.stamps x.moments h t ops ordered)
  answer (insert_call h ds ordered) = second (insert w x.stamps x.moments h t ds ordered)
  answer (replace_call h query order_by repl upsert) =
      second (replace (at w x.moment) t h x.stamps query order_by repl upsert)
  answer (update_call h query order_by change skip limit upsert filters) =
      second (update (at w x.moment) t h x.stamps query order_by change skip limit upsert filters)
  answer (delete_call h query order_by skip limit) =
      second (delete (at w x.moment) t h x.stamps query order_by skip limit)
  answer (drop_call h) = drop_namespaces (at w x.moment) x.stamps t h
  answer (create_index_call h name config) = second (create_index (at w x.moment) t h name config)
  answer (drop_index_call h name) = drop_index t h name

  -- A call without a database, one without a collection other than Drop, and one on the local
  -- database fail with the error for that, in this order, and leave the transaction as it is.
  pub answer-refusal :
      (c : Call) (f : Failure)
      → refusal (target c) (needs_collection c) ≡ some f
      → (answer c ≡ fail f) × (perform w t (x, c) ≡ t)
  unfolding perform create edit replace update delete insert bulk drop_namespaces create_index
      drop_index
  answer-refusal (create_call h) f e = rw (check_access-refusal h true f e) (refl, refl)
  answer-refusal (bulk_call h [] ordered) f e = rw (check_access-refusal h true f e) (refl, refl)
  answer-refusal (bulk_call h (op ∷ ops) ordered) f e =
      rw (check_access-refusal h true f e) (refl, refl)
  answer-refusal (insert_call h [] ordered) f e = rw (check_access-refusal h true f e) (refl, refl)
  answer-refusal (insert_call h (d ∷ ds) ordered) f e =
      rw (check_access-refusal h true f e) (refl, refl)
  answer-refusal (replace_call h _ _ _ _) f e = rw (check_access-refusal h true f e) (refl, refl)
  answer-refusal (update_call h _ _ _ _ _ _ _) f e =
      rw (check_access-refusal h true f e) (refl, refl)
  answer-refusal (delete_call h _ _ _ _) f e = rw (check_access-refusal h true f e) (refl, refl)
  answer-refusal (drop_call h) f e = rw (check_access-refusal h false f e) (refl, refl)
  answer-refusal (create_index_call h _ _) f e = rw (check_access-refusal h true f e) (refl, refl)
  answer-refusal (drop_index_call h _) f e = rw (check_access-refusal h true f e) (refl, refl)
