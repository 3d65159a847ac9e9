-- ===== src/Transaction/Calls.antt =====
-- transaction.go: sequences of the calls of users on a transaction.
use lungo.Base.{ℕ, Bool, List, [], ◌∷◌, Text, ℤ, Result, ok, fail}
use lungo.Bsonkit.Value.{Fields}
use lungo.Bsonkit.Sort.{Doc}
use lungo.Bsonkit.Index.{Btree}
use lungo.Mongokit.Index.{IndexConfig}
use lungo.Mongokit.Collection.Operations.{World, Moment, at}
use lungo.Catalog.{Handle}
use lungo.Oplog.{Stamps}
use lungo.Transaction.{Transaction, create, replace, update, delete}
use lungo.Transaction.Batch as Batch
use lungo.Transaction.Maintain as Maintain

pub data Call : Type 0 where
  create_call : Handle → Call
  bulk_call : Handle → List Batch.Operation → Bool → Call
  insert_call : Handle → List Doc → Bool → Call
  replace_call : Handle → Fields → Fields → Doc → Bool → Call
  update_call : Handle → Fields → Fields → Fields → ℕ → ℤ → Bool → List Fields → Call
  delete_call : Handle → Fields → Fields → ℕ → ℤ → Call
  drop_call : Handle → Call
  create_index_call : Handle → Text → IndexConfig → Call
  drop_index_call : Handle → Text → Call

-- What the world gives to a call: a moment for the call and for each of its operations, and the
-- stamps of its events.
pub record Setting : Type 0 where
  pub moment : Moment
  pub moments : ℕ → Moment
  pub stamps : Stamps

module _ {B : Btree} where
  abbrev pub after : Transaction B → Result (Transaction B) → Transaction B
  after t (ok t') = t'
  after t (fail e) = t

  abbrev pub after_with {ℓ} :
      {A : Type ℓ} → Transaction B → Result (A × Transaction B) → Transaction B
  after_with t (ok (a, t')) = t'
  after_with t (fail e) = t

module _ {B : Btree} (w : World) where
  -- A call that fails leaves the transaction as it is.
  unfoldable pub perform : Transaction B → Setting × Call → Transaction B
  unfolding create replace update delete Batch.insert Batch.bulk Maintain.drop_namespaces
      Maintain.create_index Maintain.drop_index
  perform t (x, create_call h) = after t (create (at w x.moment) t h)
  perform t (x, bulk_call h ops ordered) =
      after_with t (Batch.bulk w x.stamps x.moments h t ops ordered)
  perform t (x, insert_call h ds ordered) =
      after_with t (Batch.insert w x.stamps x.moments h t ds ordered)
  perform t (x, replace_call h query order_by repl upsert) =
      after_with t (replace (at w x.moment) t h x.stamps query order_by repl upsert)
  perform t (x, update_call h query order_by change skip limit upsert filters) =
      after_with t
        (update (at w x.moment) t h x.stamps query order_by change skip limit upsert filters)
  perform t (x, delete_call h query order_by skip limit) =
      after_with t (delete (at w x.moment) t h x.stamps query order_by skip limit)
  perform t (x, drop_call h) = after t (Maintain.drop_namespaces (at w x.moment) x.stamps t h)
  perform t (x, create_index_call h name config) =
      after_with t (Maintain.create_index (at w x.moment) t h name config)
  perform t (x, drop_index_call h name) = after t (Maintain.drop_index t h name)

  unfoldable pub perform_all : Transaction B → List (Setting × Call) → Transaction B
  unfolding perform
  perform_all t [] = t
  perform_all t (c ∷ cs) = perform_all (perform t c) cs
