-- ===== src/Mongokit/Collection/Invariant.antt =====
-- mongokit/collection.go: every sequence of operations keeps a collection consistent.
use lungo.Base.{
  ℕ, ◌≡◌, inl, inr, refl, sym, subst, Bool, true, ◌&&◌, and_left, and_right, List, [], ◌∷◌, Option,
  Mem, Text, ℤ, Result, ok, fail,
}
use lungo.Bsonkit.Value.{Fields}
use lungo.Bsonkit.Sort.{Doc}
use lungo.Bsonkit.Index.{Btree}
use lungo.Mongokit.Find.Members.{IsSort}
use lungo.Mongokit.Index.{IndexConfig}
use lungo.Mongokit.Index.Holds.{Trust}
use lungo.Mongokit.Index.Plain.{Plain}
use lungo.Bsonkit.Compare.Order.{is_exact_fields}
use lungo.Mongokit.Collection.{Collection, docs, new_collection}
use lungo.Mongokit.Collection.Operations.{
  World, Moment, at, insert, replace, update, upsert, delete, create, drop_index,
}
use lungo.Mongokit.Collection.Consistent.{AllPlain, IsConsistent}
use lungo.Mongokit.Collection.Schema.{
  create-IsConsistent, drop_index-IsConsistent, new_collection-IsConsistent,
  new_collection-AllPlain,
}
use lungo.Mongokit.Collection.Writes.{
  insert-Consistent, replace-Consistent, update-Consistent, upsert-Consistent, delete-Consistent,
}

-- A call of an operation.
pub data Operation : Type 0 where
  insert_op : Doc → Operation
  replace_op : Fields → Doc → Fields → Operation
  update_op : Fields → Fields → Fields → ℕ → ℤ → List Fields → Operation
  upsert_op : Fields → Option Fields → Option Fields → List Fields → Operation
  delete_op : Fields → Fields → ℕ → ℤ → Operation
  create_op : Text → IndexConfig → Operation
  drop_op : Text → Operation

module _ {B : Btree} (w : World) where
  abbrev after {ℓ} : {A : Type ℓ} → Collection B → Result (A × Collection B) → Collection B
  after c (ok (a, c')) = c'
  after c (fail e) = c

  -- The caller keeps the collection that it had where an operation fails.
  unfoldable pub perform : Collection B → Moment × Operation → Collection B
  unfolding insert replace update upsert delete create drop_index
  perform c (m, insert_op d) = after c (insert (at w m) c d)
  perform c (m, replace_op query repl order_by) = after c (replace (at w m) c query repl order_by)
  perform c (m, update_op query change order_by skip limit filters) =
      after c (update (at w m) c query change order_by skip limit filters)
  perform c (m, upsert_op query repl change filters) =
      after c (upsert (at w m) c query repl change filters)
  perform c (m, delete_op query order_by skip limit) =
      after c (delete (at w m) c query order_by skip limit)
  perform c (m, create_op name config) = after c (create (at w m) c name config)
  perform c (m, drop_op name) = after c (drop_index c name)

  unfoldable pub perform_all : Collection B → List (Moment × Operation) → Collection B
  unfolding perform
  perform_all c [] = c
  perform_all c (op ∷ ops) = perform_all (perform c op) ops

-- The numbers in the documents are integers, and no regular expression stands in them.
unfoldable pub all_plain : List Doc → Bool
unfolding is_exact_fields
all_plain [] = true
all_plain (d ∷ ds) = is_exact_fields d.content && all_plain ds

all_plain-Plain : (ds : List Doc) (x : Doc) → all_plain ds ≡ true → Mem x ds → Plain x
unfolding all_plain
all_plain-Plain [] x h m = elim m [ ]
all_plain-Plain (d ∷ ds) x h (inl e) =
    subst (λ (y : Doc). Plain y) (sym e) (and_left (is_exact_fields d.content) (all_plain ds) h)
all_plain-Plain (d ∷ ds) x h (inr m) =
    all_plain-Plain ds x (and_right (is_exact_fields d.content) (all_plain ds) h) m

module _ {B : Btree} (w : World) where
  -- After every call the documents of the collection are such.
  unfoldable pub stays_plain : Collection B → List (Moment × Operation) → Bool
  unfolding perform all_plain
  stays_plain c [] = true
  stays_plain c (op ∷ ops) = all_plain (docs (perform w c op)) && stays_plain (perform w c op) ops

module _ {B : Btree} (w : World) (T : Trust B w.numerics) (S : IsSort w.sort_slice) where
  after-Consistent :
      {A : Type 0} (c : Collection B) (r : Result (A × Collection B))
      → ((a : A) (c' : Collection B)
          → r ≡ ok (a, c')
          → AllPlain c'
          → IsConsistent w.numerics w.schema T c')
      → AllPlain (after w c r)
      → IsConsistent w.numerics w.schema T c
      → IsConsistent w.numerics w.schema T (after w c r)
  after-Consistent c (ok (a, c')) h pl v = h a c' refl pl
  after-Consistent c (fail e) h pl v = v

  perform-IsConsistent :
      (c : Collection B) (m : Moment) (op : Operation)
      → AllPlain c
      → AllPlain (perform w c (m, op))
      → IsConsistent w.numerics w.schema T c
      → IsConsistent w.numerics w.schema T (perform w c (m, op))
  unfolding perform
  perform-IsConsistent c m (insert_op d) old new v =
      after-Consistent c (insert (at w m) c d)
        (λ o c' h pl. insert-Consistent (at w m) T S c c' d o h pl v) new v
  perform-IsConsistent c m (replace_op query repl order_by) old new v =
      after-Consistent c (replace (at w m) c query repl order_by)
        (λ o c' h pl. replace-Consistent (at w m) T S c c' query repl order_by o h pl v) new v
  perform-IsConsistent c m (update_op query change order_by skip limit filters) old new v =
      after-Consistent c (update (at w m) c query change order_by skip limit filters)
        (λ o c' h pl.
          update-Consistent (at w m) T S c c' query change order_by skip limit filters o h pl v)
        new v
  perform-IsConsistent c m (upsert_op query repl change filters) old new v =
      after-Consistent c (upsert (at w m) c query repl change filters)
        (λ o c' h pl. upsert-Consistent (at w m) T S c c' query repl change filters o h pl v) new v
  perform-IsConsistent c m (delete_op query order_by skip limit) old new v =
      after-Consistent c (delete (at w m) c query order_by skip limit)
        (λ o c' h pl. delete-Consistent (at w m) T S c c' query order_by skip limit o h v) new v
  perform-IsConsistent c m (create_op name config) old new v =
      after-Consistent c (create (at w m) c name config)
        (λ n c' h pl. create-IsConsistent (at w m) T c c' name n config h old v) new v
  perform-IsConsistent c m (drop_op name) old new v =
      after-Consistent c (drop_index c name)
        (λ ns c' h pl. drop_index-IsConsistent w.numerics w.schema T c c' name ns h v) new v

  perform_all_from :
      (c : Collection B) (ops : List (Moment × Operation))
      → AllPlain c
      → stays_plain w c ops ≡ true
      → IsConsistent w.numerics w.schema T c
      → IsConsistent w.numerics w.schema T (perform_all w c ops)
  unfolding perform_all stays_plain
  perform_all_from c [] pl h v = v
  perform_all_from c ((m, op) ∷ ops) pl h v =
      let c' = perform w c (m, op) in
      let new : AllPlain c' = λ x.
        all_plain-Plain (docs c') x (and_left (all_plain (docs c')) (stays_plain w c' ops) h) in
      perform_all_from c' ops new (and_right (all_plain (docs c')) (stays_plain w c' ops) h)
        (perform-IsConsistent c m op pl new v)

  -- After any operations on a new collection its set is valid, and every index holds exactly the
  -- documents of the set that its filter accepts, no two under one key, if after each of them the
  -- documents of the set hold integers only and no regular expression. The caller keeps the
  -- collection that it had where an operation fails: what the source then leaves half written is
  -- thrown away. The btree obeys its laws for a comparator that is an order of its items, Cmp of the
  -- decimal package answers 0 for equal decimals, and sort.Slice permutes.
  pub perform_all-IsConsistent :
      (c : Collection B) (id_index : Bool) (ops : List (Moment × Operation))
      → new_collection B w.numerics id_index ≡ ok c
      → stays_plain w c ops ≡ true
      → IsConsistent w.numerics w.schema T (perform_all w c ops)
  perform_all-IsConsistent c id_index ops h k =
      perform_all_from c ops (new_collection-AllPlain w.numerics c id_index h) k
        (new_collection-IsConsistent w.numerics w.schema T c id_index h)
