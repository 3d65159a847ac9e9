-- ===== src/Transaction/Dirty.antt =====
-- transaction.go: the flag `dirty` says whether a transaction has written its catalog.
use lungo.Base.{
  ℕ, ◌≡◌, inl, inr, refl, sym, ap, ◌∙◌, ◌⊎◌, subst, Bool, true, false, not, ◌&&◌, List, [], ◌∷◌,
  Option, none, some, if_both, ltb, Text, Result, Failure, ok, fail, ◌>>=◌, bind-ok, ok_injective,
}
use lungo.Bsonkit.Sort.{Doc}
use lungo.Bsonkit.Index.{Btree}
use lungo.Mongokit.Index.{IndexConfig}
use lungo.Mongokit.Collection.{Collection, Outcome, no_outcome, new_collection}
use lungo.Mongokit.Collection.Operations as Op
use lungo.Mongokit.Collection.Operations.{World, Moment, at}
use lungo.Catalog.{
  Handle, oplog_handle, check_access, namespace_at, set_namespace, or_new, or_panic,
}
use lungo.Oplog.{Stamps, Log}
use lungo.Transaction.{
  Transaction, Attempt, is_nonempty, is_some, commit, commit_if, create_namespace, create, edit,
  replace, update, delete, replace_one, update_some, delete_some, has_written,
}
use lungo.Transaction.Batch.{Operation, started, insert_from, insert, bulk_from, bulk}
use lungo.Transaction.Maintain.{
  drop_from, drop_database, drop_namespaces, create_index, drop_index_of, drop_index,
}
use lungo.Transaction.Calls.{
  Call, create_call, bulk_call, insert_call, replace_call, update_call, delete_call, drop_call,
  create_index_call, drop_index_call, Setting, after, after_with, perform, perform_all,
}

clean_and_dirty : {b : Bool} → b ≡ false → b ≡ true → {A : Type 0} → A
clean_and_dirty h k = cc

-- The value of a result, where it has one, has a property.
record Ends {A : Type 0} (P : A → Type 0) (r : Result A) : Type 0 where
  ends : (a : A) → r ≡ ok a → P a

Ends-ok : {A : Type 0} (P : A → Type 0) (a : A) → P a → Ends P (ok a)
Ends-ok P a p = record { ends = λ b h. subst (λ x. P x) (ok_injective h) p }

Ends-fail : {A : Type 0} (P : A → Type 0) (e : Failure) → Ends P (fail e)
Ends-fail P e = record { ends = λ b h. cc }

Ends-bind :
    {A C : Type 0} (P : C → Type 0) (r : Result A) (f : A → Result C)
    → ((a : A) → Ends P (f a))
    → Ends P (r >>= f)
Ends-bind P r f k = record { ends = λ c h. let (a, e, h') = bind-ok r f c h in (k a).ends c h' }

module _ {B : Btree} where
  abbrev IsOpen : Transaction B → Transaction B → Type 0
  IsOpen t t' = (t' ≡ t) ⊎ (t'.dirty ≡ true)

  commit_if-IsOpen :
      (b : Bool) (t : Transaction B) (handle : Handle) (c oplog : Collection B)
      → IsOpen t (commit_if b t handle c oplog)
  unfolding commit_if commit
  commit_if-IsOpen true t handle c oplog = inr refl
  commit_if-IsOpen false t handle c oplog = inl refl

  after-IsOpen :
      (t : Transaction B) (r : Result (Transaction B)) → Ends (IsOpen t) r → IsOpen t (after t r)
  after-IsOpen t (ok t') e = e.ends t' refl
  after-IsOpen t (fail f) e = inl refl

  abbrev AreOpen : {A : Type 0} → Transaction B → A × Transaction B → Type 0
  AreOpen t x = IsOpen t x.1

  after_with-IsOpen :
      {A : Type 0} (t : Transaction B) (r : Result (A × Transaction B))
      → Ends (AreOpen t) r
      → IsOpen t (after_with t r)
  after_with-IsOpen t (ok (a, t')) e = e.ends (a, t') refl
  after_with-IsOpen t (fail f) e = inl refl

  create_namespace-IsOpen :
      (w : World) (t : Transaction B) (handle : Handle) (o : Option (Collection B))
      → Ends (IsOpen t) (create_namespace w t handle o)
  unfolding create_namespace
  create_namespace-IsOpen w t handle (some c) = Ends-ok (IsOpen t) t (inl refl)
  create_namespace-IsOpen w t handle none =
      Ends-bind (IsOpen t) (new_collection B w.numerics true)
        (λ c. ok (record {
          catalog = record { namespaces = set_namespace t.catalog.namespaces handle c };
          dirty = true;
        }))
        (λ c. Ends-ok (IsOpen t) _ (inr refl))

  create-IsOpen :
      (w : World) (t : Transaction B) (handle : Handle) → Ends (IsOpen t) (create w t handle)
  unfolding create
  create-IsOpen w t handle =
      Ends-bind (IsOpen t) (check_access handle true) _
        (λ u. create_namespace-IsOpen w t handle (namespace_at t.catalog.namespaces handle))

  edit-IsOpen :
      (w : World) (t : Transaction B) (handle : Handle) (upsert : Bool)
      (run : Collection B → Log B → Result (Attempt B)) (changed : Outcome → Bool)
      → Ends (AreOpen t) (edit w t handle upsert run changed)
  unfolding edit
  edit-IsOpen w t handle upsert run changed =
      let found = namespace_at t.catalog.namespaces handle in
      let log = namespace_at t.catalog.namespaces oplog_handle in
      Ends-bind (AreOpen t) (check_access handle true) _ (λ u.
        if_both (Ends (AreOpen t)) (not (is_some found) && not upsert)
          (Ends-ok (AreOpen t) (no_outcome, t) (inl refl))
          (Ends-bind (AreOpen t) (or_new w.numerics found) _ (λ c.
            Ends-bind (AreOpen t) (or_panic log) _ (λ oplog.
              Ends-bind (AreOpen t) (run c (oplog, 0)) _ (λ a.
                Ends-ok (AreOpen t)
                  (a.outcome, commit_if (changed a.outcome) t handle a.namespace a.log.0)
                  (commit_if-IsOpen (changed a.outcome) t handle a.namespace a.log.0))))))

  create_index-IsOpen :
      (w : World) (t : Transaction B) (handle : Handle) (name : Text) (config : IndexConfig)
      → Ends (AreOpen t) (create_index w t handle name config)
  unfolding create_index
  create_index-IsOpen w t handle name config =
      let found = namespace_at t.catalog.namespaces handle in
      Ends-bind (AreOpen t) (check_access handle true) _ (λ u.
        Ends-bind (AreOpen t) (or_new w.numerics found) _ (λ c.
          Ends-bind (AreOpen t) (Op.create w c name config) _
            (λ x. Ends-ok (AreOpen t) _ (inr refl))))

  drop_index_of-IsOpen :
      (t : Transaction B) (handle : Handle) (name : Text) (o : Option (Collection B))
      → Ends (IsOpen t) (drop_index_of t handle name o)
  unfolding drop_index_of
  drop_index_of-IsOpen t handle name none = Ends-fail (IsOpen t) _
  drop_index_of-IsOpen t handle name (some c) =
      Ends-bind (IsOpen t) (Op.drop_index c name) _
        (λ x. Ends-ok (IsOpen t) _ (if_both (IsOpen t) (is_nonempty x.0) (inr refl) (inl refl)))

  drop_index-IsOpen :
      (t : Transaction B) (handle : Handle) (name : Text)
      → Ends (IsOpen t) (drop_index t handle name)
  unfolding drop_index
  drop_index-IsOpen t handle name =
      Ends-bind (IsOpen t) (check_access handle true) _
        (λ u. drop_index_of-IsOpen t handle name (namespace_at t.catalog.namespaces handle))

  drop_namespaces-IsOpen :
      (w : World) (s : Stamps) (t : Transaction B) (handle : Handle)
      → Ends (IsOpen t) (drop_namespaces w s t handle)
  unfolding drop_namespaces
  drop_namespaces-IsOpen w s t handle =
      let log = namespace_at t.catalog.namespaces oplog_handle in
      Ends-bind (IsOpen t) (check_access handle false) _ (λ u.
        Ends-bind (IsOpen t) (or_panic log) _ (λ oplog.
          Ends-bind (IsOpen t) (drop_from w s handle t.catalog.namespaces (oplog, 0)) _ (λ x.
            Ends-bind (IsOpen t) (drop_database w s handle x.1) _ (λ l.
              Ends-ok (IsOpen t) _ (if_both (IsOpen t) (ltb 0 x.1.1) (inr refl) (inl refl))))))

module _ {B : Btree} (w : World) (s : Stamps) (moments : ℕ → Moment) (handle : Handle)
    (t : Transaction B) where
  insert-IsOpen :
      (ds : List Doc) (ordered : Bool) → Ends (AreOpen t) (insert w s moments handle t ds ordered)
  unfolding insert
  insert-IsOpen [] ordered =
      Ends-bind (AreOpen t) (check_access handle true) _
        (λ u. Ends-ok (AreOpen t) (([], none), t) (inl refl))
  insert-IsOpen (d ∷ ds) ordered =
      let found = namespace_at t.catalog.namespaces handle in
      let log = namespace_at t.catalog.namespaces oplog_handle in
      Ends-bind (AreOpen t) (check_access handle true) _ (λ u.
        Ends-bind (AreOpen t) (or_new w.numerics found) _ (λ c.
          Ends-bind (AreOpen t) (or_panic log) _ (λ l.
            Ends-bind (AreOpen t) (insert_from w s moments handle ordered 0 (d ∷ ds) (started c l))
              _
              (λ p.
                Ends-ok (AreOpen t) _
                  (commit_if-IsOpen (is_nonempty p.inserted) t handle p.namespace p.log.0)))))

  bulk-IsOpen :
      (ops : List Operation) (ordered : Bool)
      → Ends (AreOpen t) (bulk w s moments handle t ops ordered)
  unfolding bulk
  bulk-IsOpen [] ordered =
      Ends-bind (AreOpen t) (check_access handle true) _
        (λ u. Ends-ok (AreOpen t) ([], t) (inl refl))
  bulk-IsOpen (op ∷ ops) ordered =
      let found = namespace_at t.catalog.namespaces handle in
      let log = namespace_at t.catalog.namespaces oplog_handle in
      Ends-bind (AreOpen t) (check_access handle true) _ (λ u.
        Ends-bind (AreOpen t) (or_new w.numerics found) _ (λ c.
          Ends-bind (AreOpen t) (or_panic log) _ (λ l.
            Ends-bind (AreOpen t) (bulk_from w s moments handle ordered 0 (op ∷ ops) (started c l))
              _
              (λ p.
                Ends-ok (AreOpen t) _
                  (commit_if-IsOpen (ltb 0 p.changes) t handle p.namespace p.log.0)))))

module _ {B : Btree} (w : World) where
  perform-IsOpen : (t : Transaction B) (x : Setting) (c : Call) → IsOpen t (perform w t (x, c))
  unfolding perform replace update delete
  perform-IsOpen t x (create_call h) =
      after-IsOpen t (create (at w x.moment) t h) (create-IsOpen (at w x.moment) t h)
  perform-IsOpen t x (bulk_call h ops ordered) =
      after_with-IsOpen t (bulk w x.stamps x.moments h t ops ordered)
        (bulk-IsOpen w x.stamps x.moments h t ops ordered)
  perform-IsOpen t x (insert_call h ds ordered) =
      after_with-IsOpen t (insert w x.stamps x.moments h t ds ordered)
        (insert-IsOpen w x.stamps x.moments h t ds ordered)
  perform-IsOpen t x (replace_call h query order_by repl upsert) =
      after_with-IsOpen t (replace (at w x.moment) t h x.stamps query order_by repl upsert) (
        edit-IsOpen (at w x.moment) t h upsert
          (λ c log. replace_one (at w x.moment) x.stamps h c log query repl order_by upsert)
          has_written)
  perform-IsOpen t x (update_call h query order_by change skip limit upsert filters) =
      after_with-IsOpen t
        (update (at w x.moment) t h x.stamps query order_by change skip limit upsert filters)
        (edit-IsOpen (at w x.moment) t h upsert
          (λ c log.
            update_some (at w x.moment) x.stamps h c log query change order_by upsert skip limit
              filters)
          has_written)
  perform-IsOpen t x (delete_call h query order_by skip limit) =
      after_with-IsOpen t (delete (at w x.moment) t h x.stamps query order_by skip limit) (
        edit-IsOpen (at w x.moment) t h false
          (λ c log. delete_some (at w x.moment) x.stamps h c log query order_by skip limit)
          (λ o. is_nonempty o.matched))
  perform-IsOpen t x (drop_call h) =
      after-IsOpen t (drop_namespaces (at w x.moment) x.stamps t h)
        (drop_namespaces-IsOpen (at w x.moment) x.stamps t h)
  perform-IsOpen t x (create_index_call h name config) =
      after_with-IsOpen t (create_index (at w x.moment) t h name config)
        (create_index-IsOpen (at w x.moment) t h name config)
  perform-IsOpen t x (drop_index_call h name) =
      after-IsOpen t (drop_index t h name) (drop_index-IsOpen t h name)

  -- A transaction that is not dirty after calls of users is the one that they began with, so that
  -- a commit which is skipped loses nothing.
  pub perform_all-dirty :
      (t : Transaction B) (calls : List (Setting × Call))
      → (perform_all w t calls).dirty ≡ false
      → perform_all w t calls ≡ t
  unfolding perform_all
  perform_all-dirty t [] h = refl
  perform_all-dirty t ((x, c) ∷ calls) h =
      let rest = perform_all-dirty (perform w t (x, c)) calls h in
      elim (perform-IsOpen t x c) [
        | inl e ↦ rest ∙ e
        | inr d ↦ clean_and_dirty (sym (ap (λ (y : Transaction B). y.dirty) rest) ∙ h) d
      ]
