-- ===== src/Transaction/Invariant.antt =====
-- transaction.go: what the calls of users leave of the local database.
use lungo.Base.{
  ℕ, ◌≡◌, refl, subst, sym, Bool, true, false, not, ◌&&◌, List, [], ◌∷◌, ◌++◌, append-nil, Option,
  none, some, if_both, ltb, Text, text_eq, Result, Failure, ok, fail, bind-ok, ok_injective, ite_ok,
}
use lungo.Bsonkit.Sort.{Doc}
use lungo.Bsonkit.Set.Valid.{IsValid}
use lungo.Bsonkit.Index.{Btree}
use lungo.Mongokit.Index.{IndexConfig}
use lungo.Mongokit.Collection.{Collection, Outcome, docs, new_collection}
use lungo.Mongokit.Collection.Operations as Op
use lungo.Mongokit.Collection.Operations.{World, Moment, at}
use lungo.Catalog.{
  Handle, handle_eq, local, oplog_handle, check_access, namespace_at, set_namespace, or_new,
  or_panic,
}
use lungo.Oplog.{Stamps, Log}
use lungo.Transaction.{
  Transaction, Attempt, is_nonempty, is_some, create_namespace, create, edit, replace, update,
  delete,
}
use lungo.Transaction.Batch.{Operation, started, insert_from, insert, bulk_from, bulk}
use lungo.Transaction.Maintain.{drop_namespaces, create_index, drop_index_of, drop_index}
use lungo.Transaction.Keeps.{replace_one-Kept, update_some-Kept, delete_some-Kept}
use lungo.Transaction.Drops.{drop_namespaces-IsSteady}
use lungo.Transaction.Loops.{insert_from-Good, bulk_from-Good}
use lungo.Transaction.Appends.{Grown, Any, Keeps-Grown}
use lungo.Transaction.Local.{
  IsUser, check_access-IsUser, IsSteady, set_user-IsSteady, oplog-Grown, commit_if-IsSteady,
}
use lungo.Transaction.Calls.{
  Call, create_call, bulk_call, insert_call, replace_call, update_call, delete_call, drop_call,
  create_index_call, drop_index_call, Setting, after, after_with, perform, perform_all,
}

module _ {B : Btree} (start : List (Handle × Collection B)) (old : Collection B) where
  abbrev Steady : Transaction B → Type 0
  Steady t = IsSteady start old t.catalog.namespaces

  create_namespace-Steady :
      (w : World) (t t' : Transaction B) (handle : Handle) (o : Option (Collection B))
      → create_namespace w t handle o ≡ ok t'
      → IsUser handle
      → Steady t
      → Steady t'
  unfolding create_namespace
  create_namespace-Steady w t t' handle (some c) h u s =
      subst (λ (x : Transaction B). Steady x) (ok_injective h) s
  create_namespace-Steady w t t' handle none h u s =
      let made : Collection B → Transaction B = λ c. record {
        catalog = record { namespaces = set_namespace t.catalog.namespaces handle c };
        dirty = true;
      } in
      let (c, e, k) = bind-ok (new_collection B w.numerics true) (λ c. ok (made c)) t' h in
      subst (λ (x : Transaction B). Steady x) (ok_injective k)
        (set_user-IsSteady start old t.catalog.namespaces handle c u s)

  create-Steady :
      (w : World) (t t' : Transaction B) (handle : Handle)
      → create w t handle ≡ ok t'
      → Steady t
      → Steady t'
  unfolding create
  create-Steady w t t' handle h s =
      let (u, e, k) = bind-ok (check_access handle true) _ t' h in
      create_namespace-Steady w t t' handle (namespace_at t.catalog.namespaces handle) k
        (check_access-IsUser handle true u e) s

  edit-Steady :
      (w : World) (t t' : Transaction B) (handle : Handle) (upsert : Bool)
      (run : Collection B → Log B → Result (Attempt B)) (changed : Outcome → Bool) (o : Outcome)
      → edit w t handle upsert run changed ≡ ok (o, t')
      → ((c : Collection B) (log : Log B) (a : Attempt B)
          → run c log ≡ ok a
          → Any c
          → Grown old log.0
          → Any a.namespace × Grown old a.log.0)
      → Steady t
      → Steady t'
  unfolding edit
  edit-Steady w t t' handle upsert run changed o h keep s =
      let (u, e, k) = bind-ok (check_access handle true) _ (o, t') h in
      let user = check_access-IsUser handle true u e in
      let found = namespace_at t.catalog.namespaces handle in
      ite_ok (not (is_some found) && not upsert) _ _ (o, t') k
        (λ e'. subst (λ (r : Outcome × Transaction B). Steady r.1) (ok_injective e') s)
        (λ e'.
          let (c, e₁, k₁) = bind-ok (or_new w.numerics found) _ (o, t') e' in
          let (oplog, e₂, k₂) =
            bind-ok (or_panic (namespace_at t.catalog.namespaces oplog_handle)) _ (o, t') k₁ in
          let (a, e₃, k₃) = bind-ok (run c (oplog, 0)) _ (o, t') k₂ in
          let g = oplog-Grown start old t.catalog.namespaces oplog e₂ s in
          subst (λ (x : Outcome × Transaction B). Steady x.1) (ok_injective k₃)
            (commit_if-IsSteady start old (changed a.outcome) t handle a.namespace a.log.0 user
              (keep c (oplog, 0) a e₃ tt g).1 s))

  create_index-Steady :
      (w : World) (t t' : Transaction B) (handle : Handle) (name name' : Text)
      (config : IndexConfig)
      → create_index w t handle name config ≡ ok (name', t')
      → Steady t
      → Steady t'
  unfolding create_index
  create_index-Steady w t t' handle name name' config h s =
      let (u, e, k) = bind-ok (check_access handle true) _ (name', t') h in
      let found = namespace_at t.catalog.namespaces handle in
      let (c, e₁, k₁) = bind-ok (or_new w.numerics found) _ (name', t') k in
      let ((n, c'), e₂, k₂) = bind-ok (Op.create w c name config) _ (name', t') k₁ in
      subst (λ (x : Text × Transaction B). Steady x.1) (ok_injective k₂)
        (set_user-IsSteady start old t.catalog.namespaces handle c'
          (check_access-IsUser handle true u e) s)

  drop_index_of-Steady :
      (t t' : Transaction B) (handle : Handle) (name : Text) (o : Option (Collection B))
      → drop_index_of t handle name o ≡ ok t'
      → IsUser handle
      → Steady t
      → Steady t'
  unfolding drop_index_of
  drop_index_of-Steady t t' handle name none h u s = cc
  drop_index_of-Steady t t' handle name (some c) h u s =
      let ((dropped, c'), e, k) = bind-ok (Op.drop_index c name) _ t' h in
      subst (λ (x : Transaction B). Steady x) (ok_injective k)
        (if_both (λ (x : Transaction B). Steady x) (is_nonempty dropped)
          (set_user-IsSteady start old t.catalog.namespaces handle c' u s) s)

  drop_index-Steady :
      (t t' : Transaction B) (handle : Handle) (name : Text)
      → drop_index t handle name ≡ ok t'
      → Steady t
      → Steady t'
  unfolding drop_index
  drop_index-Steady t t' handle name h s =
      let (u, e, k) = bind-ok (check_access handle true) _ t' h in
      drop_index_of-Steady t t' handle name (namespace_at t.catalog.namespaces handle) k
        (check_access-IsUser handle true u e) s

  module _ (w : World) (m : Moment) (s : Stamps) (moments : ℕ → Moment) where
    insert-Steady :
        (t t' : Transaction B) (handle : Handle) (ds : List Doc) (ordered : Bool)
        (r : List Doc × Option Failure)
        → insert w s moments handle t ds ordered ≡ ok (r, t')
        → Steady t
        → Steady t'
    unfolding insert
    insert-Steady t t' handle [] ordered r h v =
        let (u, e, k) = bind-ok (check_access handle true) _ (r, t') h in
        subst (λ (x : (List Doc × Option Failure) × Transaction B). Steady x.1) (ok_injective k) v
    insert-Steady t t' handle (d ∷ ds) ordered r h v =
        let (u, e, k) = bind-ok (check_access handle true) _ (r, t') h in
        let (c, e₁, k₁) =
          bind-ok (or_new w.numerics (namespace_at t.catalog.namespaces handle)) _ (r, t') k in
        let (l, e₂, k₂) =
          bind-ok (or_panic (namespace_at t.catalog.namespaces oplog_handle)) _ (r, t') k₁ in
        let (p, e₃, k₃) =
          bind-ok (insert_from w s moments handle ordered 0 (d ∷ ds) (started c l)) _ (r, t') k₂ in
        let g =
          insert_from-Good w s moments handle Any (Grown old) (λ n. Keeps-Grown (at w n) old)
            ordered 0 (d ∷ ds) (started c l) p e₃
            (tt, oplog-Grown start old t.catalog.namespaces l e₂ v) in
        subst (λ (x : (List Doc × Option Failure) × Transaction B). Steady x.1) (ok_injective k₃)
          (commit_if-IsSteady start old (is_nonempty p.inserted) t handle p.namespace p.log.0
            (check_access-IsUser handle true u e) g.1 v)

    bulk-Steady :
        (t t' : Transaction B) (handle : Handle) (ops : List Operation) (ordered : Bool)
        (r : List (Result Outcome))
        → bulk w s moments handle t ops ordered ≡ ok (r, t')
        → Steady t
        → Steady t'
    unfolding bulk
    bulk-Steady t t' handle [] ordered r h v =
        let (u, e, k) = bind-ok (check_access handle true) _ (r, t') h in
        subst (λ (x : List (Result Outcome) × Transaction B). Steady x.1) (ok_injective k) v
    bulk-Steady t t' handle (op ∷ ops) ordered r h v =
        let (u, e, k) = bind-ok (check_access handle true) _ (r, t') h in
        let (c, e₁, k₁) =
          bind-ok (or_new w.numerics (namespace_at t.catalog.namespaces handle)) _ (r, t') k in
        let (l, e₂, k₂) =
          bind-ok (or_panic (namespace_at t.catalog.namespaces oplog_handle)) _ (r, t') k₁ in
        let (p, e₃, k₃) =
          bind-ok (bulk_from w s moments handle ordered 0 (op ∷ ops) (started c l)) _ (r, t') k₂ in
        let g =
          bulk_from-Good w s moments handle Any (Grown old) (λ n. Keeps-Grown (at w n) old) ordered
            0 (op ∷ ops) (started c l) p e₃
            (tt, oplog-Grown start old t.catalog.namespaces l e₂ v) in
        subst (λ (x : List (Result Outcome) × Transaction B). Steady x.1) (ok_injective k₃)
          (commit_if-IsSteady start old (ltb 0 p.changes) t handle p.namespace p.log.0
            (check_access-IsUser handle true u e) g.1 v)

  after-Steady :
      (t : Transaction B) (r : Result (Transaction B))
      → ((t' : Transaction B) → r ≡ ok t' → Steady t → Steady t')
      → Steady t
      → Steady (after t r)
  after-Steady t (ok t') k v = k t' refl v
  after-Steady t (fail e) k v = v

  after_with-Steady :
      {A : Type 0} (t : Transaction B) (r : Result (A × Transaction B))
      → ((a : A) (t' : Transaction B) → r ≡ ok (a, t') → Steady t → Steady t')
      → Steady t
      → Steady (after_with t r)
  after_with-Steady t (ok (a, t')) k v = k a t' refl v
  after_with-Steady t (fail e) k v = v

  perform-Steady :
      (w : World) (t : Transaction B) (x : Setting) (c : Call)
      → Steady t
      → Steady (perform w t (x, c))
  unfolding perform replace update delete
  perform-Steady w t x (create_call h) v =
      after-Steady t (create (at w x.moment) t h) (λ t' e. create-Steady (at w x.moment) t t' h e) v
  perform-Steady w t x (bulk_call h ops ordered) v =
      after_with-Steady t (bulk w x.stamps x.moments h t ops ordered)
        (λ r t' e. bulk-Steady w x.moment x.stamps x.moments t t' h ops ordered r e) v
  perform-Steady w t x (insert_call h ds ordered) v =
      after_with-Steady t (insert w x.stamps x.moments h t ds ordered)
        (λ r t' e. insert-Steady w x.moment x.stamps x.moments t t' h ds ordered r e) v
  perform-Steady w t x (replace_call h query order_by repl upsert) v =
      let m = at w x.moment in
      after_with-Steady t (replace m t h x.stamps query order_by repl upsert)
        (λ o t' e. edit-Steady m t t' h upsert _ _ o e (λ c log a.
          replace_one-Kept m x.stamps h Any (Grown old) (Keeps-Grown m old) c log query repl
            order_by upsert a))
        v
  perform-Steady w t x (update_call h query order_by change skip limit upsert filters) v =
      let m = at w x.moment in
      after_with-Steady t (update m t h x.stamps query order_by change skip limit upsert filters)
        (λ o t' e. edit-Steady m t t' h upsert _ _ o e (λ c log a.
          update_some-Kept m x.stamps h Any (Grown old) (Keeps-Grown m old) c log query change
            order_by upsert skip limit filters a))
        v
  perform-Steady w t x (delete_call h query order_by skip limit) v =
      let m = at w x.moment in
      after_with-Steady t (delete m t h x.stamps query order_by skip limit)
        (λ o t' e. edit-Steady m t t' h false _ _ o e (λ c log a.
          delete_some-Kept m x.stamps h Any (Grown old) (Keeps-Grown m old) c log query order_by
            skip limit a))
        v
  perform-Steady w t x (drop_call h) v =
      after-Steady t (drop_namespaces (at w x.moment) x.stamps t h)
        (λ t' e. drop_namespaces-IsSteady start old (at w x.moment) x.stamps t t' h e) v
  perform-Steady w t x (create_index_call h name config) v =
      after_with-Steady t (create_index (at w x.moment) t h name config)
        (λ n t' e. create_index-Steady (at w x.moment) t t' h name n config e) v
  perform-Steady w t x (drop_index_call h name) v =
      after-Steady t (drop_index t h name) (λ t' e. drop_index-Steady t t' h name e) v

  perform_all-Steady :
      (w : World) (t : Transaction B) (calls : List (Setting × Call))
      → Steady t
      → Steady (perform_all w t calls)
  unfolding perform_all
  perform_all-Steady w t [] v = v
  perform_all-Steady w t ((x, c) ∷ calls) v =
      perform_all-Steady w (perform w t (x, c)) calls (perform-Steady w t x c v)

module _ {B : Btree} (w : World) where
  -- If the catalog has an oplog, whose set is valid, then it has one after any calls of users: with
  -- the same documents in the same order, and more of them behind. At every other handle of the
  -- local database the catalog has what it had, which is a collection or nothing.
  pub perform_all-Grown :
      (t : Transaction B) (calls : List (Setting × Call)) (oplog : Collection B) (handle : Handle)
      → namespace_at t.catalog.namespaces oplog_handle ≡ some oplog
      → IsValid oplog.documents
      → text_eq handle.0 local ≡ true
      → handle_eq oplog_handle handle ≡ false
      → ((c : Collection B) × (namespace_at (perform_all w t calls).catalog.namespaces oplog_handle
            ≡ some c)
          × (more : List Doc) × (docs c ≡ docs oplog ++ more))
        × (namespace_at (perform_all w t calls).catalog.namespaces handle
            ≡ namespace_at t.catalog.namespaces handle)
  perform_all-Grown t calls oplog handle h v l n =
      let first : IsSteady t.catalog.namespaces oplog t.catalog.namespaces = record {
        oplog = (oplog, h, (v, ([], sym (append-nil (docs oplog)))));
        others = λ k l n. refl;
      } in
      let last = perform_all-Steady t.catalog.namespaces oplog w t calls first in
      let (c, e, (valid, grown)) = last.oplog in ((c, e, grown.0, grown.1), last.others handle l n)
