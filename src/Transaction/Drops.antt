-- ===== src/Transaction/Drops.antt =====
-- transaction.go: Drop keeps the namespaces of the local database, and the oplog grows.
use lungo.Base.{
  zero, suc, ◌≡◌, refl, subst, sym, ◌∙◌, text_eq_sound, if◌then◌else◌, Bool, true, false, ◌&&◌,
  ◌||◌, List, [], ◌∷◌, none, if_both, ltb, Text, text_eq, codes, ok, bind-ok, ok_injective,
  Bool-cases, inl, inr, arith,
}
use lungo.Bsonkit.Index.{Btree}
use lungo.Mongokit.Collection.{Collection}
use lungo.Mongokit.Collection.Operations.{World}
use lungo.Catalog.{Handle, handle_eq, local, oplog_handle, check_access, namespace_at, or_panic}
use lungo.Oplog.{Stamps, Log, append}
use lungo.Transaction.{Transaction}
use lungo.Transaction.Maintain.{drop_from, drop_database, drop_namespaces}
use lungo.Transaction.Keeps.{append-keeps}
use lungo.Transaction.Appends.{Grown, Any, Keeps-Grown}
use lungo.Transaction.Local.{
  IsUser, IsLocal, check_access-IsUser, handle_eq_sound, user-other, namespace_at-tail,
  namespace_at-cons, IsSteady, same-IsSteady, set_oplog-IsSteady, oplog-Grown,
}

-- What Drop leaves out is a namespace of the database of its handle.
dropped-IsUser :
    (h handle : Handle)
    → IsUser handle
    → (handle_eq h handle || (text_eq handle.1 [] && text_eq h.0 handle.0)) ≡ true
    → IsUser h
dropped-IsUser h handle u e = elim (Bool-cases (handle_eq h handle)) [
  | inl k ↦ subst (λ (x : Handle). IsUser x) (sym (handle_eq_sound h handle k)) u
  | inr k ↦
      subst (λ (d : Text). text_eq d local ≡ false)
        (sym (text_eq_sound h.0 handle.0 (ground arith))) u
]

if_gone : {A : Type 0} (b : Bool) (x y : A) → b ≡ true → (if b then x else y) ≡ x
if_gone b x y h = rw h refl

if_stays : {A : Type 0} (b : Bool) (x y : A) → b ≡ false → (if b then x else y) ≡ y
if_stays b x y h = rw h refl

module _ {B : Btree} (w : World) (s : Stamps) (old : Collection B) where
  append-Grown :
      (handle : Handle) (log log' : Log B) (op : Text)
      → append w s handle log op none none ≡ ok log'
      → Grown old log.0
      → Grown old log'.0
  append-Grown handle log log' op h g =
      append-keeps w s handle Any (Grown old) (Keeps-Grown w old) log log' op none none h g

  -- Drop keeps the namespaces of the local database, and the oplog grows.
  drop_from-keeps :
      (handle : Handle) (ns kept : List (Handle × Collection B)) (log log' : Log B)
      → drop_from w s handle ns log ≡ ok (kept, log')
      → IsUser handle
      → Grown old log.0
      → ((h : Handle) → IsLocal h → namespace_at kept h ≡ namespace_at ns h) × Grown old log'.0
  unfolding drop_from
  drop_from-keeps handle [] kept log log' e u g =
      let same = ok_injective e in
      (
        λ h l.
            subst
              (λ (r : List (Handle × Collection B) × Log B). namespace_at r.0 h ≡ namespace_at [] h)
              same refl,
        subst (λ (r : List (Handle × Collection B) × Log B). Grown old r.1.0) same g,
      )
  drop_from-keeps handle ((h, c) ∷ ns) kept log log' e u g =
      elim (Bool-cases (handle_eq h handle || (text_eq handle.1 [] && text_eq h.0 handle.0))) [
        | inl gone ↦
            let (log₁, a, k) =
              bind-ok (append w s h log (codes "drop") none none) (drop_from w s handle ns)
                (kept, log') (sym (if_gone _ _ _ gone) ∙ e) in
            let (same, g') =
              drop_from-keeps handle ns kept log₁ log' k u
                (append-Grown h log log₁ (codes "drop") a g) in
            (
              λ x l.
                  same x l
                  ∙ sym (
                      namespace_at-tail h x c ns
                        (user-other h x (dropped-IsUser h handle u gone) l)),
              g',
            )
        | inr stays ↦
            let ((rest, log₁), a, k) =
              bind-ok (drop_from w s handle ns log) (λ (r, l). ok ((h, c) ∷ r, l)) (kept, log')
                (sym (if_stays _ _ _ stays) ∙ e) in
            let (same, g') = drop_from-keeps handle ns rest log log₁ a u g in
            let last = ok_injective k in
            (
              λ x l.
                  subst
                    (λ (r : List (Handle × Collection B) × Log B).
                      namespace_at r.0 x ≡ namespace_at ((h, c) ∷ ns) x)
                    last (namespace_at-cons h x c rest ns (same x l)),
              subst (λ (r : List (Handle × Collection B) × Log B). Grown old r.1.0) last g',
            )
      ]

  drop_database-Grown :
      (handle : Handle) (log log' : Log B)
      → drop_database w s handle log ≡ ok log'
      → Grown old log.0
      → Grown old log'.0
  unfolding drop_database
  drop_database-Grown (d, b ∷ c) log log' h g =
      subst (λ (l : Log B). Grown old l.0) (ok_injective h) g
  drop_database-Grown (d, []) (oplog, zero) log' h g =
      subst (λ (l : Log B). Grown old l.0) (ok_injective h) g
  drop_database-Grown (d, []) (oplog, suc n) log' h g =
      append-Grown (d, []) (oplog, suc n) log' (codes "dropDatabase") h g

module _ {B : Btree} (start : List (Handle × Collection B)) (old : Collection B) where
  pub drop_namespaces-IsSteady :
      (w : World) (s : Stamps) (t t' : Transaction B) (handle : Handle)
      → drop_namespaces w s t handle ≡ ok t'
      → IsSteady start old t.catalog.namespaces
      → IsSteady start old t'.catalog.namespaces
  unfolding drop_namespaces
  drop_namespaces-IsSteady w s t t' handle h v =
      let (u, e, k) = bind-ok (check_access handle false) _ t' h in
      let user = check_access-IsUser handle false u e in
      let (oplog, e₁, k₁) =
        bind-ok (or_panic (namespace_at t.catalog.namespaces oplog_handle)) _ t' k in
      let g = oplog-Grown start old t.catalog.namespaces oplog e₁ v in
      let ((kept, log₁), e₂, k₂) =
        bind-ok (drop_from w s handle t.catalog.namespaces (oplog, 0)) _ t' k₁ in
      let (same, g₁) =
        drop_from-keeps w s old handle t.catalog.namespaces kept (oplog, 0) log₁ e₂ user g in
      let (log₂, e₃, k₃) = bind-ok (drop_database w s handle log₁) _ t' k₂ in
      let g₂ = drop_database-Grown w s old handle log₁ log₂ e₃ g₁ in
      subst (λ (x : Transaction B). IsSteady start old x.catalog.namespaces) (ok_injective k₃)
        (if_both (λ (x : Transaction B). IsSteady start old x.catalog.namespaces) (ltb 0 log₁.1)
          (set_oplog-IsSteady start old kept log₂.0 g₂
            (same-IsSteady start old t.catalog.namespaces kept same v))
          v)
