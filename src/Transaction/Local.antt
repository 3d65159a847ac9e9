-- ===== src/Transaction/Local.antt =====
-- transaction.go: the namespaces of the local database in a catalog, through the writes to its list.
use lungo.Base.{
  ◌≡◌, refl, sym, ap, subst, ◌∙◌, Bool, true, false, ◌&&◌, List, [], ◌∷◌, Option, some,
  if◌then◌else◌, text_eq, text_eq_self, text_eq_sound, ok, bind-ok, ok_injective, else-ok,
}
use lungo.Bsonkit.Index.{Btree}
use lungo.Mongokit.Collection.{Collection}
use lungo.Catalog.{
  Handle, handle_eq, local, oplog_handle, validate, check_access, namespace_at, set_namespace,
  or_panic,
}
use lungo.Transaction.{Transaction, commit, commit_if}
use lungo.Transaction.Appends.{Grown}

abbrev pub IsUser : Handle → Type 0
IsUser handle = text_eq handle.0 local ≡ false

abbrev pub IsLocal : Handle → Type 0
IsLocal handle = text_eq handle.0 local ≡ true

pub check_access-IsUser :
    (handle : Handle) (need : Bool) (u : Unit {0}) → check_access handle need ≡ ok u → IsUser handle
unfolding check_access
check_access-IsUser handle need u h =
    let (v, e, k) = bind-ok (validate handle need) _ u h in
    (else-ok (text_eq handle.0 local) (ok tt) _ u k).0

and_both : (a b : Bool) → (a && b) ≡ true → (a ≡ true) × (b ≡ true)
and_both true b h = (refl, h)
and_both false b h = cc

and_of : {a b : Bool} → a ≡ true → b ≡ true → (a && b) ≡ true
and_of h k = rw (h, k) refl

pub handle_eq_sound : (h handle : Handle) → handle_eq h handle ≡ true → h ≡ handle
handle_eq_sound (a, b) (c, d) e =
    let (k, l) = and_both (text_eq a c) (text_eq b d) e in
    let same : a ≡ c = text_eq_sound a c k in
    let same' : b ≡ d = text_eq_sound b d l in λ i. (same i, same' i)

handle_eq_self : (h : Handle) → handle_eq h h ≡ true
handle_eq_self (a, b) = and_of (text_eq_self a) (text_eq_self b)

user_or_local : {b : Bool} → b ≡ false → b ≡ true → {A : Type 0} → A
user_or_local h k = cc

-- A handle of a user is none of the local database.
pub user-other : (h handle : Handle) → IsUser h → IsLocal handle → handle_eq h handle ≡ false
user-other h handle u l = other (handle_eq h handle) refl
  where
    other : (b : Bool) → handle_eq h handle ≡ b → b ≡ false
    other false e = refl
    other true e =
        user_or_local u (subst (λ (k : Handle). IsLocal k) (sym (handle_eq_sound h handle e)) l)

pub if_split {ℓ κ} :
    {A : Type ℓ} (P : A → Type κ) (b : Bool) (x y : A)
    → (b ≡ true → P x)
    → (b ≡ false → P y)
    → P (if b then x else y)
if_split P true x y h k = h refl
if_split P false x y h k = k refl

module _ {A : Type 0} where
  namespace_at-head :
      (h handle : Handle) (c : A) (ns : List (Handle × A))
      → handle_eq h handle ≡ true
      → namespace_at ((h, c) ∷ ns) handle ≡ some c
  unfolding namespace_at
  namespace_at-head h handle c ns e = rw e refl

  pub namespace_at-tail :
      (h handle : Handle) (c : A) (ns : List (Handle × A))
      → handle_eq h handle ≡ false
      → namespace_at ((h, c) ∷ ns) handle ≡ namespace_at ns handle
  unfolding namespace_at
  namespace_at-tail h handle c ns e = rw e refl

  -- An entry in front of two lists that agree.
  pub namespace_at-cons :
      (h handle : Handle) (c : A) (ns ms : List (Handle × A))
      → namespace_at ns handle ≡ namespace_at ms handle
      → namespace_at ((h, c) ∷ ns) handle ≡ namespace_at ((h, c) ∷ ms) handle
  unfolding namespace_at
  namespace_at-cons h handle c ns ms e =
      ap (λ (o : Option A). if handle_eq h handle then some c else o) e

  pub namespace_at-set :
      (ns : List (Handle × A)) (handle : Handle) (c : A)
      → namespace_at (set_namespace ns handle c) handle ≡ some c
  unfolding set_namespace
  namespace_at-set [] handle c = namespace_at-head handle handle c [] (handle_eq_self handle)
  namespace_at-set ((h, x) ∷ ns) handle c =
      if_split (λ (l : List (Handle × A)). namespace_at l handle ≡ some c) (handle_eq h handle)
        ((h, c) ∷ ns) ((h, x) ∷ set_namespace ns handle c) (λ e. namespace_at-head h handle c ns e)
        (λ e.
          namespace_at-tail h handle x (set_namespace ns handle c) e ∙ namespace_at-set ns handle c)

  pub namespace_at-set_other :
      (ns : List (Handle × A)) (handle other : Handle) (c : A)
      → handle_eq handle other ≡ false
      → namespace_at (set_namespace ns handle c) other ≡ namespace_at ns other
  unfolding set_namespace
  namespace_at-set_other [] handle other c n = namespace_at-tail handle other c [] n
  namespace_at-set_other ((h, x) ∷ ns) handle other c n =
      if_split (λ (l : List (Handle × A)). namespace_at l other ≡ namespace_at ((h, x) ∷ ns) other)
        (handle_eq h handle) ((h, c) ∷ ns) ((h, x) ∷ set_namespace ns handle c)
        (λ e.
          let n' : handle_eq h other ≡ false =
            subst (λ (k : Handle). handle_eq k other ≡ false) (sym (handle_eq_sound h handle e))
              n in
          namespace_at-tail h other c ns n' ∙ sym (namespace_at-tail h other x ns n'))
        (λ e.
          namespace_at-cons h other x (set_namespace ns handle c) ns
            (namespace_at-set_other ns handle other c n))

module _ {B : Btree} (start : List (Handle × Collection B)) (old : Collection B) where
  -- The local database has the oplog, which extends `old`, and else what it has in `start`.
  pub record IsSteady (ns : List (Handle × Collection B)) : Type 0 where
    pub oplog : (c : Collection B) × (namespace_at ns oplog_handle ≡ some c) × Grown old c
    pub others :
        (h : Handle)
        → IsLocal h
        → handle_eq oplog_handle h ≡ false
        → namespace_at ns h ≡ namespace_at start h

  -- The lists agree on the local database.
  pub same-IsSteady :
      (ns ms : List (Handle × Collection B))
      → ((h : Handle) → IsLocal h → namespace_at ms h ≡ namespace_at ns h)
      → IsSteady ns
      → IsSteady ms
  same-IsSteady ns ms same s =
      let (c, e, g) = s.oplog in
      record {
        oplog = (c, same oplog_handle (text_eq_self local) ∙ e, g);
        others = λ h l n. same h l ∙ s.others h l n;
      }

  pub set_user-IsSteady :
      (ns : List (Handle × Collection B)) (handle : Handle) (c : Collection B)
      → IsUser handle
      → IsSteady ns
      → IsSteady (set_namespace ns handle c)
  set_user-IsSteady ns handle c u s =
      same-IsSteady ns (set_namespace ns handle c)
        (λ h l. namespace_at-set_other ns handle h c (user-other handle h u l)) s

  pub set_oplog-IsSteady :
      (ns : List (Handle × Collection B)) (c : Collection B)
      → Grown old c
      → IsSteady ns
      → IsSteady (set_namespace ns oplog_handle c)
  set_oplog-IsSteady ns c g s = record {
    oplog = (c, namespace_at-set ns oplog_handle c, g);
    others = λ h l n. namespace_at-set_other ns oplog_handle h c n ∙ s.others h l n;
  }

  pub oplog-Grown :
      (ns : List (Handle × Collection B)) (c : Collection B)
      → or_panic (namespace_at ns oplog_handle) ≡ ok c
      → IsSteady ns
      → Grown old c
  unfolding or_panic
  oplog-Grown ns c h s =
      let (c', e, g) = s.oplog in
      subst (λ (x : Collection B). Grown old x)
        (ok_injective (sym (ap (λ (o : Option (Collection B)). or_panic o) e) ∙ h)) g

  pub commit_if-IsSteady :
      (changed : Bool) (t : Transaction B) (handle : Handle) (c oplog : Collection B)
      → IsUser handle
      → Grown old oplog
      → IsSteady t.catalog.namespaces
      → IsSteady (commit_if changed t handle c oplog).catalog.namespaces
  unfolding commit_if commit
  commit_if-IsSteady true t handle c oplog u g s =
      set_oplog-IsSteady (set_namespace t.catalog.namespaces handle c) oplog g
        (set_user-IsSteady t.catalog.namespaces handle c u s)
  commit_if-IsSteady false t handle c oplog u g s = s
