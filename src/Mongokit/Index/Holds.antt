-- ===== src/Mongokit/Index/Holds.antt =====
-- mongokit/index.go: which documents an index holds, as a predicate, and what its operations do to
-- it. An index holds the documents of the predicate that its filter accepts, each key once.
use lungo.Base.{
  ◌≡◌, ◌≢◌, ◌↔◌, ◌⊎◌, inl, inr, refl, sym, ap, subst, ◌∙◌, Bool, true, false, List, none,
  Bool-cases, Result-cases, Mem, Ordering, Failure, ok, fail, ok_injective, not, arith,
}
use lungo.Bsonkit.Number.{Numerics, Decimal}
use lungo.Bsonkit.Sort.{Doc, Column}
use lungo.Bsonkit.Index as Base
use lungo.Bsonkit.Index.{Btree, BtreeLaws, BtreeContract, same_key, index_less}
use lungo.Bsonkit.Index.Order.{order_self}
use lungo.Mongokit.Index.Plain.{Plain, index_less-Plain}
use lungo.Bsonkit.Index.Laws.{IsIndex, IsIndex-add, IsIndex-remove, scan-delete}
use lungo.Mongokit.Query.{SchemaCheck}
use lungo.Mongokit.Index.{Index, accepts, add, remove}

-- What the development relies on: a btree that obeys its laws for a comparator that is an order of
-- its items, and decimals that are equal to themselves.
pub record Trust (B : Btree) (ar : Numerics) : Type 1 where
  pub contract : BtreeContract B
  pub cmp_self : (a : Decimal) → ar.decimal_cmp a a ≡ Ordering.eq

pub trees :
    {B : Btree} {ar : Numerics}
    → Trust B ar
    → (unique : Bool) (cs : List Column) → BtreeLaws B (index_less ar unique cs) Plain
trees {ar} T unique cs =
    T.contract.laws (index_less ar unique cs) Plain (index_less-Plain ar T.cmp_self unique cs)

module _ (ar : Numerics) (cmp_self : (a : Decimal) → ar.decimal_cmp a a ≡ Ordering.eq) where
  same_key_self :
      (unique : Bool) (cs : List Column) (d : Doc) → same_key (index_less ar unique cs) d d ≡ true
  unfolding index_less
  same_key_self unique cs d = rw (order_self ar cmp_self cs d (not unique)) refl

not_both : {b : Bool} → b ≡ true → b ≡ false → {A : Type 0} → A
not_both h k = cc

module _ (B : Btree) (less : Doc → Doc → Bool) (L : BtreeLaws B less Plain) where
  added-get : (t : B.Tree) (d : Doc) → (Base.add B t d).0 ≡ true → B.get t d ≡ none
  unfolding Base.add
  added-get t d h = ground arith

  added-set : (t : B.Tree) (d : Doc) → B.get t d ≡ none → (Base.add B t d).1 ≡ B.set t d
  unfolding Base.add
  added-set t d h = rw (h, Base.add) refl

  removed-delete : (t : B.Tree) (d : Doc) → (Base.remove B t d).1 ≡ (B.delete t d).1
  unfolding Base.remove
  removed-delete t d = ground arith

  -- In a tree without two documents of one key, the documents with another key than that of one of
  -- them are the others.
  other_key :
      (t : B.Tree) (d x : Doc)
      → IsIndex B less Plain L t
      → same_key less d d ≡ true
      → Mem d (B.scan t)
      → Mem x (B.scan t)
      → (same_key less x d ≡ false) ↔ (x ≢ d)
  other_key t d x (v, u) self md mx = (
    λ k e. not_both self (subst (λ y. same_key less y d ≡ false) e k),
    λ ne. elim (Bool-cases (same_key less x d)) [ inl k ↦ absurd (ne (u x d mx md k)) | inr k ↦ k ],
  )

module _ {B : Btree} (ar : Numerics) (schema : SchemaCheck) (T : Trust B ar) where
  abbrev pub Accepted : Index B → Doc → Type 0
  Accepted i d = accepts ar schema i.config.partial d ≡ ok true

  abbrev less_of : Index B → Doc → Doc → Bool
  less_of i = index_less ar i.config.unique i.index_columns

  abbrev laws_of : (i : Index B) → BtreeLaws B (less_of i) Plain
  laws_of i = trees T i.config.unique i.index_columns

  pub record Holds (i : Index B) (P : Doc → Type 0) : Type 0 where
    pub index : IsIndex B (less_of i) Plain (laws_of i) i.base
    pub within : (x : Doc) → P x → Plain x
    pub members : (x : Doc) → Mem x (B.scan i.base) ↔ (P x × Accepted i x)

  pub Holds-iff :
      (i : Index B) (P Q : Doc → Type 0) → ((x : Doc) → P x ↔ Q x) → Holds i P → Holds i Q
  Holds-iff i P Q h v = record {
    index = v.index;
    within = λ x q. v.within x ((h x).1 q);
    members = λ x. (
      λ m. let (p, a) = (v.members x).0 m in ((h x).0 p, a),
      λ (q, a). (v.members x).1 ((h x).1 q, a),
    );
  }

  module _ (i : Index B) (d : Doc) where
    add-Accepted :
        Accepted i d
        → add ar schema i d
          ≡ ok ((Base.add B i.base d).0, record i { base = (Base.add B i.base d).1 })
    unfolding add
    add-Accepted e = rw e refl

    add_refused : accepts ar schema i.config.partial d ≡ ok false → add ar schema i d ≡ ok (true, i)
    unfolding add
    add_refused e = rw e refl

    remove-Accepted :
        Accepted i d
        → remove ar schema i d
          ≡ ok ((Base.remove B i.base d).0, record i { base = (Base.remove B i.base d).1 })
    unfolding remove
    remove-Accepted e = rw e refl

    remove_refused :
        accepts ar schema i.config.partial d ≡ ok false → remove ar schema i d ≡ ok (true, i)
    unfolding remove
    remove_refused e = rw e refl

    add_failed :
        (f : Failure) → accepts ar schema i.config.partial d ≡ fail f → add ar schema i d ≡ fail f
    unfolding add
    add_failed f e = rw e refl

    remove_failed :
        (f : Failure)
        → accepts ar schema i.config.partial d ≡ fail f
        → remove ar schema i d ≡ fail f
    unfolding remove
    remove_failed f e = rw e refl

  not_ok_false :
      (i : Index B) (d : Doc)
      → accepts ar schema i.config.partial d ≡ ok false
      → Accepted i d
      → {A : Type 0} → A
  not_ok_false i d h k = cc

  set-Holds :
      (i : Index B) (P : Doc → Type 0) (d : Doc)
      → Holds i P
      → Plain d
      → Accepted i d
      → B.get i.base d ≡ none
      → Holds (record i { base = B.set i.base d }) (λ x. (x ≡ d) ⊎ P x)
  set-Holds i P d v dd a g =
      let L = laws_of i in
      record {
        index =
            subst (λ (t : B.Tree). IsIndex B (less_of i) Plain L t)
              (added-set B (less_of i) L i.base d g)
              (IsIndex-add B (less_of i) Plain L i.base d v.index dd);
        within = λ x q. elim q [ inl e ↦ subst (λ y. Plain y) (sym e) dd | inr p ↦ v.within x p ];
        members = λ x. (
          λ m. elim ((L.scan-set i.base d x v.index.0 dd g).0 m) [
            | inl e ↦ (inl e, subst (λ y. Accepted i y) (sym e) a)
            | inr n ↦ let (p, b) = (v.members x).0 n in (inr p, b)
          ],
          λ (q, b). elim q [
            | inl e ↦ (L.scan-set i.base d x v.index.0 dd g).1 (inl e)
            | inr p ↦ (L.scan-set i.base d x v.index.0 dd g).1 (inr ((v.members x).1 (p, b)))
          ],
        );
      }

  -- A document that Add takes joins the predicate.
  pub add-Holds :
      (i i' : Index B) (P : Doc → Type 0) (d : Doc)
      → add ar schema i d ≡ ok (true, i')
      → Plain d
      → Holds i P
      → Holds i' (λ x. (x ≡ d) ⊎ P x)
  add-Holds i i' P d h dd v = elim (Result-cases (accepts ar schema i.config.partial d)) [
    | inr (f, e) ↦ cc (sym (add_failed i d f e) ∙ h)
    | inl (true, e) ↦
        let same = ok_injective (sym (add-Accepted i d e) ∙ h) in
        let g =
          added-get B (less_of i) (laws_of i) i.base d (ap (λ (r : Bool × Index B). r.0) same) in
        let t : record i { base = B.set i.base d } ≡ i' =
          ap (λ (t : B.Tree). record i { base = t })
            (sym (added-set B (less_of i) (laws_of i) i.base d g))
          ∙ ap (λ (r : Bool × Index B). r.1) same in
        subst (λ (j : Index B). Holds j (λ x. (x ≡ d) ⊎ P x)) t (set-Holds i P d v dd e g)
    | inl (false, e) ↦
        let same = ok_injective (sym (add_refused i d e) ∙ h) in
        subst (λ (j : Index B). Holds j (λ x. (x ≡ d) ⊎ P x))
          (ap (λ (r : Bool × Index B). r.1) same)
          (record {
            index = v.index;
            within =
                λ x q. elim q [ inl k ↦ subst (λ y. Plain y) (sym k) dd | inr p ↦ v.within x p ];
            members = λ x. (
              λ m. let (p, a) = (v.members x).0 m in (inr p, a),
              λ (q, a). elim q [
                | inl k ↦ not_ok_false i d e (subst (λ y. Accepted i y) k a)
                | inr p ↦ (v.members x).1 (p, a)
              ],
            );
          })
  ]

  delete-Holds :
      (i : Index B) (P : Doc → Type 0) (d : Doc)
      → Holds i P
      → Accepted i d
      → P d
      → Holds (record i { base = (B.delete i.base d).1 }) (λ x. P x × (x ≢ d))
  delete-Holds i P d v a pd =
      let L = laws_of i in
      let dd = v.within d pd in
      let o = index_less-Plain ar T.cmp_self i.config.unique i.index_columns in
      let md = (v.members d).1 (pd, a) in
      let self = same_key_self ar T.cmp_self i.config.unique i.index_columns d in
      record {
        index =
            subst (λ (t : B.Tree). IsIndex B (less_of i) Plain L t)
              (removed-delete B (less_of i) L i.base d)
              (IsIndex-remove B (less_of i) Plain L i.base d v.index dd);
        within = λ x q. v.within x q.0;
        members = λ x. (
          λ m.
              let (n, k) = (scan-delete B (less_of i) Plain L i.base d x o v.index dd).0 m in
              let (p, b) = (v.members x).0 n in
              ((p, (other_key B (less_of i) L i.base d x v.index self md n).0 k), b),
          λ ((p, ne), b).
              let n = (v.members x).1 (p, b) in
              (scan-delete B (less_of i) Plain L i.base d x o v.index dd).1
                (n, (other_key B (less_of i) L i.base d x v.index self md n).1 ne),
        );
      }

  -- A document of the predicate that Remove takes out leaves it.
  pub remove-Holds :
      (i i' : Index B) (P : Doc → Type 0) (d : Doc)
      → remove ar schema i d ≡ ok (true, i')
      → P d
      → Holds i P
      → Holds i' (λ x. P x × (x ≢ d))
  remove-Holds i i' P d h pd v = elim (Result-cases (accepts ar schema i.config.partial d)) [
    | inr (f, e) ↦ cc (sym (remove_failed i d f e) ∙ h)
    | inl (true, e) ↦
        let same = ok_injective (sym (remove-Accepted i d e) ∙ h) in
        let t : record i { base = (B.delete i.base d).1 } ≡ i' =
          ap (λ (t : B.Tree). record i { base = t })
            (sym (removed-delete B (less_of i) (laws_of i) i.base d))
          ∙ ap (λ (r : Bool × Index B). r.1) same in
        subst (λ (j : Index B). Holds j (λ x. P x × (x ≢ d))) t (delete-Holds i P d v e pd)
    | inl (false, e) ↦
        let same = ok_injective (sym (remove_refused i d e) ∙ h) in
        subst (λ (j : Index B). Holds j (λ x. P x × (x ≢ d)))
          (ap (λ (r : Bool × Index B). r.1) same)
          (record {
            index = v.index;
            within = λ x q. v.within x q.0;
            members = λ x. (
              λ m.
                  let (p, a) = (v.members x).0 m in
                  ((p, λ k. not_ok_false i d e (subst (λ y. Accepted i y) k a)), a),
              λ ((p, ne), a). (v.members x).1 (p, a),
            );
          })
  ]
