-- ===== src/Bsonkit/Index/Laws.antt =====
-- bsonkit/index.go: what an index holds, over any btree that behaves as documented.
use lungo.Base.{
  Ordering, refl, ◌≡◌, ◌⊎◌, inl, inr, sym, subst, ◌∙◌, Bool, true, false, List, [], ◌∷◌, none,
  Option-cases, Bool-cases, Mem, ◌↔◌, arith,
}
use lungo.Bsonkit.Number.{Numerics, Decimal}
use lungo.Bsonkit.Sort.{Doc, Column, order}
use lungo.Bsonkit.Index.Order.{Exact, index_less-IsOrder}
use lungo.Bsonkit.Index.{
  index_less, new_index, Btree, IsOrder, BtreeLaws, BtreeContract, same_key, same_key_comm, add,
  has, remove, list,
}

true-false : {b : Bool} → b ≡ true → b ≡ false → {A : Type 0} → A
true-false h k = ground arith

-- A call of an operation, and a sequence of calls with their answers.
pub data Call : Type 0 where
  add_call : Doc → Call
  has_call : Doc → Call
  remove_call : Doc → Call

abbrev pub argument : Call → Doc
argument (add_call d) = d
argument (has_call d) = d
argument (remove_call d) = d

-- The arguments are documents of a domain.
abbrev pub AllIn : (Doc → Type 0) → List Call → Type 0
AllIn D [] = Unit
AllIn D (c ∷ cs) = D (argument c) × AllIn D cs

module _ (B : Btree) where
  unfoldable pub call : Call → B.Tree → Bool × B.Tree
  unfolding add has remove
  call (add_call d) t = add B t d
  call (has_call d) t = (has B t d, t)
  call (remove_call d) t = remove B t d

  unfoldable pub run : B.Tree → List Call → List Bool × B.Tree
  unfolding call
  run t [] = ([], t)
  run t (c ∷ cs) = let done = call c t in let rest = run done.1 cs in (done.0 ∷ rest.0, rest.1)

module _ (B : Btree) (less : Doc → Doc → Bool) (D : Doc → Type 0) (L : BtreeLaws B less D) where
  -- No two documents of the index have one key.
  abbrev pub IsUnique : B.Tree → Type 0
  IsUnique t = (x y : Doc) → Mem x (B.scan t) → Mem y (B.scan t) → same_key less x y ≡ true → x ≡ y

  -- A tree that comes from New, and holds each key once.
  abbrev pub IsIndex : B.Tree → Type 0
  IsIndex t = L.IsTree t × IsUnique t

  new_or_old :
      (t : B.Tree) (d x y : Doc)
      → L.IsTree t
      → D d
      → B.get t d ≡ none
      → IsUnique t
      → (x ≡ d) ⊎ Mem x (B.scan t)
      → (y ≡ d) ⊎ Mem y (B.scan t)
      → same_key less x y ≡ true
      → x ≡ y
  new_or_old t d x y v dd h u (inl p) (inl q) s = p ∙ sym q
  new_or_old t d x y v dd h u (inl p) (inr m) s =
      true-false (same_key_comm less y d ∙ subst (λ z. same_key less z y ≡ true) p s)
        (L.get-none t d y v dd h m)
  new_or_old t d x y v dd h u (inr m) (inl q) s =
      true-false (subst (λ z. same_key less x z ≡ true) q s) (L.get-none t d x v dd h m)
  new_or_old t d x y v dd h u (inr m) (inr n) s = u x y m n s

  IsUnique-set :
      (t : B.Tree) (d : Doc)
      → L.IsTree t
      → D d
      → B.get t d ≡ none
      → IsUnique t
      → IsUnique (B.set t d)
  IsUnique-set t d v dd h u x y mx my s =
      new_or_old t d x y v dd h u ((L.scan-set t d x v dd h).0 mx) ((L.scan-set t d y v dd h).0 my)
        s

  delete-Mem :
      (t : B.Tree) (d x : Doc)
      → L.IsTree t
      → D d
      → Mem x (B.scan (B.delete t d).1)
      → Mem x (B.scan t)
  delete-Mem t d x v dd m = elim (Option-cases (B.get t d)) [
    | inl h ↦ (L.scan-delete-none t d x v dd h).0 m
    | inr (e, h) ↦ ((L.scan-delete-some t d e x v dd h).0 m).0
  ]

  IsUnique-delete :
      (t : B.Tree) (d : Doc) → L.IsTree t → D d → IsUnique t → IsUnique (B.delete t d).1
  IsUnique-delete t d v dd u x y mx my s =
      u x y (delete-Mem t d x v dd mx) (delete-Mem t d y v dd my) s

  -- Delete leaves the items with another key.
  pub scan-delete :
      (t : B.Tree) (d x : Doc)
      → IsOrder less D
      → IsIndex t
      → D d
      → Mem x (B.scan (B.delete t d).1) ↔ (Mem x (B.scan t) × (same_key less x d ≡ false))
  scan-delete t d x o (v, u) dd = elim (Option-cases (B.get t d)) [
    | inl h ↦ (
      λ m. let n = (L.scan-delete-none t d x v dd h).0 m in (n, L.get-none t d x v dd h n),
      λ (n, k). (L.scan-delete-none t d x v dd h).1 n,
    )
    | inr (e, h) ↦
        let (me, ke) = L.get-some t d e v dd h in
        (
          λ m.
              let (n, ne) = (L.scan-delete-some t d e x v dd h).0 m in
              (
                n,
                elim (Bool-cases (same_key less x d)) [
                  | inr k ↦ k
                  | inl k ↦ absurd (
                      ne (
                        u x e n me (
                          o.same_key_trans x d e (L.scan-domain t x v n) dd (L.scan-domain t e v me)
                            k (same_key_comm less d e ∙ ke))))
                ],
              ),
          λ (n, k).
              (L.scan-delete-some t d e x v dd h).1
                (n, λ q. true-false ke (subst (λ z. same_key less z d ≡ false) q k)),
        )
  ]

  pub IsIndex-new : IsIndex (B.new_tree less)
  IsIndex-new = (L.IsTree-new, λ x y mx my s. elim (subst (λ xs. Mem x xs) L.scan-new mx) [ ])

  pub IsIndex-add : (t : B.Tree) (d : Doc) → IsIndex t → D d → IsIndex (add B t d).1
  unfolding add
  IsIndex-add t d (v, u) dd = elim (Option-cases (B.get t d)) [
    | inl h ↦ rw (h, add) (L.IsTree-set t d v dd, IsUnique-set t d v dd h u)
    | inr (e, h) ↦ rw (h, add) (v, u)
  ]

  pub IsIndex-remove : (t : B.Tree) (d : Doc) → IsIndex t → D d → IsIndex (remove B t d).1
  unfolding remove
  IsIndex-remove t d (v, u) dd = elim (Option-cases (B.delete t d).0) [
    | inl h ↦ rw (h, remove) (L.IsTree-delete t d v dd, IsUnique-delete t d v dd u)
    | inr (e, h) ↦ rw (h, remove) (L.IsTree-delete t d v dd, IsUnique-delete t d v dd u)
  ]

  pub IsIndex-call : (c : Call) (t : B.Tree) → IsIndex t → D (argument c) → IsIndex (call B c t).1
  unfolding call
  IsIndex-call (add_call d) t v dd = IsIndex-add t d v dd
  IsIndex-call (has_call d) t v dd = v
  IsIndex-call (remove_call d) t v dd = IsIndex-remove t d v dd

  IsIndex-run : (cs : List Call) (t : B.Tree) → IsIndex t → AllIn D cs → IsIndex (run B t cs).1
  unfolding run
  IsIndex-run [] t v ds = v
  IsIndex-run (c ∷ cs) t v (d, ds) = IsIndex-run cs (call B c t).1 (IsIndex-call c t v d) ds

  run-IsUnique : (cs : List Call) → AllIn D cs → IsUnique (run B (B.new_tree less) cs).1
  run-IsUnique cs ds = (IsIndex-run cs (B.new_tree less) IsIndex-new ds).1

module _ (B : Btree) (ar : Numerics) (columns : List Column) (K : BtreeContract B)
    (cmp_self : (a : Decimal) → ar.decimal_cmp a a ≡ Ordering.eq) where
  -- Whatever is called on a unique index that NewIndex made, with documents whose values in the
  -- columns hold integers only and no regular expression, it never holds two documents that Order
  -- leaves equal in its columns. The btree obeys its laws for a comparator that is an order of its
  -- items, and Cmp of the decimal package answers 0 for equal decimals.
  pub run_unique :
      (cs : List Call) (x y : Doc)
      → AllIn (Exact columns) cs
      → Mem x (list B (run B (new_index B ar true columns) cs).1)
      → Mem y (list B (run B (new_index B ar true columns) cs).1)
      → order ar x y columns false ≡ Ordering.eq
      → order ar y x columns false ≡ Ordering.eq
      → x ≡ y
  unfolding new_index index_less
  run_unique cs x y ds mx my e f =
      run-IsUnique B (index_less ar true columns) (Exact columns)
        (K.laws (index_less ar true columns) (Exact columns)
          (index_less-IsOrder ar cmp_self true columns))
        cs ds x y mx my (rw (e, f) refl)
