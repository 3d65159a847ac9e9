-- ===== src/Tests/Index.antt =====
-- The index over a list in the place of the btree, which does what the laws of the btree say.
use lungo.Base.{
  ℤ, ◌≡◌, ◌≢◌, ◌↔◌, ◌⊎◌, Ordering, inl, inr, refl, sym, ap, subst, ◌∙◌, Bool, true, false, List, [],
  ◌∷◌, Option, none, some, Bool-cases, if◌then◌else◌, Mem, arith, compare_text, text_eq,
}
use lungo.Bsonkit.Number.{compare_int64s, compare_numbers}
use lungo.Bsonkit.Compare as C
use lungo.Bsonkit.Access.{get_path}
use lungo.Bsonkit.Sort.{Doc, order, order_column}
use lungo.Bsonkit.Index.{
  Btree, BtreeLaws, BtreeContract, IsOrder, same_key, same_key_comm, index_less, new_index, add,
  has, remove, list,
}
use lungo.Bsonkit.Index.Order.{Exact}
use lungo.Bsonkit.Sort.Laws.{are_exact}
use lungo.Bsonkit.Compare.Order.{is_exact}
use lungo.Bsonkit.Index.Laws.{Call, add_call, has_call, remove_call, call, run, AllIn}
use lungo.Bsonkit.Index.Laws as Unique
use lungo.Bsonkit.Index.Refines.{any, without, Mem-without, without-Mem, run_spec, call_spec}
use lungo.Bsonkit.Index.Refines as Refined
use lungo.Tests.{numerics}
use lungo.Tests.Find.{numbered, by_n}

unfoldable pub first : (Doc → Bool) → List Doc → Option Doc
first p [] = none
first p (d ∷ ds) = let rest = first p ds in if p d then some d else rest

first-some :
    (p : Doc → Bool) (ds : List Doc) (e : Doc) → first p ds ≡ some e → Mem e ds × (p e ≡ true)
unfolding first
first-some p [] e h = ground arith
first-some p (d ∷ ds) e h = elim (Bool-cases (p d)) [
  | inl k ↦ let same : e ≡ d = ground arith in (inl same, ap p same ∙ k)
  | inr k ↦ let (m, q) = first-some p ds e (ground arith) in (inr m, q)
]

first-none : (p : Doc → Bool) (ds : List Doc) (e : Doc) → first p ds ≡ none → Mem e ds → p e ≡ false
unfolding first
first-none p [] e h m = elim m [ ]
first-none p (d ∷ ds) e h (inl m) = let no_d : p d ≡ false = ground arith in ap p m ∙ no_d
first-none p (d ∷ ds) e h (inr m) =
    let rest : first p ds ≡ none = ground arith in first-none p ds e rest m

abbrev pub list_tree : Btree
list_tree = record {
  Tree = (Doc → Doc → Bool) × List Doc;
  new_tree = λ less. (less, []);
  get = λ t d. first (λ e. same_key t.0 e d) t.1;
  set = λ t d. (t.0, d ∷ without (λ e. same_key t.0 e d) t.1);
  delete = λ t d. (first (λ e. same_key t.0 e d) t.1, (t.0, without (λ e. same_key t.0 e d) t.1));
  scan = λ t. t.1;
}

true-false : {b : Bool} → b ≡ true → b ≡ false → {A : Type 0} → A
true-false h k = ground arith

-- No two documents have one key.
abbrev AreApart : (Doc → Doc → Bool) → List Doc → Type 0
AreApart less ds = (x y : Doc) → Mem x ds → Mem y ds → same_key less x y ≡ true → x ≡ y

-- The trees of the list: documents of a domain, each key once.
abbrev IsListed : (Doc → Doc → Bool) → (Doc → Type 0) → list_tree.Tree → Type 0
IsListed less D t = (t.0 ≡ less) × ((x : Doc) → Mem x t.1 → D x) × AreApart t.0 t.1

module _ (less : Doc → Doc → Bool) (D : Doc → Type 0) (O : IsOrder less D) where
  -- What the order says in the comparator of a tree.
  abbrev Ordered : (Doc → Doc → Bool) → Type 0
  Ordered l = IsOrder l D

  tree_set :
      (t : list_tree.Tree) (d : Doc) → IsListed less D t → D d → IsListed less D (list_tree.set t d)
  tree_set t d (v, a, u) dd = (
    v,
    λ x m. elim m [
      | inl e ↦ subst (λ y. D y) (sym e) dd
      | inr n ↦ a x (Mem-without (λ e. same_key t.0 e d) t.1 x n).0
    ],
    λ x y mx my s. apart x y mx my s,
  )
    where
      apart : AreApart t.0 (d ∷ without (λ e. same_key t.0 e d) t.1)
      apart x y (inl e) (inl f) s = e ∙ sym f
      apart x y (inl e) (inr n) s =
          true-false (same_key_comm t.0 y d ∙ subst (λ z. same_key t.0 z y ≡ true) e s)
            (Mem-without (λ e. same_key t.0 e d) t.1 y n).1
      apart x y (inr m) (inl f) s =
          true-false (subst (λ z. same_key t.0 x z ≡ true) f s)
            (Mem-without (λ e. same_key t.0 e d) t.1 x m).1
      apart x y (inr m) (inr n) s =
          u x y (Mem-without (λ e. same_key t.0 e d) t.1 x m).0
            (Mem-without (λ e. same_key t.0 e d) t.1 y n).0 s

  tree_delete :
      (t : list_tree.Tree) (d : Doc)
      → IsListed less D t
      → D d
      → IsListed less D (list_tree.delete t d).1
  tree_delete t d (v, a, u) dd =
      let old : (x : Doc) → Mem x (without (λ e. same_key t.0 e d) t.1) → Mem x t.1 =
        λ x m. (Mem-without (λ e. same_key t.0 e d) t.1 x m).0 in
      (v, λ x m. a x (old x m), λ x y mx my s. u x y (old x mx) (old y my) s)

  tree_get-some :
      (t : list_tree.Tree) (d e : Doc)
      → t.0 ≡ less
      → list_tree.get t d ≡ some e
      → Mem e (list_tree.scan t) × (same_key less e d ≡ true)
  tree_get-some t d e v h =
      let (m, k) = first-some (λ x. same_key t.0 x d) t.1 e h in
      (m, subst (λ l. same_key l e d ≡ true) v k)

  tree_get-none :
      (t : list_tree.Tree) (d e : Doc)
      → list_tree.get t d ≡ none
      → Mem e (list_tree.scan t)
      → same_key t.0 e d ≡ false
  tree_get-none t d e h m = first-none (λ x. same_key t.0 x d) t.1 e h m

  tree_scan-set :
      (t : list_tree.Tree) (d x : Doc)
      → list_tree.get t d ≡ none
      → Mem x (list_tree.scan (list_tree.set t d)) ↔ ((x ≡ d) ⊎ Mem x (list_tree.scan t))
  tree_scan-set t d x h = (
    λ m. elim m [ inl e ↦ inl e | inr n ↦ inr (Mem-without (λ e. same_key t.0 e d) t.1 x n).0 ],
    λ m. elim m [
      | inl e ↦ inl e
      | inr n ↦ inr (without-Mem (λ e. same_key t.0 e d) t.1 x n (tree_get-none t d x h n))
    ],
  )

  tree_delete-none :
      (t : list_tree.Tree) (d x : Doc)
      → list_tree.get t d ≡ none
      → Mem x (list_tree.scan (list_tree.delete t d).1) ↔ Mem x (list_tree.scan t)
  tree_delete-none t d x h = (
    λ m. (Mem-without (λ e. same_key t.0 e d) t.1 x m).0,
    λ m. without-Mem (λ e. same_key t.0 e d) t.1 x m (tree_get-none t d x h m),
  )

  tree_delete-some :
      (t : list_tree.Tree) (d e x : Doc)
      → IsListed less D t
      → D d
      → list_tree.get t d ≡ some e
      → Mem x (list_tree.scan (list_tree.delete t d).1) ↔ (Mem x (list_tree.scan t) × (x ≢ e))
  tree_delete-some t d e x (v, a, u) dd h =
      let (me, ke) = first-some (λ x. same_key t.0 x d) t.1 e h in
      (
        λ m.
            let (n, k) = Mem-without (λ e. same_key t.0 e d) t.1 x m in
            (n, λ f. true-false ke (subst (λ z. same_key t.0 z d ≡ false) f k)),
        λ (n, ne).
            without-Mem (λ e. same_key t.0 e d) t.1 x n
              (elim (Bool-cases (same_key t.0 x d)) [
                | inr k ↦ k
                | inl k ↦
                    let o : IsOrder t.0 D = subst (λ l. IsOrder l D) (sym v) O in
                    absurd (
                      ne (
                        u x e n me (
                          o.same_key_trans x d e (a x n) dd (a e me) k
                            (same_key_comm t.0 d e ∙ ke))))
              ]),
      )

  tree_laws : BtreeLaws list_tree less D
  tree_laws = record {
    IsTree = λ t. IsListed less D t;
    IsTree-new = (refl, λ x m. elim m [ ], λ x y mx my s. elim mx [ ]);
    IsTree-set = tree_set;
    IsTree-delete = tree_delete;
    scan-domain = λ t x v m. v.1 x m;
    scan-new = refl;
    get-some = λ t d e v dd h. tree_get-some t d e v.0 h;
    get-none = λ t d e v dd h m. subst (λ l. same_key l e d ≡ false) v.0 (tree_get-none t d e h m);
    scan-set = λ t d x v dd h. tree_scan-set t d x h;
    delete-get = λ t d v dd. refl;
    scan-delete-none = λ t d x v dd h. tree_delete-none t d x h;
    scan-delete-some = tree_delete-some;
  }

pub contract : BtreeContract list_tree
contract = record { laws = tree_laws }

-- The second Add has the key of the first.
abbrev calls : List Call
calls =
    add_call (numbered 1 5)
    ∷ add_call (numbered 2 5)
    ∷ add_call (numbered 3 9)
    ∷ remove_call (numbered 4 9)
    ∷ has_call (numbered 5 9)
    ∷ []

program : Unit {0}
unfolding order order_column get_path C.compare C.compare_scalars compare_numbers compare_int64s
    compare_text text_eq index_less new_index add has remove call run any without call_spec run_spec
    first
program = tt

run_answers :
    (run list_tree (new_index list_tree numerics true by_n) calls).0
    ≡ true ∷ false ∷ true ∷ true ∷ false ∷ []
unfolding program
run_answers = refl

cmp_self : (z : ℤ) → compare_int64s z z ≡ Ordering.eq
unfolding compare_int64s
cmp_self z = ground arith

all_in : AllIn (Exact by_n) calls
unfolding program are_exact is_exact get_path
all_in = (refl, (refl, (refl, (refl, (refl, tt)))))

run-new_index_example :
    ((run list_tree (new_index list_tree numerics true by_n) calls).0
      ≡ (run_spec (index_less numerics true by_n) [] calls).0)
    × ((x : Doc)
        → Mem x (list list_tree (run list_tree (new_index list_tree numerics true by_n) calls).1)
          ↔ Mem x (run_spec (index_less numerics true by_n) [] calls).1)
run-new_index_example =
    Refined.run-new_index list_tree numerics true by_n contract (λ a. cmp_self a.0) calls all_in

run_unique_example : numbered 1 5 ≡ numbered 1 5
unfolding program
run_unique_example =
    Unique.run_unique list_tree numerics by_n contract (λ a. cmp_self a.0) calls (numbered 1 5)
      (numbered 1 5) all_in (inl refl) (inl refl) refl refl
