-- ===== src/Tests/Sorting.antt =====
-- An insertion sort in the place of sort.Slice, which does what its laws say, and Find over it.
use mathlib.Core.List.Perm
use lungo.Base.{
  ◌≡◌, inl, inr, refl, sym, subst, Bool, true, false, List, [], ◌∷◌, Mem, Perm, arith, Bool-cases,
  if_both, is_lt, text_eq, pos, ok,
}
use lungo.Bsonkit.Number.{compare_int64s}
use lungo.Bsonkit.Compare as C
use lungo.Bsonkit.Access.{get_path}
use lungo.Bsonkit.Sort.{Doc, order}
use lungo.Bsonkit.Sort.Laws.{are_exact}
use lungo.Bsonkit.Index.{IsOrder}
use lungo.Bsonkit.Index.Order.{Exact}
use lungo.Mongokit.Filter.{columns, direction_of}
use lungo.Mongokit.Filter.Laws.{matching}
use lungo.Mongokit.Find.{find}
use lungo.Mongokit.Find.Laws.{page}
use lungo.Mongokit.Find.Order.{IsSorted, SliceLaws, find-page}
use lungo.Tests.{numerics, any_schema}
use lungo.Tests.Find.{insertion_sort, insert_by, docs, by_n, above_two, downwards}
use lungo.Tests.Collection.{IsPart-insert_by, IsPart-insertion_sort, compare_int64s_self}

permutes_by :
    (less : Doc → Doc → Bool) (d : Doc) (xs : List Doc) → Perm (insert_by less d xs) (d ∷ xs)
permutes_by less d [] = Perm.refl (d ∷ [])
permutes_by less d (y ∷ ys) =
    if_both (λ l. Perm l (d ∷ y ∷ ys)) (less d y) (Perm.refl (d ∷ y ∷ ys))
      (Perm.trans (Perm.cons y (permutes_by less d ys)) (Perm.swap d y ys))

permutes : (less : Doc → Doc → Bool) (xs : List Doc) → Perm (insertion_sort less xs) xs
permutes less [] = Perm.refl []
permutes less (x ∷ xs) =
    Perm.trans (permutes_by less x (insertion_sort less xs)) (Perm.cons x (permutes less xs))

true-false : {b : Bool} → b ≡ true → b ≡ false → {A : Type 0} → A
true-false h k = cc

module _ (less : Doc → Doc → Bool) (D : Doc → Type 0) (O : IsOrder less D) where
  not_before :
      (x y z : Doc) → D x → D y → D z → less z x ≡ false → less y x ≡ true → less z y ≡ false
  not_before x y z dx dy dz h k = elim (Bool-cases (less z y)) [
    | inr e ↦ e
    | inl e ↦ true-false (O.transitive z y x dz dy dx e k) h
  ]

  IsSorted-insert_by :
      (d : Doc) (xs : List Doc)
      → D d
      → ((x : Doc) → Mem x xs → D x)
      → IsSorted less xs
      → IsSorted less (insert_by less d xs)
  IsSorted-insert_by d [] dd ds s = (λ y m. elim m [ ], tt)
  IsSorted-insert_by d (e ∷ es) dd ds (low, s) = elim (Bool-cases (less d e)) [
    | inl h ↦
        subst (λ l. IsSorted less l) (sym (before h))
          (
            λ y m. elim m [
              | inl f ↦
                  not_before e d y (ds e (inl refl)) dd (ds y (inl f))
                    (subst (λ z. less z e ≡ false) (sym f) (O.irreflexive e (ds e (inl refl)))) h
              | inr n ↦ not_before e d y (ds e (inl refl)) dd (ds y (inr n)) (low y n) h
            ],
            (low, s),
          )
    | inr h ↦
        subst (λ l. IsSorted less l) (sym (behind h))
          (
            λ y m. elim ((IsPart-insert_by less d es).0 y m) [
              | inl f ↦ subst (λ z. less z e ≡ false) (sym f) h
              | inr n ↦ low y n
            ],
            IsSorted-insert_by d es dd (λ x n. ds x (inr n)) s,
          )
  ]
    where
      before : less d e ≡ true → insert_by less d (e ∷ es) ≡ d ∷ e ∷ es
      before h = rw h refl

      behind : less d e ≡ false → insert_by less d (e ∷ es) ≡ e ∷ insert_by less d es
      behind h = rw h refl

  sorts : (xs : List Doc) → ((x : Doc) → Mem x xs → D x) → IsSorted less (insertion_sort less xs)
  sorts [] ds = tt
  sorts (x ∷ xs) ds =
      IsSorted-insert_by x (insertion_sort less xs) (ds x (inl refl))
        (λ y m. ds y (inr ((IsPart-insertion_sort less xs).0 y m))) (sorts xs (λ y m. ds y (inr m)))

slice_laws : SliceLaws insertion_sort
slice_laws = record { permutes = permutes; sorts = λ less D xs O ds. sorts less D O xs ds }

program : Unit {0}
unfolding are_exact C.Order.is_exact get_path text_eq columns direction_of compare_int64s
program = tt

docs_exact : (x : Doc) → Mem x docs → Exact by_n x
unfolding program
docs_exact x (inl e) = subst (λ y. Exact by_n y) (sym e) refl
docs_exact x (inr (inl e)) = subst (λ y. Exact by_n y) (sym e) refl
docs_exact x (inr (inr (inl e))) = subst (λ y. Exact by_n y) (sym e) refl
docs_exact x (inr (inr (inr (inl e)))) = subst (λ y. Exact by_n y) (sym e) refl
docs_exact x (inr (inr (inr (inr m)))) = elim m [ ]

columns-downwards : columns numerics downwards ≡ ok by_n
unfolding program
columns-downwards = refl

find-page_example :
    (list : List Doc) × Perm list docs
    × IsSorted (λ x y. is_lt (order numerics x y by_n true)) list
    × (find numerics any_schema insertion_sort docs above_two downwards 1 (pos 1)
        ≡ page (pos 1) 1 (matching numerics any_schema above_two list))
find-page_example =
    find-page numerics any_schema insertion_sort slice_laws (λ a. compare_int64s_self a.0) docs
      above_two downwards 1 (pos 1) by_n (omega arith) columns-downwards docs_exact
