-- ===== src/Mongokit/Find/Members.antt =====
-- The documents that Filter and Find answer are documents of the list, and none twice if none is
-- twice there.
use lungo.Base.{
  ℕ, zero, suc, ◌≡◌, subst, inl, inr, Bool, true, false, List, [], ◌∷◌, ℤ, pos, negsuc, Option,
  none, some, Result-cases, Mem, Result, Failure, ok, fail, bind-ok, ok_injective, take, drop,
  length, if_both,
}
use lungo.Bsonkit.Lists.{is_full}
use lungo.Bsonkit.Value.{Fields, end, field}
use lungo.Bsonkit.Number.{Numerics}
use lungo.Bsonkit.Sort.{Doc}
use lungo.Mongokit.Query.{SchemaCheck, match}
use lungo.Mongokit.Filter.{filter, columns}
use lungo.Mongokit.Filter.Laws.{matching, matching-fail, matching-ok, capped, filter-capped}
use lungo.Mongokit.Find.{find, sorted, sort, sort_by, skip_docs, adjust_limit}
use lungo.Mongokit.Find.Laws.{skip_docs_lem}

abbrev pub IsDistinct : List Doc → Type 0
IsDistinct [] = Unit
IsDistinct (x ∷ xs) = ¬ (Mem x xs) × IsDistinct xs

-- A part of a list: no document is new, and none comes twice that came once.
abbrev pub IsPart : List Doc → List Doc → Type 0
IsPart ys xs = ((x : Doc) → Mem x ys → Mem x xs) × (IsDistinct xs → IsDistinct ys)

pub IsPart-trans : (zs ys xs : List Doc) → IsPart zs ys → IsPart ys xs → IsPart zs xs
IsPart-trans zs ys xs (m, d) (m', d') = (λ x k. m' x (m x k), λ u. d (d' u))

IsPart-nil : (xs : List Doc) → IsPart [] xs
IsPart-nil xs = (λ x m. elim m [ ], λ u. tt)

pub IsPart-cons : (x : Doc) (ys xs : List Doc) → IsPart ys xs → IsPart (x ∷ ys) (x ∷ xs)
IsPart-cons x ys xs (m, d) =
    (λ y k. elim k [ inl e ↦ inl e | inr n ↦ inr (m y n) ], λ (new, u). (λ n. new (m x n), d u))

IsPart-tail : (x : Doc) (ys xs : List Doc) → IsPart ys xs → IsPart ys (x ∷ xs)
IsPart-tail x ys xs (m, d) = (λ y k. inr (m y k), λ (new, u). d u)

IsPart-take : (n : ℕ) (xs : List Doc) → IsPart (take n xs) xs
IsPart-take zero xs = IsPart-nil xs
IsPart-take (suc n) [] = IsPart-nil []
IsPart-take (suc n) (x ∷ xs) = IsPart-cons x (take n xs) xs (IsPart-take n xs)

IsPart-drop : (n : ℕ) (xs : List Doc) → IsPart (drop n xs) xs
IsPart-drop zero xs = (λ x m. m, λ u. u)
IsPart-drop (suc n) [] = IsPart-nil []
IsPart-drop (suc n) (x ∷ xs) = IsPart-tail x (drop n xs) xs (IsPart-drop n xs)

capped-IsPart : (limit : ℤ) (m : List Doc × Option Failure) → IsPart (capped limit m).0 m.0
unfolding capped
capped-IsPart (pos n) m =
    if_both (λ (r : List Doc × Option Failure). IsPart r.0 m.0) (is_full (pos n) (length m.0))
      (IsPart-take n m.0) (λ x k. k, λ u. u)
capped-IsPart (negsuc n) m = (λ x k. k, λ u. u)

module _ (ar : Numerics) (schema : SchemaCheck) (query : Fields) where
  matching-IsPart : (list : List Doc) → IsPart (matching ar schema query list).0 list
  unfolding matching
  matching-IsPart [] = IsPart-nil []
  matching-IsPart (d ∷ ds) = elim (Result-cases (match ar schema d.content query)) [
    | inr (e, m) ↦ rw (matching-fail ar schema query d ds e m) (IsPart-nil (d ∷ ds))
    | inl (true, m) ↦
        rw (matching-ok ar schema query d ds true m)
          (IsPart-cons d (matching ar schema query ds).0 ds (matching-IsPart ds))
    | inl (false, m) ↦
        rw (matching-ok ar schema query d ds false m)
          (IsPart-tail d (matching ar schema query ds).0 ds (matching-IsPart ds))
  ]

  pub filter-IsPart :
      (list : List Doc) (limit : ℤ) → IsPart (filter ar schema list query limit).0 list
  filter-IsPart list limit = rw (filter-capped ar schema query list limit) (
      IsPart-trans (capped limit (matching ar schema query list)).0
        (matching ar schema query list).0 list (capped-IsPart limit (matching ar schema query list))
        (matching-IsPart list))

-- sort.Slice permutes the list.
pub record IsSort (sort_slice : (Doc → Doc → Bool) → List Doc → List Doc) : Type 0 where
  pub part : (less : Doc → Doc → Bool) (xs : List Doc) → IsPart (sort_slice less xs) xs

module _ (ar : Numerics) (schema : SchemaCheck)
    (sort_slice : (Doc → Doc → Bool) → List Doc → List Doc) (S : IsSort sort_slice) where
  pub sorted-IsPart :
      (documents list : List Doc) (order_by : Fields)
      → sorted ar schema sort_slice documents order_by ≡ ok list
      → IsPart list documents
  unfolding sorted sort sort_by
  sorted-IsPart documents list end h =
      subst (λ l. IsPart l documents) (ok_injective h) (λ x m. m, λ u. u)
  sorted-IsPart documents list (field k v fs) h =
      let (cs, e, h') = bind-ok (columns ar (field k v fs)) _ list h in
      subst (λ l. IsPart l documents) (ok_injective h') (S.part _ documents)

  unskipped : (found : List Doc × Option Failure) (skip : ℕ) → Result (List Doc)
  unskipped found skip = elim found.1 [ some e ↦ fail e | none ↦ ok (skip_docs skip found.0) ]

  unskipped-IsPart :
      (found : List Doc × Option Failure) (skip : ℕ) (list : List Doc)
      → unskipped found skip ≡ ok list
      → IsPart list found.0
  unfolding unskipped
  unskipped-IsPart (xs, none) skip list h =
      subst (λ l. IsPart l xs) (ok_injective h) (rw (skip_docs_lem skip xs) (IsPart-drop skip xs))
  unskipped-IsPart (xs, some e) skip list h = cc

  -- What Find answers is a part of the documents.
  pub find-IsPart :
      (documents list : List Doc) (query order_by : Fields) (skip : ℕ) (limit : ℤ)
      → find ar schema sort_slice documents query order_by skip limit ≡ ok list
      → IsPart list documents
  unfolding find unskipped
  find-IsPart documents list query order_by skip limit h =
      let (all, e, k) = bind-ok (sorted ar schema sort_slice documents order_by) _ list h in
      let found = filter ar schema all query (adjust_limit limit skip) in
      IsPart-trans list found.0 documents (unskipped-IsPart found skip list k) (
        IsPart-trans found.0 all documents
          (filter-IsPart ar schema query all (adjust_limit limit skip))
          (sorted-IsPart documents all order_by e))
