-- ===== src/Mongokit/Find/Order.antt =====
-- Find of mongokit/collection.go: the order of the documents that it pages through. Of sort.Slice it
-- uses that it permutes, and that it sorts where the comparator is an order of the elements.
use mathlib.Core.List.Perm
use lungo.Base.{
  ℕ, ◌+◌, ◌^◌, ◌<◌, ◌≡◌, refl, ap, subst, ◌∙◌, Bool, true, false, List, [], ◌∷◌, Mem, Perm, ℤ,
  pos_part, Ordering, is_lt, ok, ok_injective, ◌>>=◌,
}
use lungo.Bsonkit.Value.{Fields, end, field}
use lungo.Bsonkit.Number.{Numerics, Decimal}
use lungo.Bsonkit.Sort.{Doc, Column, order}
use lungo.Bsonkit.Index.{IsOrder, index_less}
use lungo.Bsonkit.Index.Order.{Exact, index_less-IsOrder}
use lungo.Mongokit.Query.{SchemaCheck}
use lungo.Mongokit.Filter.{columns}
use lungo.Mongokit.Filter.Laws.{matching}
use lungo.Mongokit.Find.{find, sorted, sort, sort_by}
use lungo.Mongokit.Find.Laws.{page, find-sorted}

-- No document comes before one in front of it.
abbrev pub IsSorted : (Doc → Doc → Bool) → List Doc → Type 0
IsSorted less [] = Unit
IsSorted less (x ∷ xs) = ((y : Doc) → Mem y xs → less y x ≡ false) × IsSorted less xs

-- What the package sort documents of Slice.
pub record SliceLaws (sort_slice : (Doc → Doc → Bool) → List Doc → List Doc) : Type 1 where
  pub permutes : (less : Doc → Doc → Bool) (xs : List Doc) → Perm (sort_slice less xs) xs
  pub sorts :
      (less : Doc → Doc → Bool) (D : Doc → Type 0) (xs : List Doc)
      → IsOrder less D
      → ((x : Doc) → Mem x xs → D x)
      → IsSorted less (sort_slice less xs)

-- A sort document that is not empty sorts, and then documents that are equal in the columns stand
-- in the order of their addresses.
abbrev pub has_columns : Fields → Bool
has_columns end = false
has_columns (field k v fs) = true

module _ (ar : Numerics) (schema : SchemaCheck)
    (sort_slice : (Doc → Doc → Bool) → List Doc → List Doc) (S : SliceLaws sort_slice)
    (cmp_self : (a : Decimal) → ar.decimal_cmp a a ≡ Ordering.eq) where
  abbrev comes_before : List Column → Bool → Doc → Doc → Bool
  comes_before cs identity x y = is_lt (order ar x y cs identity)

  unsorted : (xs : List Doc) → IsSorted (comes_before [] false) xs
  unfolding order
  unsorted [] = tt
  unsorted (x ∷ xs) = (λ y m. refl, unsorted xs)

  comes_before-IsOrder : (cs : List Column) → IsOrder (comes_before cs true) (Exact cs)
  unfolding index_less
  comes_before-IsOrder cs = index_less-IsOrder ar cmp_self false cs

  -- The sorting of Find.
  sorted-IsSorted :
      (documents : List Doc) (order_by : Fields) (cs : List Column)
      → columns ar order_by ≡ ok cs
      → ((x : Doc) → Mem x documents → Exact cs x)
      → (list : List Doc) × (sorted ar schema sort_slice documents order_by ≡ ok list)
        × Perm list documents
        × IsSorted (comes_before cs (has_columns order_by)) list
  unfolding sorted sort sort_by columns
  sorted-IsSorted documents end cs h d = (
    documents,
    refl,
    Perm.refl documents,
    subst (λ (l : List Column). IsSorted (comes_before l false) documents) (ok_injective h)
        (unsorted documents),
  )
  sorted-IsSorted documents (field k v fs) cs h d =
      let less = comes_before cs true in
      (
        sort_slice less documents,
        ap (λ r. r >>= λ l. ok (sort_by ar schema sort_slice documents l true)) h,
        S.permutes less documents,
        S.sorts less (Exact cs) documents (comes_before-IsOrder cs) d,
      )

  -- Find answers the page of the matching documents that skip and limit name, from a list of the
  -- documents that is sorted: no document comes before one in front of it in the columns of the sort
  -- document, and documents that are equal there stand in the order of their addresses. An empty
  -- sort document asks for no order. The values in the columns hold integers only and no regular
  -- expression, limit and skip add up to an int, sort.Slice permutes and sorts by a comparator that
  -- is an order, and Cmp of the decimal package answers 0 for equal decimals.
  pub find-page :
      (documents : List Doc) (query order_by : Fields) (skip : ℕ) (limit : ℤ) (cs : List Column)
      → pos_part limit + skip < 2 ^ 63
      → columns ar order_by ≡ ok cs
      → ((x : Doc) → Mem x documents → Exact cs x)
      → (list : List Doc) × Perm list documents
        × IsSorted (λ x y. is_lt (order ar x y cs (has_columns order_by))) list
        × (find ar schema sort_slice documents query order_by skip limit
            ≡ page limit skip (matching ar schema query list))
  find-page documents query order_by skip limit cs small h d =
      let (list, e, permuted, in_order) = sorted-IsSorted documents order_by cs h d in
      (
        list,
        permuted,
        in_order,
        find-sorted ar schema sort_slice documents query order_by skip limit small
            ∙ ap (λ r. r >>= λ l. page limit skip (matching ar schema query l)) e,
      )
