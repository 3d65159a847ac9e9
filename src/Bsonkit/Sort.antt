-- ===== src/Bsonkit/Sort.antt =====
-- bsonkit/sort.go: the order of documents by columns.
pub mod Laws
use lungo.Base.{
  ℕ, Bool, true, false, List, [], ◌∷◌, if◌then◌else◌, Text, Ordering, compare as compare_ℕ,
  reverse_order, is_eq,
}
use lungo.Bsonkit.Value.{Fields}
use lungo.Bsonkit.Number.{Numerics}
use lungo.Bsonkit.Compare.{compare}
use lungo.Bsonkit.Access.{get_path}

pub record Column : Type 0 where
  pub path : Text
  pub reverse : Bool

-- A pointer to a document: its address, and the document that stands there.
pub record Doc : Type 0 where
  pub address : ℕ
  pub content : Fields

module _ (ar : Numerics) where
  -- The order in one column.
  unfoldable pub order_column : Column → Doc → Doc → Ordering
  unfolding get_path compare
  order_column c l r =
      let res = compare ar (get_path l.content c.path) (get_path r.content c.path) in
      if c.reverse then reverse_order res else res

  unfoldable pub order : Doc → Doc → List Column → Bool → Ordering
  unfolding order_column
  order l r [] identity = if identity then compare_ℕ l.address r.address else Ordering.eq
  order l r (c ∷ cs) identity =
      let res = order_column c l r in
      let rest = order l r cs identity in if is_eq res then rest else res
