-- ===== src/Bsonkit/Index.antt =====
-- bsonkit/index.go: an index of documents. The btree of github.com/tidwall/btree is an interface:
-- its operations, and of its documented behaviour what the index relies on. The package asks for a
-- comparator that is an order, so the laws hold for documents that the comparator orders.
pub mod Order
pub mod Laws
pub mod Refines
use lungo.Base.{
  ◌≡◌, ◌≢◌, ◌↔◌, ◌⊎◌, Bool, true, false, not, ◌&&◌, List, [], ◌∷◌, Option, none, some,
  if◌then◌else◌, is_lt, Mem, arith,
}
use lungo.Bsonkit.Number.{Numerics}
use lungo.Bsonkit.Sort.{Doc, Column, order}

-- The operations of btree.BTreeG[Doc] that the index calls. `scan` is the list of the items that
-- Scan visits, and `delete` answers the item that it takes out.
pub record Btree : Type 1 where
  pub Tree : Type 0
  pub new_tree : (Doc → Doc → Bool) → Tree
  pub get : Tree → Doc → Option Doc
  pub set : Tree → Doc → Tree
  pub delete : Tree → Doc → Option Doc × Tree
  pub scan : Tree → List Doc

-- Two items that a comparator leaves undecided have one key.
abbrev pub same_key : (Doc → Doc → Bool) → Doc → Doc → Bool
same_key less x y = not (less x y) && not (less y x)

pub same_key_comm : (less : Doc → Doc → Bool) (x y : Doc) → same_key less x y ≡ same_key less y x
same_key_comm less x y = ground arith

-- A comparator is a strict weak order of the documents of a domain.
pub record IsOrder (less : Doc → Doc → Bool) (D : Doc → Type 0) : Type 0 where
  pub irreflexive : (x : Doc) → D x → less x x ≡ false
  pub transitive :
      (x y z : Doc) → D x → D y → D z → less x y ≡ true → less y z ≡ true → less x z ≡ true
  pub same_key_trans :
      (x y z : Doc)
      → D x
      → D y
      → D z
      → same_key less x y ≡ true
      → same_key less y z ≡ true
      → same_key less x z ≡ true

-- What a btree does whose items and arguments are documents of a domain.
pub record BtreeLaws (B : Btree) (less : Doc → Doc → Bool) (D : Doc → Type 0) : Type 1 where
  -- the trees that come from NewBTreeG with the comparator by Set and Delete
  pub IsTree : B.Tree → Type 0
  pub IsTree-new : IsTree (B.new_tree less)
  pub IsTree-set : (t : B.Tree) (d : Doc) → IsTree t → D d → IsTree (B.set t d)
  pub IsTree-delete : (t : B.Tree) (d : Doc) → IsTree t → D d → IsTree (B.delete t d).1
  -- the items are documents that Set was given
  pub scan-domain : (t : B.Tree) (x : Doc) → IsTree t → Mem x (B.scan t) → D x
  -- a new tree is empty
  pub scan-new : B.scan (B.new_tree less) ≡ []
  -- Get finds the item with the key of its argument
  pub get-some :
      (t : B.Tree) (d e : Doc)
      → IsTree t
      → D d
      → B.get t d ≡ some e
      → Mem e (B.scan t) × (same_key less e d ≡ true)
  pub get-none :
      (t : B.Tree) (d e : Doc)
      → IsTree t
      → D d
      → B.get t d ≡ none
      → Mem e (B.scan t)
      → same_key less e d ≡ false
  -- Set adds an item whose key is new
  pub scan-set :
      (t : B.Tree) (d x : Doc)
      → IsTree t
      → D d
      → B.get t d ≡ none
      → Mem x (B.scan (B.set t d)) ↔ ((x ≡ d) ⊎ Mem x (B.scan t))
  -- Delete takes out the one item that Get finds, and answers it
  pub delete-get : (t : B.Tree) (d : Doc) → IsTree t → D d → (B.delete t d).0 ≡ B.get t d
  pub scan-delete-none :
      (t : B.Tree) (d x : Doc)
      → IsTree t
      → D d
      → B.get t d ≡ none
      → Mem x (B.scan (B.delete t d).1) ↔ Mem x (B.scan t)
  pub scan-delete-some :
      (t : B.Tree) (d e x : Doc)
      → IsTree t
      → D d
      → B.get t d ≡ some e
      → Mem x (B.scan (B.delete t d).1) ↔ (Mem x (B.scan t) × (x ≢ e))

-- What the package documents: a btree whose comparator is an order of its items obeys the laws.
pub record BtreeContract (B : Btree) : Type 1 where
  pub laws : (less : Doc → Doc → Bool) (D : Doc → Type 0) → IsOrder less D → BtreeLaws B less D

-- The comparator of NewIndex.
unfoldable pub index_less : Numerics → Bool → List Column → Doc → Doc → Bool
unfolding order
index_less ar unique columns a b = is_lt (order ar a b columns (not unique))

module _ (B : Btree) where
  unfoldable pub new_index : Numerics → Bool → List Column → B.Tree
  unfolding index_less
  new_index ar unique columns = B.new_tree (index_less ar unique columns)

  unfoldable pub add : B.Tree → Doc → Bool × B.Tree
  add t d = elim (B.get t d) [ some _ ↦ (false, t) | none ↦ (true, B.set t d) ]

  -- The documents up to the first that Add refuses.
  unfoldable pub build : B.Tree → List Doc → Bool × B.Tree
  unfolding add
  build t [] = (true, t)
  build t (d ∷ ds) =
      let added = add t d in let rest = build added.1 ds in if added.0 then rest else added

  unfoldable pub has : B.Tree → Doc → Bool
  has t d = elim (B.get t d) [ some _ ↦ true | none ↦ false ]

  unfoldable pub remove : B.Tree → Doc → Bool × B.Tree
  remove t d = elim (B.delete t d).0 [
    | some _ ↦ (true, (B.delete t d).1)
    | none ↦ (false, (B.delete t d).1)
  ]

  abbrev pub list : B.Tree → List Doc
  list t = B.scan t
