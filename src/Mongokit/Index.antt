-- ===== src/Mongokit/Index.antt =====
-- mongokit/index.go: an index with a configuration, a filter and the index of bsonkit behind it.
pub mod Plain
pub mod Holds
use lungo.Base.{
  ℕ, suc, Bool, true, false, ◌&&◌, not, List, [], ◌∷◌, ◌++◌, Option, none, some, if◌then◌else◌,
  Text, codes, ℤ, pos, negsuc, ltb, ltb_ℤ, eqb_ℤ, is_eq, Result, ok, fail, ◌>>=◌, empty_index_key,
  expiring_compound_index,
}
use lungo.Bsonkit.Value.{Value, doc, Fields, end, field, count_fields}
use lungo.Bsonkit.Number.{Numerics}
use lungo.Bsonkit.Compare.{compare}
use lungo.Bsonkit.Sort.{Doc, Column}
use lungo.Bsonkit.Index as Base
use lungo.Bsonkit.Index.{Btree, new_index}
use lungo.Mongokit.Filter.{columns}
use lungo.Mongokit.Query.{SchemaCheck, match}

pub record IndexConfig : Type 0 where
  pub key : Fields
  pub unique : Bool
  pub partial : Option Fields
  pub expiry : ℤ

pub record Index (B : Btree) : Type 0 where
  pub config : IndexConfig
  pub index_columns : List Column
  pub base : B.Tree

abbrev same_bool : Bool → Bool → Bool
same_bool true b = b
same_bool false b = not b

-- A filter that is nil compares as a document without fields.
abbrev partial_fields : Option Fields → Fields
partial_fields none = end
partial_fields (some fs) = fs

-- The segments of a name: for each column its path and its direction, joined by "_".
unfoldable pub join_columns : List Column → Text
join_columns [] = []
join_columns (c ∷ []) = c.path ++ b'_' ∷ (if c.reverse then codes "-1" else codes "1")
join_columns (c ∷ c' ∷ cs) =
    (c.path ++ b'_' ∷ (if c.reverse then codes "-1" else codes "1"))
    ++ b'_' ∷ join_columns (c' ∷ cs)

module _ (ar : Numerics) where
  -- IndexConfig.Equal
  unfoldable pub equal : IndexConfig → IndexConfig → Bool
  unfolding compare
  equal c d =
      is_eq (compare ar (doc c.key) (doc d.key))
      && same_bool c.unique d.unique
      && is_eq (compare ar (doc (partial_fields c.partial)) (doc (partial_fields d.partial)))
      && eqb_ℤ c.expiry d.expiry

  -- IndexConfig.Name
  unfoldable pub index_name : IndexConfig → Result Text
  unfolding columns join_columns
  index_name c = columns ar c.key >>= λ cs. ok (join_columns cs)

module _ (B : Btree) (ar : Numerics) where
  -- CreateIndex
  unfoldable pub create_index : IndexConfig → Result (Index B)
  unfolding columns new_index
  create_index c =
      if ltb 0 (count_fields c.key)
      then (columns ar c.key >>= λ cs.
          if ltb_ℤ (pos 0) c.expiry && ltb 1 (count_fields c.key)
          then fail expiring_compound_index
          else ok (record { config = c; index_columns = cs; base = new_index B ar c.unique cs }))
      else fail empty_index_key

module _ (ar : Numerics) (schema : SchemaCheck) where
  -- The partial filter.
  unfoldable pub accepts : Option Fields → Doc → Result Bool
  unfolding match
  accepts none d = ok true
  accepts (some filter) d = match ar schema d.content filter

module _ {B : Btree} (ar : Numerics) (schema : SchemaCheck) where
  abbrev with_base : Index B → Bool × B.Tree → Bool × Index B
  with_base i (done, t) = (done, record i { base = t })

  unfoldable pub add : Index B → Doc → Result (Bool × Index B)
  unfolding accepts Base.add
  add i d = accepts ar schema i.config.partial d >>= λ b.
      ok (if b then with_base i (Base.add B i.base d) else (true, i))

  unfoldable pub has : Index B → Doc → Result Bool
  unfolding accepts Base.has
  has i d =
      accepts ar schema i.config.partial d >>= λ b. ok (if b then Base.has B i.base d else false)

  unfoldable pub remove : Index B → Doc → Result (Bool × Index B)
  unfolding accepts Base.remove
  remove i d = accepts ar schema i.config.partial d >>= λ b.
      ok (if b then with_base i (Base.remove B i.base d) else (true, i))

  -- Build: up to the first document that Add refuses.
  unfoldable pub build : Index B → List Doc → Result (Bool × Index B)
  unfolding add
  build i [] = ok (true, i)
  build i (d ∷ ds) =
      add i d >>= λ (done, i'). let rest = build i' ds in if done then rest else ok (false, i')
