-- ===== src/Mongokit/Find.antt =====
-- Find of mongokit/collection.go, with Sort of mongokit/sort.go and of bsonkit/sort.go.
-- sort.Slice of the standard library is an argument.
pub mod Laws
pub mod Members
pub mod Order
use lungo.Base.{
  ℕ, zero, suc, ◌+◌, ◌-◌, ◌^◌, Bool, true, false, List, [], ltb, if◌then◌else◌, ℤ, pos, negsuc,
  Option, none, some, Result, ok, fail, ◌>>=◌, length, drop, is_lt,
}
use lungo.Bsonkit.Value.{Fields, end, field}
use lungo.Bsonkit.Number.{Numerics}
use lungo.Bsonkit.Sort.{Doc, Column, order}
use lungo.Mongokit.Query.{SchemaCheck}
use lungo.Mongokit.Filter.{columns, filter}

-- An int from what an addition of two ints below 2^63 gives.
unfoldable pub wrap_int : ℕ → ℤ
wrap_int n = if ltb n (2 ^ 63) then pos n else negsuc (2 ^ 64 - suc n)

-- `if limit > 0 { limit += skip }`, with a skip that is not negative.
unfoldable pub adjust_limit : ℤ → ℕ → ℤ
unfolding wrap_int
adjust_limit (pos zero) skip = pos zero
adjust_limit (pos (suc n)) skip = wrap_int (suc n + skip)
adjust_limit (negsuc n) skip = negsuc n

-- `if skip > len(list) { list = nil } else { list = list[skip:] }`
unfoldable pub skip_docs : ℕ → List Doc → List Doc
skip_docs skip list = if ltb (length list) skip then [] else drop skip list

module _ (ar : Numerics) (schema : SchemaCheck)
    (sort_slice : (Doc → Doc → Bool) → List Doc → List Doc) where
  -- bsonkit.Sort
  unfoldable pub sort_by : List Doc → List Column → Bool → List Doc
  unfolding order
  sort_by list cs identity = sort_slice (λ l r. is_lt (order ar l r cs identity)) list

  -- mongokit.Sort
  unfoldable pub sort : List Doc → Fields → Result (List Doc)
  unfolding sort_by columns
  sort list d = columns ar d >>= λ cs. ok (sort_by list cs true)

  -- The sorting in Find, where a sort document that is nil is one without fields.
  unfoldable pub sorted : List Doc → Fields → Result (List Doc)
  unfolding sort
  sorted list end = ok list
  sorted list (field k v fs) = sort list (field k v fs)

  unfoldable pub find : List Doc → Fields → Fields → ℕ → ℤ → Result (List Doc)
  unfolding filter adjust_limit skip_docs sorted
  find documents query order_by skip limit = sorted documents order_by >>= λ list.
      let found = filter ar schema list query (adjust_limit limit skip) in
      elim found.1 [ some e ↦ fail e | none ↦ ok (skip_docs skip found.0) ]
