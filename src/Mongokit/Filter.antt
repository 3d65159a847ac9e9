-- ===== src/Mongokit/Filter.antt =====
-- mongokit/filter.go, mongokit/sort.go and Find of mongokit/collection.go.
pub mod Laws
use lungo.Base.{
  ℕ, zero, suc, ◌+◌, Bool, true, false, List, [], ◌∷◌, if◌then◌else◌, ℤ, pos, negsuc, Option, none,
  some, Result, ok, fail, ◌>>=◌, Failure, expected_number, expected_direction, eqb_ℤ, ltb, length,
  drop, ◌||◌,
}
use lungo.Bsonkit.Value.{Value, int32, int64, double, Fields, end, field}
use lungo.Bsonkit.Number.{Numerics, int_of_float}
use lungo.Bsonkit.Sort.{Column, Doc}
use lungo.Bsonkit.Lists.{select}
use lungo.Mongokit.Query.{SchemaCheck, match}

module _ (ar : Numerics) where
  -- The direction of a column: a number, converted to int.
  unfoldable pub direction_of : Value → Option ℤ
  unfolding int_of_float
  direction_of (int32 n) = some n
  direction_of (int64 n) = some n
  direction_of (double b) = some (int_of_float ar b)
  direction_of _ = none

  unfoldable pub columns : Fields → Result (List Column)
  unfolding direction_of
  columns end = ok []
  columns (field k v fs) =
      let rest = columns fs in
      elim (direction_of v) [
        | none ↦ fail (expected_number k)
        | some n ↦
            if eqb_ℤ n (pos 1) || eqb_ℤ n (negsuc 0)
            then (rest >>= λ cs. ok (record { path = k; reverse = eqb_ℤ n (negsuc 0) } ∷ cs))
            else fail (expected_direction k)
      ]

module _ (ar : Numerics) (schema : SchemaCheck) where
  -- The selector of Filter: the state is the variable matchErr.
  unfoldable pub filter_selector : Fields → Doc → Option Failure → (Bool × Bool) × Option Failure
  unfolding match
  filter_selector query d err = elim (match ar schema d.content query) [
    | ok res ↦ ((res, false), err)
    | fail e ↦ ((false, true), some e)
  ]

  -- Filter: the documents and the error, which the source returns together.
  unfoldable pub filter : List Doc → Fields → ℤ → List Doc × Option Failure
  unfolding filter_selector select
  filter list query limit = select limit (filter_selector query) [] list none
