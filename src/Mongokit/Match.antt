-- ===== src/Mongokit/Match.antt =====
-- mongokit/match.go: the query operators that test a field of the document.
pub mod Fuel
pub mod Candidates
use lungo.Base.{
  ℕ, zero, suc, ◌+◌, ◌-◌, ◌%◌, max, Bool, true, false, not, ◌&&◌, ◌||◌, Option, none, some, [], ◌∷◌,
  ◌==◌, if◌then◌else◌, Text, text_eq, codes, ℤ, pos, negsuc, Ordering, is_eq, is_lt, is_gt, length,
  Result, ok, fail, ◌>>=◌, Failure, not_matched, out_of_fuel, expected_array, expected_document,
  expected_documents, empty_array, empty_document, unknown_comparison, unknown_type_string,
  unknown_type_number, expected_string_or_number, expected_number,
}
use lungo.Bsonkit.Value.{
  Value, int32, int64, double, string, doc, array, boolean, Items, empty, item, Fields, end, field,
  Class, class_of, rank, inspect, is_missing, as_array?, as_doc?, count_items,
}
use lungo.Bsonkit.Number.{Numerics, int_of_float}
use lungo.Bsonkit.Compare.{compare}
use lungo.Bsonkit.Access.{get_path, all}
use lungo.Bsonkit.TypeNames.{type_of_alias, type_of_number, same_type}
use lungo.Mongokit.Process.{Context, Operator, process, process_expression}

abbrev pub Verdict : Type 0
Verdict = Result (Unit {0})

abbrev pub verdict : Bool → Verdict
verdict true = ok tt
verdict false = fail not_matched

-- matchNegate
abbrev pub match_negate : Verdict → Verdict
match_negate (ok _) = fail not_matched
match_negate (fail not_matched) = ok tt
match_negate (fail e) = fail e

-- The first verdict that is not a mismatch, else what follows.
abbrev pub or_next : Verdict → Verdict → Verdict
or_next (ok t) r = ok t
or_next (fail not_matched) r = r
or_next (fail e) r = fail e

-- The loop of matchUnwind over the values of an array, and what follows it.
unfoldable pub unwind_items : (Value → Verdict) → Items → Verdict → Verdict
unwind_items op empty next = next
unwind_items op (item v xs) next = or_next (op v) (unwind_items op xs next)

unfoldable pub match_unwind : Fields → Text → Bool → Bool → (Value → Verdict) → Verdict
unfolding unwind_items all
match_unwind d path merge yield_merge op =
    let (value, multi) = all d path true merge in
    let last = if not multi || yield_merge then op value else fail not_matched in
    elim (as_array? value) [ none ↦ last | some xs ↦ unwind_items op xs last ]

-- The switch of matchComp: `same` tells whether the two classes are one, `res` is the order of the
-- field to the operand.
unfoldable pub comp_ok : Text → Bool → Ordering → Option Bool
comp_ok op same res =
    if text_eq op [] || text_eq op (codes "$eq")
    then some (same && is_eq res)
    else if text_eq op (codes "$gt")
    then some (same && is_gt res)
    else if text_eq op (codes "$gte")
    then some (same && not (is_lt res))
    else if text_eq op (codes "$lt")
    then some (same && is_lt res)
    else if text_eq op (codes "$lte")
    then some (same && not (is_gt res))
    else if text_eq op (codes "$ne")
    then some (not same || not (is_eq res))
    else none

module _ (ar : Numerics) where
  unfoldable pub comp_test : Text → Value → Value → Verdict
  unfolding comp_ok
  comp_test op v x = elim (comp_ok op (rank (class_of x) == rank (class_of v)) (compare ar x v)) [
    | none ↦ fail (unknown_comparison op)
    | some b ↦ verdict b
  ]

  unfoldable pub match_comp : Fields → Text → Text → Value → Verdict
  unfolding comp_test match_unwind
  match_comp d op path v = match_unwind d path true false (comp_test op v)

  unfoldable pub has_equal : Value → Items → Bool
  has_equal x empty = false
  has_equal x (item v xs) = is_eq (compare ar x v) || has_equal x xs

  unfoldable pub in_test : Text → Value → Value → Verdict
  unfolding has_equal
  in_test name v x = elim (as_array? v) [
    | none ↦ fail (expected_array name)
    | some xs ↦ verdict (has_equal x xs)
  ]

  unfoldable pub match_in : Fields → Text → Text → Value → Verdict
  unfolding in_test match_unwind
  match_in d name path v = match_unwind d path true false (in_test name v)

  unfoldable pub match_nin : Fields → Text → Text → Value → Verdict
  unfolding match_in
  match_nin d name path v = match_negate (match_in d name path v)

  -- The two tests of matchAll: every listed value is an element, or every one equals the field.
  unfoldable pub all_in : Items → Items → Bool
  unfolding has_equal
  all_in empty ys = true
  all_in (item v xs) ys = has_equal v ys && all_in xs ys

  unfoldable pub all_equal : Value → Items → Bool
  all_equal x empty = true
  all_equal x (item v xs) = is_eq (compare ar x v) && all_equal x xs

  unfoldable pub all_test : Text → Value → Value → Verdict
  unfolding all_in all_equal
  all_test name v x = elim (as_array? v) [
    | none ↦ fail (expected_array name)
    | some xs ↦ elim xs [
      | empty ↦ fail not_matched
      | item w ws ↦
          let contained : Bool = elim (as_array? x) [
            | some ys ↦ all_in (item w ws) ys
            | none ↦ false
          ] in
          if contained then ok tt else verdict (all_equal x (item w ws))
    ]
  ]

  unfoldable pub match_all : Fields → Text → Text → Value → Verdict
  unfolding all_test match_unwind
  match_all d name path v = match_unwind d path false true (all_test name v)

  unfoldable pub size_test : Text → Value → Value → Verdict
  size_test name v x =
      if rank (class_of v) == rank Class.number_class
      then elim (as_array? x) [
        | none ↦ fail not_matched
        | some xs ↦ verdict (is_eq (compare ar (int64 (pos (count_items xs))) v))
      ]
      else fail (expected_number name)

  unfoldable pub match_size : Fields → Text → Text → Value → Verdict
  unfolding size_test match_unwind
  match_size d name path v = match_unwind d path false false (size_test name v)

-- Anything but the boolean false asks that the field exists.
unfoldable pub match_exists : Fields → Text → Value → Verdict
unfolding get_path
match_exists d path (boolean false) = verdict (is_missing (get_path d path))
match_exists d path v = verdict (not (is_missing (get_path d path)))

-- The conversion of a whole number to a byte.
abbrev byte_of : ℤ → ℕ
byte_of (pos n) = n % 256
byte_of (negsuc n) = 255 - n % 256

module _ (ar : Numerics) where
  pub type_by_number : Fields → Text → Text → ℕ → Verdict
  unfolding get_path
  type_by_number d name path n = elim (type_of_number n) [
    | none ↦ fail (unknown_type_number name)
    | some t ↦ verdict (same_type t (inspect (get_path d path)).1)
  ]

  unfoldable pub match_type : Fields → Text → Text → Value → Verdict
  unfolding type_by_number
  match_type d name path (string s) =
      if text_eq s (codes "number")
      then verdict (rank (class_of (get_path d path)) == rank Class.number_class)
      else elim (type_of_alias s) [
        | none ↦ fail (unknown_type_string name)
        | some t ↦ verdict (same_type t (inspect (get_path d path)).1)
      ]
  match_type d name path (int32 z) = type_by_number d name path (byte_of z)
  match_type d name path (int64 z) = type_by_number d name path (byte_of z)
  match_type d name path (double b) = type_by_number d name path (ar.byte_of_float b)
  match_type d name path v = fail (expected_string_or_number name)
