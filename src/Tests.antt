-- ===== src/Tests.antt =====
-- The theorems at concrete documents, queries and calls, and runs of the code.
pub mod Collection
pub mod Find
pub mod Sorting
pub mod Index
pub mod Project
pub mod Transaction
use lungo.Base.{
  ◌≡◌, refl, true, false, ◌&&◌, not, List, [], ◌∷◌, arith, text_eq, compare_text, codes, pos,
  negsuc, reverse_order, chains, is_eq, is_gt, is_lt, ok, fail, not_matched, out_of_fuel, ◌≢◌, inl,
}
use lungo.Bsonkit.Value.{
  int32, int64, double, string, doc, array, Items, empty, item, Fields, end, field,
}
use lungo.Bsonkit.Number.{Numerics, Decimal, compare_int64s, compare_numbers}
use lungo.Bsonkit.Compare.{compare, compare_scalars}
use lungo.Bsonkit.Compare.Laws
use lungo.Bsonkit.Compare.Laws.{no_regex}
use lungo.Bsonkit.Compare.Order
use lungo.Bsonkit.Compare.Order.{is_exact}
use lungo.Bsonkit.Access.{get_path, put_path}
use lungo.Bsonkit.Access.RoundTrip
use lungo.Bsonkit.Access.RoundTrip.{unsigned}
use lungo.Bsonkit.Access.Previous
use lungo.Bsonkit.Set.{new_set, replace, remove}
use lungo.Bsonkit.Set.Valid.{IsValid}
use lungo.Bsonkit.Set.Refines
use lungo.Bsonkit.Set.Refines.{
  Call, add_call, replace_call, remove_call, run, run_spec, run-new_set,
}
use lungo.Mongokit.Match.{verdict, or_next, unwind_items, match_comp, match_in}
use lungo.Mongokit.Match.Candidates
use lungo.Mongokit.Match.Candidates.{candidates, any_item, passes}
use lungo.Mongokit.Query.{SchemaCheck, match, match_or, match_elem, depth_fields}
use lungo.Mongokit.Query.Fuel

-- Decimals are compared by their coefficients here, which is right at one exponent.
abbrev pub numerics : Numerics
numerics = record {
  decimal_of_float = λ b. (pos b, pos 0);
  decimal_of_int = λ z. (z, pos 0);
  decimal_of_d128 = λ h w. (pos w, pos 0);
  decimal_cmp = λ a b. compare_int64s a.0 b.0;
  int_of_large_float = λ b. negsuc 0x7fffffffffffffff;
  byte_of_float = λ b. 0;
}

-- A schema that accepts every document.
abbrev pub any_schema : SchemaCheck
any_schema d name v = ok tt

pub numerics_cmp-anti :
    (a b : Decimal) → numerics.decimal_cmp a b ≡ reverse_order (numerics.decimal_cmp b a)
unfolding compare_int64s
numerics_cmp-anti a b = ground arith

-- {"a": {"b": [1, 2]}, "c": "x"}
abbrev pub sample : Fields
sample =
    field (codes "a")
      (doc (field (codes "b") (array (item (int32 (pos 1)) (item (int64 (pos 2)) empty))) end))
      (field (codes "c") (string (codes "x")) end)

abbrev numbers : Items
numbers = item (int32 (pos 7)) (item (int64 (pos 2)) empty)

program : Unit {0}
unfolding get_path put_path compare compare_scalars compare_numbers compare_int64s compare_text
    text_eq no_regex is_exact unsigned match match_comp match_or match_elem depth_fields run
    Refines.call new_set replace remove
program = tt

compare-chains_example :
    chains
      (compare numerics (doc sample) (array numbers))
      (compare numerics (array numbers) (int64 (pos 2)))
      (compare numerics (doc sample) (int64 (pos 2)))
    ≡ true
unfolding program
compare-chains_example =
    Order.compare-chains numerics (doc sample) (array numbers) (int64 (pos 2)) refl refl refl

compare-anti_example :
    compare numerics (array numbers) (array (item (double 0) empty))
    ≡ reverse_order (compare numerics (array (item (double 0) empty)) (array numbers))
unfolding program
compare-anti_example =
    Laws.compare-anti numerics numerics_cmp-anti (array numbers) (array (item (double 0) empty))
      refl

-- {"a": {"b": [1, 5]}, "c": "x"}
abbrev written : Fields
written =
    field (codes "a")
      (doc (field (codes "b") (array (item (int32 (pos 1)) (item (int32 (pos 5)) empty))) end))
      (field (codes "c") (string (codes "x")) end)

get_path-put_path_example : get_path written (codes "a.b.1") ≡ int32 (pos 5)
unfolding program
get_path-put_path_example =
    RoundTrip.get_path-put_path sample written (codes "a.b.1") (int32 (pos 5)) (int64 (pos 2)) false
      refl refl

put_path-previous_example : int64 (pos 2) ≡ get_path sample (codes "a.b.1")
unfolding program
put_path-previous_example =
    Previous.put_path-previous sample written (codes "a.b.1") (int32 (pos 5)) (int64 (pos 2)) false
      refl refl

writes-frame_example : get_path written (codes "c") ≡ get_path sample (codes "c")
unfolding program
writes-frame_example =
    Previous.writes-frame sample written (codes "a.b.1") (codes "c") (int64 (pos 2)) refl refl
      (record { not_end = refl; not_empty = refl }) (inl (int32 (pos 5), false, refl))

-- {"$or": [{"c": {"$gt": "y"}}, {"a.b": {"$elemMatch": {"$gt": 1}}}]}
abbrev query : Fields
query =
    field (codes "$or")
      (array (
        item (doc (field (codes "c") (doc (field (codes "$gt") (string (codes "y")) end)) end)) (
          item
            (doc (
              field (codes "a.b")
                (doc
                  (field (codes "$elemMatch") (doc (field (codes "$gt") (int32 (pos 1)) end)) end))
                end))
            empty)))
      end

query_matches : match numerics any_schema sample query ≡ ok true
unfolding program
query_matches = refl

match-terminates_example : match numerics any_schema sample query ≢ fail out_of_fuel
match-terminates_example = Fuel.match-terminates numerics any_schema (λ d name v e. cc) sample query

match_in-match_comp_example :
    match_in numerics sample (codes "$in") (codes "a.b") (array numbers)
    ≡ unwind_items
        (match_comp numerics sample (codes "$eq") (codes "a.b"))
        numbers
        (fail not_matched)
match_in-match_comp_example =
    Candidates.match_in-match_comp numerics sample (codes "$in") (codes "a.b") numbers

match_comp-candidates_example :
    (match_comp numerics sample (codes "$eq") (codes "a.b") (int32 (pos 2))
      ≡ verdict (
          any_item
            (passes numerics (λ s o. s && is_eq o) (int32 (pos 2)))
            (candidates sample (codes "a.b") true false)))
    × (match_comp numerics sample (codes "$gt") (codes "a.b") (int32 (pos 2))
        ≡ verdict (
            any_item
              (passes numerics (λ s o. s && is_gt o) (int32 (pos 2)))
              (candidates sample (codes "a.b") true false)))
    × (match_comp numerics sample (codes "$lt") (codes "a.b") (int32 (pos 2))
        ≡ verdict (
            any_item
              (passes numerics (λ s o. s && is_lt o) (int32 (pos 2)))
              (candidates sample (codes "a.b") true false)))
    × (match_comp numerics sample (codes "$ne") (codes "a.b") (int32 (pos 2))
        ≡ verdict (
            any_item
              (passes numerics (λ s o. not (s && is_eq o)) (int32 (pos 2)))
              (candidates sample (codes "a.b") true false)))
match_comp-candidates_example =
    Candidates.match_comp-candidates numerics sample (codes "a.b") (int32 (pos 2))

match_comp-or_equal_example :
    (match_comp numerics sample (codes "$gte") (codes "a.b") (int32 (pos 2))
      ≡ or_next
          (match_comp numerics sample (codes "$gt") (codes "a.b") (int32 (pos 2)))
          (match_comp numerics sample (codes "$eq") (codes "a.b") (int32 (pos 2))))
    × (match_comp numerics sample (codes "$lte") (codes "a.b") (int32 (pos 2))
        ≡ or_next
            (match_comp numerics sample (codes "$lt") (codes "a.b") (int32 (pos 2)))
            (match_comp numerics sample (codes "$eq") (codes "a.b") (int32 (pos 2))))
match_comp-or_equal_example =
    Candidates.match_comp-or_equal numerics sample (codes "a.b") (int32 (pos 2))

abbrev calls : List Call
calls = remove_call 5 ∷ add_call 9 ∷ replace_call 7 5 ∷ add_call 9 ∷ []

run-new_set_example :
    IsValid (run (new_set (5 ∷ 7 ∷ 5 ∷ [])) calls).0
    × ((run (new_set (5 ∷ 7 ∷ 5 ∷ [])) calls).0.list
        ≡ (run_spec (new_set (5 ∷ 7 ∷ 5 ∷ [])).list calls).0)
    × ((run (new_set (5 ∷ 7 ∷ 5 ∷ [])) calls).1
        ≡ (run_spec (new_set (5 ∷ 7 ∷ 5 ∷ [])).list calls).1)
run-new_set_example = run-new_set (5 ∷ 7 ∷ 5 ∷ []) calls

left_over : (run (new_set (5 ∷ 7 ∷ 5 ∷ [])) calls).0.list ≡ 5 ∷ 9 ∷ []
unfolding program
left_over = refl
