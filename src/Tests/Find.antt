-- ===== src/Tests/Find.antt =====
-- Order, Filter and Find at concrete lists of documents.
use lungo.Base.{
  ℕ, ◌≡◌, refl, Bool, true, List, [], ◌∷◌, if◌then◌else◌, text_eq, compare_text, codes, pos, negsuc,
  reverse_order, chains, ok, none,
}
use lungo.Bsonkit.Value.{int32, doc, Fields, end, field}
use lungo.Bsonkit.Number.{compare_int64s, compare_numbers}
use lungo.Bsonkit.Compare as C
use lungo.Bsonkit.Access.{get_path}
use lungo.Bsonkit.Sort.{Doc, Column, order, order_column}
use lungo.Bsonkit.Sort.Laws
use lungo.Bsonkit.Sort.Laws.{are_exact, have_no_regex}
use lungo.Bsonkit.Lists.{select, is_full}
use lungo.Mongokit.Query.{match}
use lungo.Mongokit.Match.{match_comp}
use lungo.Mongokit.Filter.{filter, filter_selector, columns, direction_of}
use lungo.Mongokit.Filter.Laws as Filtered
use lungo.Mongokit.Filter.Laws.{capped, matching}
use lungo.Mongokit.Find.{find, sorted, sort, sort_by, adjust_limit, wrap_int, skip_docs}
use lungo.Tests.{numerics, any_schema, numerics_cmp-anti}

abbrev pub numbered : ℕ → ℕ → Doc
numbered address n = record { address = address; content = field (codes "n") (int32 (pos n)) end }

abbrev pub docs : List Doc
docs = numbered 1 5 ∷ numbered 2 3 ∷ numbered 3 9 ∷ numbered 4 1 ∷ []

-- {"n": {"$gt": 2}}
abbrev pub above_two : Fields
above_two = field (codes "n") (doc (field (codes "$gt") (int32 (pos 2)) end)) end

-- {"n": -1}
abbrev pub downwards : Fields
downwards = field (codes "n") (int32 (negsuc 0)) end

abbrev pub by_n : List Column
by_n = record { path = codes "n"; reverse = true } ∷ []

abbrev pub insert_by : (Doc → Doc → Bool) → Doc → List Doc → List Doc
insert_by less d [] = d ∷ []
insert_by less d (e ∷ es) =
    let rest = insert_by less d es in if less d e then d ∷ e ∷ es else e ∷ rest

abbrev pub insertion_sort : (Doc → Doc → Bool) → List Doc → List Doc
insertion_sort less [] = []
insertion_sort less (d ∷ ds) = insert_by less d (insertion_sort less ds)

program : Unit {0}
unfolding order order_column are_exact have_no_regex get_path C.compare C.compare_scalars
    compare_numbers compare_int64s compare_text text_eq select is_full filter filter_selector
    columns direction_of capped matching find sorted sort sort_by adjust_limit wrap_int skip_docs
    match match_comp C.Order.is_exact C.Laws.no_regex
program = tt

filter_two :
    filter numerics any_schema docs above_two (pos 2) ≡ (numbered 1 5 ∷ numbered 2 3 ∷ [], none)
unfolding program
filter_two = refl

filter-capped_example :
    filter numerics any_schema docs above_two (pos 2)
    ≡ capped (pos 2) (matching numerics any_schema above_two docs)
filter-capped_example = Filtered.filter-capped numerics any_schema above_two docs (pos 2)

find_second :
    find numerics any_schema insertion_sort docs above_two downwards 1 (pos 1)
    ≡ ok (numbered 1 5 ∷ [])
unfolding program
find_second = refl

order-chains_example :
    chains
      (order numerics (numbered 1 5) (numbered 2 3) by_n true)
      (order numerics (numbered 2 3) (numbered 4 1) by_n true)
      (order numerics (numbered 1 5) (numbered 4 1) by_n true)
    ≡ true
unfolding program
order-chains_example =
    Laws.order-chains numerics (numbered 1 5) (numbered 2 3) (numbered 4 1) by_n true refl refl refl

order-identity_example : (numbered 7 5).address ≡ (numbered 7 5).address
unfolding program
order-identity_example = Laws.order-identity numerics (numbered 7 5) (numbered 7 5) by_n refl

order-anti_example :
    order numerics (numbered 1 5) (numbered 2 3) by_n true
    ≡ reverse_order (order numerics (numbered 2 3) (numbered 1 5) by_n true)
unfolding program
order-anti_example =
    Laws.order-anti numerics numerics_cmp-anti (numbered 1 5) (numbered 2 3) by_n true refl
