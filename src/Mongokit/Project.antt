-- ===== src/Mongokit/Project.antt =====
-- mongokit/project.go: projections. The result is a pointer that may be nil, so an Option. The Go map
-- `merge` is a list of its entries, and the order in which the source's loop visits them an argument.
pub mod Laws
use lungo.Base.{
  ℕ, zero, suc, ◌-◌, ◌^◌, Bool, true, false, ◌&&◌, List, [], ◌∷◌, ◌++◌, ◌==◌, ltb, Option, none,
  some, if◌then◌else◌, is_eq, Text, text_eq, codes, ℤ, pos, negsuc, Result, ok, fail, ◌>>=◌, panic,
  expected_number, invalid_projection, mixed_projection,
}
use lungo.Bsonkit.Value.{
  Value, int64, array, Items, empty, item, Fields, end, is_missing, as_array?, count_items,
}
use lungo.Bsonkit.Number.{Numerics}
use lungo.Bsonkit.Compare.{compare}
use lungo.Bsonkit.Access.{get_path, put_path, unset}
use lungo.Mongokit.Process.{Context, Operator, process}
use lungo.Mongokit.Filter.{direction_of}

pub record ProjectState : Type 0 where
  pub hide_id : Bool
  pub include : List Text
  pub exclude : List Text
  pub merge : List (Text × Value)

abbrev pub start : ProjectState
start = record { hide_id = false; include = []; exclude = []; merge = [] }

-- A write `merge[path] = v`.
unfoldable pub assign : List (Text × Value) → Text → Value → List (Text × Value)
assign [] path v = (path, v) ∷ []
assign ((p, w) ∷ m) path v =
    let rest = assign m path v in if text_eq p path then (p, v) ∷ m else (p, w) ∷ rest

-- `array[0:n]` and `array[n:]`
unfoldable pub take_items : ℕ → Items → Items
take_items zero xs = empty
take_items (suc n) empty = empty
take_items (suc n) (item v xs) = item v (take_items n xs)

unfoldable pub drop_items : ℕ → Items → Items
drop_items zero xs = xs
drop_items (suc n) empty = empty
drop_items (suc n) (item v xs) = drop_items n xs

-- The three cases of projectSlice. The least int is its own negation, and out of range then.
unfoldable pub slice : ℤ → Items → Result Items
unfolding take_items drop_items
slice (pos zero) xs = ok empty
slice (pos (suc n)) xs = ok (if ltb (suc n) (count_items xs) then take_items (suc n) xs else xs)
slice (negsuc n) xs =
    if suc n == 2 ^ 63
    then fail panic
    else ok (if ltb (suc n) (count_items xs) then drop_items (count_items xs - suc n) xs else xs)

module _ (ar : Numerics) where
  unfoldable pub project_condition : Operator ProjectState
  unfolding compare
  project_condition s name path v =
      if is_eq (compare ar v (int64 (pos 1)))
      then ok (record s { include = s.include ++ path ∷ [] })
      else if is_eq (compare ar v (int64 (pos 0)))
      then (if text_eq path (codes "_id")
          then ok (record s { hide_id = true })
          else ok (record s { exclude = s.include ++ path ∷ [] }))
      else fail (invalid_projection path)

  unfoldable pub project_slice : Fields → Operator ProjectState
  unfolding slice assign get_path direction_of
  project_slice d s name path v = elim (direction_of ar v) [
    | none ↦ fail (expected_number name)
    | some n ↦ elim (as_array? (get_path d path)) [
      | none ↦ ok s
      | some xs ↦ slice n xs >>= λ ys. ok (record s { merge = assign s.merge path (array ys) })
    ]
  ]

  abbrev pub project_context : Fields → Context ProjectState
  project_context d = record {
    top_level = λ _. none;
    expression = λ key.
        if text_eq key []
        then some project_condition
        else if text_eq key (codes "$slice")
        then some (project_slice d)
        else none;
    skip_missing = false;
    multi_top_level = false;
    resolve = λ path s f. f path s;
  }

-- A document with the _id of another.
unfoldable pub copy_id : Fields → Result Fields
unfolding get_path put_path
copy_id d = put_path end (codes "_id") (get_path d (codes "_id")) false >>= λ put. ok put.1

unfoldable pub include_fields : Fields → List Text → Fields → Result Fields
unfolding get_path put_path
include_fields d [] res = ok res
include_fields d (path ∷ paths) res =
    let value = get_path d path in
    let step =
      if is_missing value then ok res else (put_path res path value false >>= λ put. ok put.1) in
    step >>= include_fields d paths

unfoldable pub exclude_fields : List Text → Fields → Result Fields
unfolding unset
exclude_fields [] res = ok res
exclude_fields (path ∷ paths) res = unset res path >>= λ put. exclude_fields paths put.1

unfoldable pub merge_fields : Fields → List (Text × Value) → Option Fields → Result (Option Fields)
unfolding copy_id put_path
merge_fields d [] res = ok res
merge_fields d ((path, value) ∷ m) res =
    let known : Result Fields = elim res [ some r ↦ ok r | none ↦ copy_id d ] in
    known >>= λ r. put_path r path value false >>= λ put. merge_fields d m (some put.1)

-- The inclusion and the exclusion.
unfoldable pub select_fields : Fields → ProjectState → Result (Option Fields)
unfolding copy_id include_fields exclude_fields
select_fields d state = elim state.include [
  | path ∷ paths ↦ elim state.exclude [
    | [] ↦ copy_id d >>= λ res. include_fields d (path ∷ paths) res >>= λ r. ok (some r)
    | _ ∷ _ ↦ fail mixed_projection
  ]
  | [] ↦ elim state.exclude [
    | [] ↦ ok none
    | path ∷ paths ↦ exclude_fields (path ∷ paths) d >>= λ r. ok (some r)
  ]
]

-- The document itself where there is no result.
abbrev pub ensure_doc : Fields → Option Fields → Fields
ensure_doc d none = d
ensure_doc d (some r) = r

module _ (map_order : List (Text × Value) → List (Text × Value)) where
  -- Project from the check on: what the state makes of the document.
  unfoldable pub apply_state : Fields → ProjectState → Result Fields
  unfolding select_fields merge_fields unset
  apply_state d state = select_fields d state >>= λ selected.
      merge_fields d (map_order state.merge) selected >>= λ merged.
      let res = ensure_doc d merged in
      if state.hide_id then (unset res (codes "_id") >>= λ put. ok put.1) else ok res

  unfoldable pub project : Numerics → Fields → Fields → Result Fields
  unfolding process apply_state
  project ar d projection =
      process (project_context ar d) projection [] true start >>= apply_state d

  unfoldable pub project_list : Numerics → List Fields → Fields → Result (List Fields)
  unfolding project
  project_list ar [] projection = ok []
  project_list ar (d ∷ ds) projection =
      let rest = project_list ar ds projection in
      project ar d projection >>= λ r. rest >>= λ rs. ok (r ∷ rs)
