-- ===== src/Bsonkit/Access.antt =====
-- bsonkit/access.go: reading and writing values at paths. The callback `set` of the source, by
-- which a write reaches the place that holds a value, is here the new value that `put` returns.
pub mod Steps
pub mod RoundTrip
pub mod Previous
use lungo.Base.{
  ℕ, zero, suc, ◌+◌, ◌-◌, Bool, true, false, not, ◌&&◌, Option, none, some, [], ltb, if◌then◌else◌,
  Text, text_eq, ℤ, pos, negsuc, length, Result, ok, fail, ◌>>=◌, panic, cannot_put, cannot_push,
  not_an_array, codes, ◌≡◌, refl,
}
use mathlib.Core.Option
use lungo.Bsonkit.Value.{
  Value, missing, nil, null, int32, doc, array, string, Items, empty, item, Fields, end, field,
  is_missing, as_array?, count_items, append_items, append_fields,
}
use lungo.Bsonkit.Path.{path_end, path_segment, reduce_path, parse_index, atoi}

-- The checks at the head of `get`: the end of the path, and the empty path.
abbrev pub at_path : Text → Value → Value × Bool → Value × Bool
at_path p v r =
    if text_eq p path_end then (v, false) else if text_eq p [] then (missing, false) else r

-- A parsed number that is an index of a list of that length.
abbrev pub in_range : Option ℤ → ℕ → Option ℕ
in_range (some (pos i)) n = if ltb i n then some i else none
in_range _ n = none

-- What the loop over an array adds for one item.
abbrev collected : Bool → Value × Bool → Items
collected compact (value, nested) =
    if is_missing value
    then (if compact then empty else item missing empty)
    else if nested && compact
    then elim (as_array? value) [ some xs ↦ xs | none ↦ empty ]
    else item value empty

unfoldable mutual
  unfolding path_segment reduce_path parse_index text_eq

  pub get : Value → Text → Bool → Bool → Value × Bool
  get (doc fs) p collect compact =
      at_path p (doc fs) (get_field fs (path_segment p) (reduce_path p) collect compact)
  get (array xs) p collect compact =
      let inside = get_elem xs in
      at_path p (array xs) (elim (in_range (parse_index (path_segment p)) (count_items xs)) [
        | some i ↦ inside i (reduce_path p) collect compact
        | none ↦ if collect then (array (collect_items xs p compact), true) else (missing, false)
      ])
  get v p collect compact = at_path p v (missing, false)

  -- The first field with the key.
  pub get_field : Fields → Text → Text → Bool → Bool → Value × Bool
  get_field end key rest collect compact = (missing, false)
  get_field (field k v fs) key rest collect compact =
      if text_eq k key then get v rest collect compact else get_field fs key rest collect compact

  pub get_elem : Items → ℕ → Text → Bool → Bool → Value × Bool
  get_elem empty i rest collect compact = (missing, false)
  get_elem (item v xs) zero rest collect compact = get v rest collect compact
  get_elem (item v xs) (suc i) rest collect compact = get_elem xs i rest collect compact

  pub collect_items : Items → Text → Bool → Items
  collect_items empty p compact = empty
  collect_items (item v xs) p compact =
      append_items (collected compact (get v p true compact)) (collect_items xs p compact)

-- Get. A document is the list of its fields.
unfoldable pub get_path : Fields → Text → Value
unfolding get
get_path d p = (get (doc d) p false false).0

-- The loop that merges the arrays among the values of a nested result.
unfoldable pub merge_items : Items → Items
merge_items empty = empty
merge_items (item v xs) = elim (as_array? v) [
  | some ys ↦ append_items ys (merge_items xs)
  | none ↦ item v (merge_items xs)
]

-- All.
unfoldable pub all : Fields → Text → Bool → Bool → Value × Bool
unfolding get merge_items
all d p compact merge =
    let (value, nested) = get (doc d) p true compact in
    if nested && merge
    then elim (as_array? value) [
      | some xs ↦ (array (merge_items xs), nested)
      | none ↦ (value, nested)
    ]
    else (value, nested)

-- `put` where nothing is yet: the value at the end of the path, within one new document for each
-- segment. A round shortens the path or ends it.
unfoldable pub build : ℕ → Text → Value → Option Value
build zero p x = none
build (suc fuel) p x =
    let inside = build fuel (reduce_path p) x in
    if text_eq p path_end
    then some x
    else if text_eq p []
    then none
    else if is_missing x
    then none
    else Option.map (λ v. doc (field (path_segment p) v end)) inside

abbrev pub build_all : Text → Value → Option Value
build_all p x = build (length p + 1) p x

-- A write returns the value that was there, and the value that now holds the place.
abbrev at_put : Text → Value → Value → Option (Value × Value) → Option (Value × Value)
at_put p v x r = if text_eq p path_end then some (v, x) else if text_eq p [] then none else r

unfoldable pub has_field : Fields → Text → Bool
has_field end key = false
has_field (field k v fs) key = if text_eq k key then true else has_field fs key

-- A new element at an index past the end: nil fills the places between.
unfoldable pub extend_items : Items → ℕ → Value → Items
extend_items empty zero v = item v empty
extend_items empty (suc i) v = item nil (extend_items empty i v)
extend_items (item w xs) zero v = item w xs
extend_items (item w xs) (suc i) v = item w (extend_items xs i v)

abbrev pub add_field : Fields → Text → Value → Bool → Fields
add_field fs key v prepend = if prepend then field key v fs else append_fields fs (field key v end)

-- In a document a value that is missing takes its field away, in an array it leaves nil.
abbrev pub keep_field : Text → Fields → Value × Value → Value × Fields
keep_field k fs (old, new) = (old, if is_missing new then fs else field k new fs)

abbrev pub keep_elem : Items → Value × Value → Value × Items
keep_elem xs (old, new) = (old, item (if is_missing new then nil else new) xs)

-- The index that a key writes to in an array.
abbrev pub position_of : Text → Option ℕ
position_of key = elim (atoi key) [
  | none ↦ none
  | some z ↦ elim z [ pos i ↦ some i | negsuc _ ↦ none ]
]

unfoldable mutual
  unfolding path_segment reduce_path atoi text_eq build has_field extend_items

  pub put : Value → Text → Value → Bool → Option (Value × Value)
  put (doc fs) p x prepend =
      let inside = put_field fs (path_segment p) (reduce_path p) x prepend in
      at_put p (doc fs) x (
        if has_field fs (path_segment p)
        then Option.map (λ (r : Value × Fields). (r.0, doc r.1)) inside
        else if is_missing x
        then none
        else Option.map (λ v. (missing, doc (add_field fs (path_segment p) v prepend)))
            (build_all (reduce_path p) x))
  put (array xs) p x prepend =
      let inside = put_elem xs in
      at_put p (array xs) x (elim (position_of (path_segment p)) [
        | none ↦ none
        | some i ↦
            if ltb i (count_items xs)
            then Option.map (λ (r : Value × Items). (r.0, array r.1))
                (inside i (reduce_path p) x prepend)
            else if is_missing x
            then none
            else Option.map (λ v. (missing, array (extend_items xs i v)))
                (build_all (reduce_path p) x)
      ])
  put missing p x prepend = at_put p missing x (Option.map (λ v. (missing, v)) (build_all p x))
  put v p x prepend = at_put p v x none

  -- The first field with the key.
  pub put_field : Fields → Text → Text → Value → Bool → Option (Value × Fields)
  put_field end key rest x prepend = none
  put_field (field k v fs) key rest x prepend =
      let here = put v rest x prepend in
      let there = put_field fs key rest x prepend in
      if text_eq k key
      then Option.map (keep_field k fs) here
      else Option.map (λ (r : Value × Fields). (r.0, field k v r.1)) there

  pub put_elem : Items → ℕ → Text → Value → Bool → Option (Value × Items)
  put_elem empty i rest x prepend = none
  put_elem (item v xs) zero rest x prepend = Option.map (keep_elem xs) (put v rest x prepend)
  put_elem (item v xs) (suc i) rest x prepend =
      Option.map (λ (r : Value × Items). (r.0, item v r.1)) (put_elem xs i rest x prepend)

-- The assertion `v.(bson.D)` by which a document takes its new value.
abbrev store_doc : Value → Value → Result (Value × Fields)
store_doc old (doc d) = ok (old, d)
store_doc old _ = fail panic

-- Put: the value stored before, and the new document.
unfoldable pub put_path : Fields → Text → Value → Bool → Result (Value × Fields)
unfolding put
put_path d p x prepend =
    if is_missing x then fail (cannot_put p) else elim (put (doc d) p x prepend) [
      | none ↦ fail (cannot_put p)
      | some (old, new) ↦ store_doc old new
    ]

-- Unset: a path that leads nowhere changes nothing.
unfoldable pub unset : Fields → Text → Result (Value × Fields)
unfolding put
unset d p = elim (put (doc d) p missing false) [
  | none ↦ ok (missing, d)
  | some (old, new) ↦ store_doc old new
]

-- Push: the new array, and the new document.
unfoldable pub push : Fields → Text → Value → Result (Value × Fields)
unfolding get_path put_path
push d p x = if is_missing x then fail (cannot_push p) else do
  new ← elim (get_path d p) [
    | array xs ↦ ok (array (append_items xs (item x empty)))
    | missing ↦ ok (array (item x empty))
    | _ ↦ fail (not_an_array p)
  ]
  (_, d') ← put_path d p new false
  ok (new, d')

unfoldable pub last_item : Value → Items → Value × Items
last_item v empty = (v, empty)
last_item v (item w xs) = let (l, front) = last_item w xs in (l, item v front)

-- Pop: the element, and the new document.
unfoldable pub pop : Fields → Text → Bool → Result (Value × Fields)
unfolding get_path put_path last_item
pop d p last = elim (get_path d p) [
  | missing ↦ ok (missing, d)
  | array xs ↦ elim xs [
    | empty ↦ ok (missing, d)
    | item v rest ↦ do
      let (res, left) = if last then last_item v rest else (v, rest)
      (_, d') ← put_path d p (array left) false
      ok (res, d')
  ]
  | _ ↦ fail (not_an_array p)
]

-- {"a": {"b": [1, 2]}}
abbrev sample : Fields
sample =
    field (codes "a")
      (doc (field (codes "b") (array (item (int32 (pos 1)) (item (int32 (pos 2)) empty))) end)) end

get_test : get_path sample (codes "a.b.1") ≡ int32 (pos 2)
unfolding get_path
get_test = refl

put_test :
    put_path sample (codes "a.c.d") nil false
    ≡ ok (
      missing,
      field
          (codes "a")
          (doc (
            field
              (codes "b")
              (array (item (int32 (pos 1)) (item (int32 (pos 2)) empty)))
              (field (codes "c") (doc (field (codes "d") nil end)) end)))
          end,
    )
unfolding put_path
put_test = refl

unset_test :
    unset sample (codes "a.b.0")
    ≡ ok (
      int32 (pos 1),
      field
          (codes "a")
          (doc (field (codes "b") (array (item nil (item (int32 (pos 2)) empty))) end))
          end,
    )
unfolding unset
unset_test = refl

sign_test :
    Option.map
      (λ (r : Value × Fields). get_path r.1 (codes "a.b.+1"))
      (elim (put_path sample (codes "a.b.+1") nil false) [ ok r ↦ some r | fail _ ↦ none ])
    ≡ some missing
unfolding put_path get_path
sign_test = refl
