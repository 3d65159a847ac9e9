-- ===== src/Mongokit/Resolve.antt =====
-- mongokit/resolve.go and mongokit/path.go: positional operators in paths.
use lungo.Base.{
  ℕ, zero, suc, ◌+◌, Bool, true, false, List, [], ◌∷◌, ◌==◌, Option, none, some, if◌then◌else◌,
  Text, text_eq, Result, ok, fail, ◌>>=◌, out_of_fuel, expected_array, positional_operator, take,
  drop,
}
use lungo.Bsonkit.Value.{Value, Items, empty, item, Fields, end, field, as_array?}
use lungo.Bsonkit.Number.{Numerics}
use lungo.Bsonkit.Path.{path_end, path_segment, reduce_path}
use lungo.Bsonkit.PathTree.{decimal_digits, itoa, add_segment}
use lungo.Bsonkit.Access.{get_path}
use lungo.Mongokit.Query.{SchemaCheck, match}

-- strings.Index of "$".
unfoldable pub dollar_index : Text → Option ℕ
dollar_index [] = none
dollar_index (c ∷ s) =
    let rest : Option ℕ = elim (dollar_index s) [ none ↦ none | some i ↦ some (suc i) ] in
    if c == b'$' then some 0 else rest

-- The leading path, the operator and the trailing path.
unfoldable pub split_dynamic_path : Text → Text × Text × Text
unfolding dollar_index path_segment reduce_path
split_dynamic_path p = elim (dollar_index p) [
  | none ↦ (p, path_end, path_end)
  | some zero ↦ (path_end, path_segment p, reduce_path p)
  | some (suc i) ↦ (take i p, path_segment (drop (suc i) p), reduce_path (drop (suc i) p))
]

unfoldable pub count_dollars : Text → ℕ
count_dollars [] = 0
count_dollars (c ∷ s) = (if c == b'$' then 1 else 0) + count_dollars s

-- The identifier of an operator "$[identifier]".
unfoldable pub before_bracket : Text → Option Text
before_bracket [] = none
before_bracket (c ∷ []) = if c == b']' then some [] else none
before_bracket (c ∷ d ∷ s) = elim (before_bracket (d ∷ s)) [ none ↦ none | some t ↦ some (c ∷ t) ]

unfoldable pub identifier_of : Text → Option Text
unfolding before_bracket
identifier_of (c ∷ d ∷ s) =
    if c == b'$' then (if d == b'[' then before_bracket s else none) else none
identifier_of _ = none

-- The path of an element, from the leading path, the index and the trailing path.
abbrev pub element_path : Text → ℕ → Text → Text
element_path head i tail =
    let fixed = add_segment head (itoa i) in
    if text_eq tail path_end then fixed else add_segment fixed tail

module _ (ar : Numerics) (schema : SchemaCheck) {S : Type 0} (document : S → Fields) where
  -- One array filter matches the element under the identifier.
  unfoldable pub matches_filter : Text → Value → List Fields → Result Bool
  unfolding match
  matches_filter identifier v [] = ok false
  matches_filter identifier v (f ∷ fs) =
      let rest = matches_filter identifier v fs in
      match ar schema (field identifier v end) f >>= λ b. if b then ok true else rest

  -- The elements of an array, from an index on.
  unfoldable pub each_element :
      (ℕ → Value → Result Bool) → (ℕ → S → Result S) → ℕ → Items → S → Result S
  each_element test call i empty s = ok s
  each_element test call i (item v xs) s =
      test i v >>= λ b. (if b then call i s else ok s) >>= each_element test call (suc i) xs

  -- A round replaces the first operator of the path by an index, so a round for each `$` and one
  -- more are enough.
  unfoldable pub resolve_path : List Fields → ℕ → Text → S → (Text → S → Result S) → Result S
  unfolding split_dynamic_path identifier_of each_element matches_filter get_path decimal_digits
  resolve_path filters zero p s callback = fail out_of_fuel
  resolve_path filters (suc fuel) p s callback =
      let (head, operator, tail) = split_dynamic_path p in
      let next =
        λ (i : ℕ) (s' : S). resolve_path filters fuel (element_path head i tail) s' callback in
      if text_eq operator path_end
      then callback head s
      else if text_eq head path_end
      then fail (positional_operator operator)
      else elim (as_array? (get_path (document s) head)) [
        | none ↦ fail (expected_array head)
        | some xs ↦ elim (identifier_of operator) [
          | none ↦ fail (positional_operator operator)
          | some [] ↦ each_element (λ _ _. ok true) next 0 xs s
          | some (c ∷ name) ↦ each_element (λ _ v. matches_filter (c ∷ name) v filters) next 0 xs s
        ]
      ]

  unfoldable pub resolve : List Fields → Text → S → (Text → S → Result S) → Result S
  unfolding resolve_path count_dollars
  resolve filters p s callback = resolve_path filters (count_dollars p + 1) p s callback
