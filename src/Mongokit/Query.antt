-- ===== src/Mongokit/Query.antt =====
-- mongokit/match.go: the query operators that hold queries, and Match. The operators read the
-- document and change nothing, so the state of the algorithm is the unit. The operators that
-- process queries inside their operand do so in the context one level down; as many levels as the
-- query is deep are enough. The evaluation of a JSON schema is an argument.
pub mod Fuel
use lungo.Base.{
  ℕ, zero, suc, ◌+◌, max, Bool, true, false, Option, none, some, [], ◌∷◌, if◌then◌else◌, Text,
  text_eq, codes, pos, Result, ok, fail, ◌>>=◌, Failure, not_matched, out_of_fuel, expected_array,
  expected_document, expected_documents, empty_array, empty_document, ◌≡◌, refl,
}
use lungo.Bsonkit.Value.{
  Value, int32, doc, array, Items, empty, item, Fields, end, field, as_array?, as_doc?,
}
use lungo.Bsonkit.Number.{Numerics}
use lungo.Bsonkit.Access.{all}
use lungo.Mongokit.Process.{Context, Operator, process, process_expression}
use lungo.Mongokit.Match.{
  Verdict, match_negate, or_next, match_comp, match_in, match_nin, match_exists, match_type,
  match_all, match_size,
}

-- The nesting of documents and arrays.
unfoldable mutual
  pub depth : Value → ℕ
  depth (doc fs) = suc (depth_fields fs)
  depth (array xs) = suc (depth_items xs)
  depth v = 0

  pub depth_fields : Fields → ℕ
  depth_fields end = 0
  depth_fields (field k v fs) = max (depth v) (depth_fields fs)

  pub depth_items : Items → ℕ
  depth_items empty = 0
  depth_items (item v xs) = max (depth v) (depth_items xs)

-- Process on a query inside an operand: the query, the prefix and whether it stands at the root.
abbrev pub Inner : Type 0
Inner = Fields → Text → Bool → Verdict

-- matchAnd
unfoldable pub and_items : Inner → Text → Items → Verdict
and_items inner name empty = ok tt
and_items inner name (item v xs) = elim (as_doc? v) [
  | none ↦ fail (expected_documents name)
  | some q ↦ inner q [] true >>= λ _. and_items inner name xs
]

unfoldable pub match_and : Inner → Text → Value → Verdict
unfolding and_items
match_and inner name v = elim (as_array? v) [
  | none ↦ fail (expected_array name)
  | some xs ↦ elim xs [
    | empty ↦ fail (empty_array name)
    | item w ws ↦ and_items inner name (item w ws)
  ]
]

-- matchOr
unfoldable pub or_items : Inner → Text → Items → Verdict
or_items inner name empty = fail not_matched
or_items inner name (item v xs) = elim (as_doc? v) [
  | none ↦ fail (expected_documents name)
  | some q ↦ or_next (inner q [] true) (or_items inner name xs)
]

unfoldable pub match_or : Inner → Text → Value → Verdict
unfolding or_items
match_or inner name v = elim (as_array? v) [
  | none ↦ fail (expected_array name)
  | some xs ↦ elim xs [
    | empty ↦ fail (empty_array name)
    | item w ws ↦ or_items inner name (item w ws)
  ]
]

unfoldable pub match_nor : Inner → Text → Value → Verdict
unfolding match_or
match_nor inner name v = match_negate (match_or inner name v)

-- matchNot: matches when one of the expressions does not. `one` is ProcessExpression.
unfoldable pub not_fields : (Text → Value → Verdict) → Fields → Verdict
not_fields one end = fail not_matched
not_fields one (field k v fs) = elim (one k v) [
  | ok _ ↦ not_fields one fs
  | fail not_matched ↦ ok tt
  | fail e ↦ fail e
]

unfoldable pub match_not : (Text → Value → Verdict) → Text → Value → Verdict
unfolding not_fields
match_not one name v = elim (as_doc? v) [
  | none ↦ fail (expected_document name)
  | some fs ↦ elim fs [
    | end ↦ fail (empty_document name)
    | field k w gs ↦ not_fields one (field k w gs)
  ]
]

-- matchElem: each element stands alone under the key "item" of a virtual document.
unfoldable pub elem_items : (Fields → Verdict) → Items → Verdict
elem_items test empty = fail not_matched
elem_items test (item v xs) = or_next (test (field (codes "item") v end)) (elem_items test xs)

unfoldable pub match_elem : (Fields → Fields → Verdict) → Fields → Text → Text → Value → Verdict
unfolding elem_items all
match_elem inner d name path v = elim (as_doc? v) [
  | none ↦ fail (expected_document name)
  | some q ↦ elim q [
    | end ↦ fail not_matched
    | field k w fs ↦ elim (as_array? (all d path true true).0) [
      | none ↦ fail not_matched
      | some xs ↦ elem_items (λ virtual. inner virtual (field k w fs)) xs
    ]
  ]
]

-- Evaluate of bsonkit/schema.go, as the verdict of matchJSONSchema.
abbrev pub SchemaCheck : Type 0
SchemaCheck = Fields → Text → Value → Verdict

module _ (ar : Numerics) (schema : SchemaCheck) where
  -- The maps TopLevelQueryOperators and ExpressionQueryOperators, over the context below.
  abbrev top_operator : Inner → Fields → Text → Option (Operator (Unit {0}))
  top_operator inner d key =
      if text_eq key (codes "$and")
      then some (λ _ name _ v. match_and inner name v)
      else if text_eq key (codes "$or")
      then some (λ _ name _ v. match_or inner name v)
      else if text_eq key (codes "$nor")
      then some (λ _ name _ v. match_nor inner name v)
      else if text_eq key (codes "$jsonSchema")
      then some (λ _ name _ v. schema d name v)
      else none

  abbrev is_comparison : Text → Bool
  is_comparison key =
      if text_eq key []
      then true
      else if text_eq key (codes "$eq")
      then true
      else if text_eq key (codes "$gt")
      then true
      else if text_eq key (codes "$lt")
      then true
      else if text_eq key (codes "$gte")
      then true
      else if text_eq key (codes "$lte")
      then true
      else text_eq key (codes "$ne")

  abbrev expression_operator :
      (Text → Text → Value → Verdict)
      → (Fields → Fields → Verdict)
      → Fields
      → Text
      → Option (Operator (Unit {0}))
  expression_operator one elem d key =
      if is_comparison key
      then some (λ _ op path v. match_comp ar d op path v)
      else if text_eq key (codes "$not")
      then some (λ _ name path v. match_not (one path) name v)
      else if text_eq key (codes "$in")
      then some (λ _ name path v. match_in ar d name path v)
      else if text_eq key (codes "$nin")
      then some (λ _ name path v. match_nin ar d name path v)
      else if text_eq key (codes "$exists")
      then some (λ _ _ path v. match_exists d path v)
      else if text_eq key (codes "$type")
      then some (λ _ name path v. match_type ar d name path v)
      else if text_eq key (codes "$all")
      then some (λ _ name path v. match_all ar d name path v)
      else if text_eq key (codes "$size")
      then some (λ _ name path v. match_size ar d name path v)
      else if text_eq key (codes "$elemMatch")
      then some (λ _ name path v. match_elem elem d name path v)
      else none

  -- The context of Match at a level. At level 0 no operator is run.
  unfoldable pub match_context : ℕ → Fields → Context (Unit {0})
  match_context zero d = record {
    top_level = λ _. some (λ _ _ _ _. fail out_of_fuel);
    expression = λ _. some (λ _ _ _ _. fail out_of_fuel);
    skip_missing = false;
    multi_top_level = false;
    resolve = λ path s f. f path s;
  }
  match_context (suc level) d = record {
    top_level = top_operator (λ q prefix root. process (match_context level d) q prefix root tt) d;
    expression =
        expression_operator
          (λ path k v. process_expression (match_context level d) path k v false tt)
          (λ virtual q. process (match_context level virtual) q (codes "item") false tt) d;
    skip_missing = false;
    multi_top_level = false;
    resolve = λ path s f. f path s;
  }

  -- Match: a mismatch is an answer, any other error is passed on.
  unfoldable pub match : Fields → Fields → Result Bool
  unfolding match_context process
  match d query = elim (process (match_context (suc (depth_fields query)) d) query [] true tt) [
    | ok _ ↦ ok true
    | fail not_matched ↦ ok false
    | fail e ↦ fail e
  ]
