-- ===== src/Mongokit/Extract.antt =====
-- mongokit/extract.go: the constant parts of a query. The state is the document that is built. An
-- `$and` or `$or` processes the queries inside it away from the root, where only the expression
-- operators are known, so none of them is inside another.
use lungo.Base.{
  true, false, Option, none, some, if◌then◌else◌, Text, text_eq, codes, [], Result, ok, fail, ◌>>=◌,
  expected_array, expected_documents, empty_array,
}
use lungo.Bsonkit.Value.{Items, empty, item, Fields, end, as_array?, as_doc?}
use lungo.Bsonkit.Access.{put_path}
use lungo.Mongokit.Process.{Context, Operator, process}

unfoldable pub extract_eq : Operator Fields
unfolding put_path
extract_eq d name path v = put_path d path v false >>= λ put. ok put.1

unfoldable pub extract_in : Operator Fields
unfolding put_path
extract_in d name path v = elim (as_array? v) [
  | none ↦ fail (expected_array name)
  | some (item w empty) ↦ put_path d path w false >>= λ put. ok put.1
  | some _ ↦ ok d
]

abbrev extract_expression : Text → Option (Operator Fields)
extract_expression key =
    if text_eq key []
    then some extract_eq
    else if text_eq key (codes "$eq")
    then some extract_eq
    else if text_eq key (codes "$in")
    then some extract_in
    else none

-- The context of the queries inside `$and` and `$or`. Their top level is not read.
abbrev pub inner_context : Context Fields
inner_context = record {
  top_level = λ _. none;
  expression = extract_expression;
  skip_missing = true;
  multi_top_level = false;
  resolve = λ path s f. f path s;
}

unfoldable pub extract_items : Text → Items → Fields → Result Fields
unfolding process
extract_items name empty d = ok d
extract_items name (item v xs) d = elim (as_doc? v) [
  | none ↦ fail (expected_documents name)
  | some q ↦ process inner_context q [] false d >>= extract_items name xs
]

unfoldable pub extract_and : Operator Fields
unfolding extract_items
extract_and d name path v = elim (as_array? v) [
  | none ↦ fail (expected_array name)
  | some empty ↦ fail (empty_array name)
  | some (item w ws) ↦ extract_items name (item w ws) d
]

unfoldable pub extract_or : Operator Fields
unfolding process
extract_or d name path v = elim (as_array? v) [
  | none ↦ fail (expected_array name)
  | some empty ↦ fail (empty_array name)
  | some (item w empty) ↦ elim (as_doc? w) [
    | none ↦ fail (expected_documents name)
    | some q ↦ process inner_context q [] false d
  ]
  | some _ ↦ ok d
]

abbrev pub extract_context : Context Fields
extract_context = record {
  top_level = λ key.
      if text_eq key (codes "$and")
      then some extract_and
      else if text_eq key (codes "$or")
      then some extract_or
      else none;
  expression = extract_expression;
  skip_missing = true;
  multi_top_level = false;
  resolve = λ path s f. f path s;
}

unfoldable pub extract : Fields → Result Fields
unfolding process
extract query = process extract_context query [] true end
