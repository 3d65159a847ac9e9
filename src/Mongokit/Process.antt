-- ===== src/Mongokit/Process.antt =====
-- mongokit/process.go: the operator algorithm that queries, updates, projections and extraction
-- share. An operator works on a state: what the source changes through the document and the custom
-- value of the context. An error ends the work, and the state of that moment is not kept.
use lungo.Base.{
  Bool, false, ◌&&◌, Option, none, some, [], ◌∷◌, ◌++◌, ◌==◌, if◌then◌else◌, Text, Result, ok, fail,
  ◌>>=◌, Failure, unknown_top_level_operator, unknown_expression_operator, expected_operator,
  missing_default_operator, expected_document,
}
use lungo.Bsonkit.Value.{Value, doc, Fields, end, field, as_doc?}

-- The state, the operator's name, the path and the operand.
abbrev pub Operator : Type 0 → Type 0
Operator S = S → Text → Text → Value → Result S

-- `resolve` is Resolve with the query and the array filters of the context: it calls back with each
-- absolute path.
pub record Context (S : Type 0) : Type 0 where
  pub top_level : Text → Option (Operator S)
  pub expression : Text → Option (Operator S)
  pub skip_missing : Bool
  pub multi_top_level : Bool
  pub resolve : Text → S → (Text → S → Result S) → Result S

abbrev pub is_operator : Text → Bool
is_operator [] = false
is_operator (c ∷ s) = c == b'$'

abbrev pub join_path : Text → Text → Text
join_path [] key = key
join_path (c ∷ prefix) key = (c ∷ prefix) ++ b'.' ∷ key

module _ {S : Type 0} (ctx : Context S) where
  -- An operator that is not there: skipped, or an error.
  abbrev pub absent : Failure → S → Result S
  absent e s = if ctx.skip_missing then ok s else fail e

  -- The calls of a multi top level operator, for each pair and each resolved path.
  unfoldable pub call_pairs : Operator S → Text → Fields → S → Result S
  call_pairs op key end s = ok s
  call_pairs op key (field k v fs) s =
      ctx.resolve k s (λ path s'. op s' key path v) >>= call_pairs op key fs

  -- The first part of ProcessExpression, for a key that is an operator.
  unfoldable pub call_operator : Text → Text → Value → Bool → S → Result S
  unfolding call_pairs
  call_operator prefix key v root s =
      elim (if root then ctx.top_level key else ctx.expression key) [
        | none ↦
            absent
              (if root then unknown_top_level_operator key else unknown_expression_operator key) s
        | some op ↦
            if root && ctx.multi_top_level
            then elim (as_doc? v) [
              | none ↦ fail (expected_document key)
              | some fs ↦ call_pairs op key fs s
            ]
            else op s key prefix v
      ]

  -- The loop over the expressions of a field. An operator that is skipped ends it.
  unfoldable pub call_expressions : Text → Fields → S → Result S
  call_expressions path end s = ok s
  call_expressions path (field k v fs) s =
      if is_operator k
      then elim (ctx.expression k) [
        | none ↦ absent (unknown_expression_operator k) s
        | some op ↦ op s k path v >>= call_expressions path fs
      ]
      else fail (expected_operator k)

  unfoldable pub call_default : Text → Value → S → Result S
  call_default path v s = elim (ctx.expression []) [
    | none ↦ absent missing_default_operator s
    | some op ↦ op s [] path v
  ]

  -- A document whose first key is an operator holds expressions; all else is a condition.
  unfoldable pub call_field : Text → Value → S → Result S
  unfolding call_expressions call_default
  call_field path (doc (field k v fs)) s =
      if is_operator k
      then call_expressions path (field k v fs) s
      else call_default path (doc (field k v fs)) s
  call_field path v s = call_default path v s

  unfoldable pub process_expression : Text → Text → Value → Bool → S → Result S
  unfolding call_operator call_field
  process_expression prefix key v root s =
      if is_operator key
      then call_operator prefix key v root s
      else call_field (join_path prefix key) v s

  -- Process: all expressions in order, up to the first error.
  unfoldable pub process : Fields → Text → Bool → S → Result S
  unfolding process_expression
  process end prefix root s = ok s
  process (field k v fs) prefix root s =
      process_expression prefix k v root s >>= process fs prefix root
