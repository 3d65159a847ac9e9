-- ===== src/Mongokit/Query/Fuel.antt =====
-- The levels that Match of mongokit/match.go starts with are enough for every query.
use lungo.Base.{
  ℕ, zero, suc, ◌≤◌, ◌<◌, ◌≡◌, ◌≢◌, refl, Bool, true, false, ◌&&◌, Option, none, some, [],
  if◌then◌else◌, if_both, Text, text_eq, codes, ok, fail, ◌>>=◌, Failure, not_matched, out_of_fuel,
  arith, unknown_expression_operator, missing_default_operator, expected_document,
}
use lungo.Bsonkit.Value.{
  Value, doc, array, Items, empty, item, Fields, end, field, as_array?, as_doc?,
}
use lungo.Bsonkit.Number.{Numerics}
use lungo.Bsonkit.Access.{all}
use lungo.Mongokit.Process.{
  Context, Operator, process, process_expression, call_operator, call_field, call_expressions,
  call_default, call_pairs, absent, is_operator, join_path,
}
use lungo.Mongokit.Match.{Verdict}
use lungo.Mongokit.Match.Fuel.{
  Runs, ok-Runs, bind-Runs, or_next-Runs, match_negate-Runs, match_comp-Runs, match_in-Runs,
  match_nin-Runs, match_all-Runs, match_size-Runs, match_exists-Runs, match_type-Runs,
}
use lungo.Mongokit.Query.{
  depth, depth_fields, depth_items, Inner, and_items, match_and, or_items, match_or, match_nor,
  not_fields, match_not, elem_items, match_elem, SchemaCheck, is_comparison, match_context, match,
}

-- An inner query that is less deep than `n` runs.
abbrev InnerRuns : Inner → ℕ → Type 0
InnerRuns inner n =
    (q : Fields) (prefix : Text) (root : Bool) → depth_fields q < n → Runs (inner q prefix root)

and_items-Runs :
    (inner : Inner) (n : ℕ) (name : Text) (xs : Items)
    → InnerRuns inner n
    → depth_items xs ≤ n
    → Runs (and_items inner name xs)
unfolding and_items depth
and_items-Runs inner n name empty h k = ok-Runs
and_items-Runs inner n name (item (doc q) xs) h k =
    bind-Runs (inner q [] true) _ (h q [] true (omega arith))
      (and_items-Runs inner n name xs h (omega arith))
and_items-Runs inner n name (item v xs) h k = λ e. cc

match_and-Runs :
    (inner : Inner) (n : ℕ) (name : Text) (v : Value)
    → InnerRuns inner n
    → depth v ≤ n
    → Runs (match_and inner name v)
unfolding match_and depth
match_and-Runs inner n name (array empty) h k = λ e. cc
match_and-Runs inner n name (array (item w ws)) h k =
    and_items-Runs inner n name (item w ws) h (omega arith)
match_and-Runs inner n name _ h k = λ e. cc

or_items-Runs :
    (inner : Inner) (n : ℕ) (name : Text) (xs : Items)
    → InnerRuns inner n
    → depth_items xs ≤ n
    → Runs (or_items inner name xs)
unfolding or_items depth
or_items-Runs inner n name empty h k = λ e. cc
or_items-Runs inner n name (item (doc q) xs) h k =
    or_next-Runs (inner q [] true) _ (h q [] true (omega arith))
      (or_items-Runs inner n name xs h (omega arith))
or_items-Runs inner n name (item v xs) h k = λ e. cc

match_or-Runs :
    (inner : Inner) (n : ℕ) (name : Text) (v : Value)
    → InnerRuns inner n
    → depth v ≤ n
    → Runs (match_or inner name v)
unfolding match_or depth
match_or-Runs inner n name (array empty) h k = λ e. cc
match_or-Runs inner n name (array (item w ws)) h k =
    or_items-Runs inner n name (item w ws) h (omega arith)
match_or-Runs inner n name _ h k = λ e. cc

match_nor-Runs :
    (inner : Inner) (n : ℕ) (name : Text) (v : Value)
    → InnerRuns inner n
    → depth v ≤ n
    → Runs (match_nor inner name v)
unfolding match_nor
match_nor-Runs inner n name v h k = match_negate-Runs _ (match_or-Runs inner n name v h k)

not_fields-Runs :
    (one : Text → Value → Verdict) (n : ℕ) (fs : Fields)
    → ((k : Text) (v : Value) → depth v < n → Runs (one k v))
    → depth_fields fs < n
    → Runs (not_fields one fs)
unfolding not_fields depth
not_fields-Runs one n end h k = λ e. cc
not_fields-Runs one n (field key v fs) h k =
    not_step (one key v) (not_fields one fs) (h key v (omega arith))
      (not_fields-Runs one n fs h (omega arith))
  where
    not_step :
        (m r : Verdict)
        → Runs m
        → Runs r
        → Runs (elim m [ ok _ ↦ r | fail not_matched ↦ ok tt | fail e ↦ fail e ])
    not_step (ok t) r h k = k
    not_step (fail not_matched) r h k = λ e. cc
    not_step (fail e) r h k = h

match_not-Runs :
    (one : Text → Value → Verdict) (n : ℕ) (name : Text) (v : Value)
    → ((k : Text) (w : Value) → depth w < n → Runs (one k w))
    → depth v ≤ n
    → Runs (match_not one name v)
unfolding match_not depth
match_not-Runs one n name (doc end) h k = λ e. cc
match_not-Runs one n name (doc (field key w gs)) h k =
    not_fields-Runs one n (field key w gs) h (omega arith)
match_not-Runs one n name _ h k = λ e. cc

elem_items-Runs :
    (test : Fields → Verdict) (xs : Items)
    → ((virtual : Fields) → Runs (test virtual))
    → Runs (elem_items test xs)
unfolding elem_items
elem_items-Runs test empty h = λ e. cc
elem_items-Runs test (item v xs) h = or_next-Runs (test _) _ (h _) (elem_items-Runs test xs h)

match_elem-Runs :
    (inner : Fields → Fields → Verdict) (n : ℕ) (d : Fields) (name path : Text) (v : Value)
    → ((virtual q : Fields) → depth_fields q < n → Runs (inner virtual q))
    → depth v ≤ n
    → Runs (match_elem inner d name path v)
unfolding match_elem depth
match_elem-Runs inner n d name path (doc end) h k = λ e. cc
match_elem-Runs inner n d name path (doc (field key w fs)) h k =
    over (as_array? (all d path true true).0)
  where
    over :
        (o : Option Items)
        → Runs (elim o [
          | none ↦ fail not_matched
          | some xs ↦ elem_items (λ virtual. inner virtual (field key w fs)) xs
        ])
    over none = λ e. cc
    over (some xs) = elem_items-Runs _ xs (λ virtual. h virtual (field key w fs) (omega arith))
match_elem-Runs inner n d name path _ h k = λ e. cc

-- An operator, if there is one, runs on every operand that is at most as deep as `n`.
abbrev OpRuns : ℕ → Option (Operator (Unit {0})) → Type 0
OpRuns n none = Unit
OpRuns n (some op) =
    (s : Unit {0}) (name path : Text) (v : Value) → depth v ≤ n → Runs (op s name path v)

record LevelRuns (n : ℕ) (ctx : Context (Unit {0})) : Type 0 where
  top : (key : Text) → OpRuns n (ctx.top_level key)
  expr : (key : Text) → OpRuns n (ctx.expression key)
  no_multi : ctx.multi_top_level ≡ false

absent-Runs : (ctx : Context (Unit {0})) (e : Failure) → e ≢ out_of_fuel → Runs (absent ctx e tt)
absent-Runs ctx e h = if_both Runs ctx.skip_missing ok-Runs (λ k. h (ground arith))

module _ (n : ℕ) (ctx : Context (Unit {0})) (level : LevelRuns n ctx) where
  -- The lookup of an expression operator, and what is done with it.
  found-Runs :
      (o : Option (Operator (Unit {0}))) (key path : Text) (v : Value) (next : Unit {0} → Verdict)
      (e : Failure)
      → e ≢ out_of_fuel
      → OpRuns n o
      → depth v ≤ n
      → Runs (next tt)
      → Runs (elim o [ none ↦ absent ctx e tt | some op ↦ op tt key path v >>= next ])
  found-Runs none key path v next e ne h k l = absent-Runs ctx e ne
  found-Runs (some op) key path v next e ne h k l =
      bind-Runs (op tt key path v) next (h tt key path v k) l

  call_expressions-Runs :
      (path : Text) (fs : Fields) → depth_fields fs ≤ n → Runs (call_expressions ctx path fs tt)
  unfolding call_expressions depth
  call_expressions-Runs path end k = ok-Runs
  call_expressions-Runs path (field key v fs) k =
      if_both Runs (is_operator key)
        (found-Runs (ctx.expression key) key path v (call_expressions ctx path fs)
          (unknown_expression_operator key) (λ e. cc) (level.expr key) (omega arith)
          (call_expressions-Runs path fs (omega arith)))
        (λ e. cc)

  call_default-Runs : (path : Text) (v : Value) → depth v ≤ n → Runs (call_default ctx path v tt)
  unfolding call_default
  call_default-Runs path v k = given (ctx.expression []) (level.expr [])
    where
      given :
          (o : Option (Operator (Unit {0})))
          → OpRuns n o
          → Runs
              (elim o [ none ↦ absent ctx missing_default_operator tt | some op ↦ op tt [] path v ])
      given none h = absent-Runs ctx missing_default_operator (λ e. cc)
      given (some op) h = h tt [] path v k

  call_field-Runs : (path : Text) (v : Value) → depth v ≤ n → Runs (call_field ctx path v tt)
  unfolding call_field depth
  call_field-Runs path (doc end) k = call_default-Runs path (doc end) k
  call_field-Runs path (doc (field key w fs)) k =
      if_both Runs (is_operator key) (call_expressions-Runs path (field key w fs) (omega arith))
        (call_default-Runs path (doc (field key w fs)) k)
  call_field-Runs path v k = call_default-Runs path v k

  -- The operator at the root or within an expression, called as it is.
  looked_up :
      (o : Option (Operator (Unit {0}))) (key prefix : Text) (v : Value) (root : Bool) (e : Failure)
      → e ≢ out_of_fuel
      → OpRuns n o
      → depth v ≤ n
      → Runs (elim o [
        | none ↦ absent ctx e tt
        | some op ↦
            if root && ctx.multi_top_level
            then elim (as_doc? v) [
              | none ↦ fail (expected_document key)
              | some fs ↦ call_pairs ctx op key fs tt
            ]
            else op tt key prefix v
      ])
  looked_up none key prefix v root e ne h k = absent-Runs ctx e ne
  looked_up (some op) key prefix v root e ne h k =
      let single : (root && ctx.multi_top_level) ≡ false = ground (arith, level.no_multi) in
      rw single (h tt key prefix v k)

  process_expression-Runs :
      (prefix key : Text) (v : Value) (root : Bool)
      → depth v ≤ n
      → Runs (process_expression ctx prefix key v root tt)
  unfolding process_expression call_operator
  process_expression-Runs prefix key v true k =
      if_both Runs (is_operator key)
        (looked_up (ctx.top_level key) key prefix v true _ (λ e. cc) (level.top key) k)
        (call_field-Runs (join_path prefix key) v k)
  process_expression-Runs prefix key v false k =
      if_both Runs (is_operator key)
        (looked_up (ctx.expression key) key prefix v false _ (λ e. cc) (level.expr key) k)
        (call_field-Runs (join_path prefix key) v k)

  process-Runs :
      (fs : Fields) (prefix : Text) (root : Bool)
      → depth_fields fs ≤ n
      → Runs (process ctx fs prefix root tt)
  unfolding process depth
  process-Runs end prefix root k = ok-Runs
  process-Runs (field key v fs) prefix root k =
      bind-Runs (process_expression ctx prefix key v root tt) (process ctx fs prefix root)
        (process_expression-Runs prefix key v root (omega arith))
        (process-Runs fs prefix root (omega arith))

module _ (ar : Numerics) (schema : SchemaCheck)
    (schema_runs : (d : Fields) (name : Text) (v : Value) → Runs (schema d name v)) where
  -- A level runs if the level below it runs on what is less deep.
  module _ (n : ℕ)
      (below : (d q : Fields) (prefix : Text) (root : Bool)
        → depth_fields q < n
        → Runs (process (match_context ar schema n d) q prefix root tt))
      (below_one : (d : Fields) (prefix key : Text) (v : Value)
        → depth v < n
        → Runs (process_expression (match_context ar schema n d) prefix key v false tt)) where
    level_step : (d : Fields) → LevelRuns n (match_context ar schema (suc n) d)
    unfolding match_context
    level_step d = record {
      top = λ key.
          if_both (OpRuns n) (text_eq key (codes "$and"))
            (λ s name path v k. match_and-Runs _ n name v (below d) k)
            (if_both (OpRuns n) (text_eq key (codes "$or"))
              (λ s name path v k. match_or-Runs _ n name v (below d) k)
              (if_both (OpRuns n) (text_eq key (codes "$nor"))
                (λ s name path v k. match_nor-Runs _ n name v (below d) k)
                (if_both (OpRuns n) (text_eq key (codes "$jsonSchema"))
                  (λ s name path v k. schema_runs d name v) tt)));
      expr = λ key.
          if_both (OpRuns n) (is_comparison ar schema key)
            (λ s op path v k. match_comp-Runs ar d op path v)
            (if_both (OpRuns n) (text_eq key (codes "$not"))
              (λ s name path v k. match_not-Runs _ n name v (below_one d path) k)
              (if_both (OpRuns n) (text_eq key (codes "$in"))
                (λ s name path v k. match_in-Runs ar d name path v)
                (if_both (OpRuns n) (text_eq key (codes "$nin"))
                  (λ s name path v k. match_nin-Runs ar d name path v)
                  (if_both (OpRuns n) (text_eq key (codes "$exists"))
                    (λ s name path v k. match_exists-Runs d path v)
                    (if_both (OpRuns n) (text_eq key (codes "$type"))
                      (λ s name path v k. match_type-Runs ar d name path v)
                      (if_both (OpRuns n) (text_eq key (codes "$all"))
                        (λ s name path v k. match_all-Runs ar d name path v)
                        (if_both (OpRuns n) (text_eq key (codes "$size"))
                          (λ s name path v k. match_size-Runs ar d name path v)
                          (if_both (OpRuns n) (text_eq key (codes "$elemMatch"))
                            (λ s name path v k.
                              match_elem-Runs _ n d name path v
                                (λ virtual q. below virtual q (codes "item") false) k)
                            tt))))))));
      no_multi = refl;
    }

  level_runs : (n : ℕ) (d : Fields) → LevelRuns n (match_context ar schema (suc n) d)
  level_runs zero =
      level_step zero (λ d q prefix root h. absurd (omega arith))
        (λ d prefix key v h. absurd (omega arith))
  level_runs (suc m) =
      level_step (suc m)
        (λ d q prefix root h. process-Runs m _ (level_runs m d) q prefix root (omega arith))
        (λ d prefix key v h.
          process_expression-Runs m _ (level_runs m d) prefix key v false (omega arith))

  answer :
      (r : Verdict)
      → Runs r
      → (elim r [ ok _ ↦ ok true | fail not_matched ↦ ok false | fail e ↦ fail e ])
        ≢ fail out_of_fuel
  answer (ok t) h = λ e. cc
  answer (fail not_matched) h = λ e. cc
  answer (fail e) h = λ k. h (ground arith)

  -- On any document and query Match with its levels has a result other than that of running out of
  -- them: a verdict, an error of the source or a panic, if the evaluation of a JSON schema has. The
  -- panics of the source on decimals that are NaN or infinite are not modelled.
  pub match-terminates : (d query : Fields) → match ar schema d query ≢ fail out_of_fuel
  unfolding match
  match-terminates d query = answer _ (
      process-Runs (depth_fields query) _ (level_runs (depth_fields query) d) query [] true
        (omega arith))
