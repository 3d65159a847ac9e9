-- ===== src/Mongokit/Apply.antt =====
-- mongokit/apply.go: the update operators, and Update of mongokit/update.go. The state is the
-- document and its recorded changes; the Go map of the changes is a list of its entries. The time
-- is an argument.
pub mod Records
use lungo.Base.{
  ◌-◌, Bool, true, false, ◌||◌, List, [], ◌∷◌, ◌++◌, Option, none, some, if◌then◌else◌, Text,
  text_eq, codes, pos, negsuc, is_eq, is_lt, is_gt, Result, ok, fail, ◌>>=◌, panic, conflicting_key,
  expected_string, array_path, expected_sign, expected_type, expected_document, empty_update,
}
use lungo.Bsonkit.Value.{
  Value, missing, int64, boolean, string, doc, Fields, end, field, is_missing, as_array?,
  count_items,
}
use lungo.Bsonkit.Number.{Numerics}
use lungo.Bsonkit.Compare.{compare}
use lungo.Bsonkit.Path.{path_end, indexed_path}
use lungo.Bsonkit.PathTree.{PathNode, leaf, load, lookup, store_path, itoa}
use lungo.Bsonkit.Access.{get_path, put_path, unset, push, pop}
use lungo.Bsonkit.Math.{Arithmetic, increment, multiply}
use lungo.Mongokit.Process.{Context, Operator, process}
use lungo.Mongokit.Query.{SchemaCheck}
use lungo.Mongokit.Resolve.{resolve}

-- The times that the code reads: primitive.NewDateTimeFromTime(time.Now()), and bsonkit.Now().
pub record Clock : Type 0 where
  pub date_now : Value
  pub timestamp_now : Value

pub record Changes : Type 0 where
  pub upsert : Bool
  pub changed : List (Text × Value)
  pub path_tree : PathNode

pub record ApplyState : Type 0 where
  pub document : Fields
  pub changes : Changes

-- A write `changed[path] = v`.
unfoldable pub set_change : List (Text × Value) → Text → Value → List (Text × Value)
set_change [] path v = (path, v) ∷ []
set_change ((p, w) ∷ m) path v =
    let rest = set_change m path v in if text_eq p path then (p, v) ∷ m else (p, w) ∷ rest

-- Record
unfoldable pub record_change : Changes → Text → Value → Result Changes
unfolding lookup load store_path set_change
record_change c path v = lookup c.path_tree path >>= λ (node, rest).
    if load node || text_eq rest path_end
    then fail (conflicting_key path)
    else ok (record c {
      changed = set_change c.changed path v;
      path_tree = store_path c.path_tree path;
    })

-- The end of most operators: the new document, and the change recorded.
unfoldable pub finish : ApplyState → Fields → Text → Value → Result ApplyState
unfolding record_change
finish s d path v =
    record_change s.changes path v >>= λ c. ok (record { document = d; changes = c })

-- Put the value and record it.
unfoldable pub put_change : ApplyState → Text → Value → Result ApplyState
unfolding put_path finish
put_change s path v = put_path s.document path v false >>= λ put. finish s put.1 path v

unfoldable pub apply_set : Operator ApplyState
unfolding put_change
apply_set s name path v = put_change s path v

unfoldable pub apply_set_on_insert : Operator ApplyState
unfolding put_change
apply_set_on_insert s name path v = if s.changes.upsert then put_change s path v else ok s

unfoldable pub apply_unset : Operator ApplyState
unfolding unset finish
apply_unset s name path v = unset s.document path >>= λ (old, d).
    if is_missing old then ok (record s { document = d }) else finish s d path missing

unfoldable pub apply_rename : Operator ApplyState
unfolding unset put_path indexed_path record_change
apply_rename s name path (string new_path) =
    if indexed_path path || indexed_path new_path
    then fail (array_path name)
    else (unset s.document path >>= λ (value, d).
        if is_missing value
        then ok (record s { document = d })
        else (put_path d new_path value false >>= λ put.
            record_change s.changes path missing >>= λ c. record_change c new_path value >>= λ c'.
            ok (record { document = put.1; changes = c' })))
apply_rename s name path v = fail (expected_string name)

module _ (ar : Numerics) (ops : Arithmetic) (clock : Clock) where
  unfoldable pub apply_inc : Operator ApplyState
  unfolding increment finish
  apply_inc s name path v = increment ar ops s.document path v >>= λ (res, d). finish s d path res

  unfoldable pub apply_mul : Operator ApplyState
  unfolding multiply finish
  apply_mul s name path v = multiply ar ops s.document path v >>= λ (res, d). finish s d path res

  unfoldable pub apply_max : Operator ApplyState
  unfolding get_path put_change compare
  apply_max s name path v =
      let value = get_path s.document path in
      if is_missing value
      then put_change s path v
      else if is_lt (compare ar value v)
      then put_change s path v
      else ok s

  unfoldable pub apply_min : Operator ApplyState
  unfolding get_path put_change compare
  apply_min s name path v =
      let value = get_path s.document path in
      if is_missing value
      then put_change s path v
      else if is_gt (compare ar value v)
      then put_change s path v
      else ok s

  -- The time that a `$type` asks for.
  abbrev time_of : Value → Option Value
  time_of (string t) =
      if text_eq t (codes "date")
      then some clock.date_now
      else if text_eq t (codes "timestamp")
      then some clock.timestamp_now
      else none
  time_of v = none

  -- The end for a document: `if err == nil { return err }` leaves a change that succeeds
  -- unrecorded, and one that fails is recorded.
  unfoldable pub put_time : ApplyState → Text → Value → Result ApplyState
  unfolding put_path finish
  put_time s path now = elim (put_path s.document path now false) [
    | ok put ↦ ok (record s { document = put.1 })
    | fail panic ↦ fail panic
    | fail _ ↦ finish s s.document path now
  ]

  unfoldable pub apply_current_date : Operator ApplyState
  unfolding put_change put_time
  apply_current_date s name path (boolean true) = put_change s path clock.date_now
  apply_current_date s name path (boolean false) = ok s
  apply_current_date s name path (doc end) = fail panic
  apply_current_date s name path (doc (field k v end)) =
      if text_eq k (codes "$type")
      then elim (time_of v) [ some now ↦ put_time s path now | none ↦ fail (expected_type name) ]
      else fail (expected_document name)
  apply_current_date s name path v = fail (expected_document name)

  unfoldable pub apply_push : Operator ApplyState
  unfolding push finish
  apply_push s name path v = push s.document path v >>= λ (res, d). elim (as_array? res) [
    | some xs ↦ finish s d (path ++ b'.' ∷ itoa (count_items xs - 1)) v
    | none ↦ ok (record s { document = d })
  ]

  -- The operand 1 stands for the last element, and -1 for the first.
  abbrev pop_last : Text → Value → Result Bool
  pop_last name v =
      if is_eq (compare ar v (int64 (pos 1)))
      then ok true
      else if is_eq (compare ar v (int64 (negsuc 0)))
      then ok false
      else fail (expected_sign name)

  unfoldable pub apply_pop : Operator ApplyState
  unfolding pop finish get_path compare
  apply_pop s name path v = pop_last name v >>= λ last. pop s.document path last >>= λ (res, d).
      if is_missing res then ok (record s { document = d }) else finish s d path (get_path d path)

  -- The map FieldUpdateOperators.
  abbrev update_operator : Text → Option (Operator ApplyState)
  update_operator key =
      if text_eq key (codes "$set")
      then some apply_set
      else if text_eq key (codes "$setOnInsert")
      then some apply_set_on_insert
      else if text_eq key (codes "$unset")
      then some apply_unset
      else if text_eq key (codes "$rename")
      then some apply_rename
      else if text_eq key (codes "$inc")
      then some apply_inc
      else if text_eq key (codes "$mul")
      then some apply_mul
      else if text_eq key (codes "$max")
      then some apply_max
      else if text_eq key (codes "$min")
      then some apply_min
      else if text_eq key (codes "$currentDate")
      then some apply_current_date
      else if text_eq key (codes "$push")
      then some apply_push
      else if text_eq key (codes "$pop")
      then some apply_pop
      else none

  module _ (schema : SchemaCheck) where
    abbrev pub update_context : List Fields → Context ApplyState
    update_context filters = record {
      top_level = update_operator;
      expression = λ _. none;
      skip_missing = false;
      multi_top_level = true;
      resolve = λ path s f. resolve ar schema (λ (t : ApplyState). t.document) filters path s f;
    }

    -- Apply. The query serves only Resolve, which does not use it.
    unfoldable pub apply : Fields → Fields → Bool → List Fields → Result (Fields × Changes)
    unfolding process resolve
    apply d end upsert filters = fail empty_update
    apply d (field k v fs) upsert filters =
        process (update_context filters) (field k v fs) [] true (record {
          document = d;
          changes = record { upsert = upsert; changed = []; path_tree = leaf };
        })
        >>= λ s. ok (s.document, s.changes)

    -- Update: every document in turn, up to the first error.
    unfoldable pub update_list :
        List Fields → Fields → Bool → List Fields → Result (List (Fields × Changes))
    unfolding apply
    update_list [] update upsert filters = ok []
    update_list (d ∷ ds) update upsert filters =
        let rest = update_list ds update upsert filters in
        apply d update upsert filters >>= λ r. rest >>= λ rs. ok (r ∷ rs)
