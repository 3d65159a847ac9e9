-- ===== src/Mongokit/Apply/Records.antt =====
-- mongokit/apply.go: the changes that the update operators record.
use lungo.Base.{
  ◌≡◌, inl, inr, refl, sym, ap, ◌∙◌, ◌⊎◌, subst, Bool, true, false, ◌||◌, List, [], ◌∷◌, Option,
  none, some, if◌then◌else◌, Text, text_eq, text_eq_self, Bool-cases, is_lt, is_gt, ok, bind-ok,
  ok_injective, else-ok, ite_ok, conflicting_key, not_a_number,
}
use lungo.Bsonkit.Value.{Value, Fields, is_missing}
use lungo.Bsonkit.Number.{Numerics}
use lungo.Bsonkit.Compare.{compare}
use lungo.Bsonkit.Path.{path_end}
use lungo.Bsonkit.PathTree.{load, lookup}
use lungo.Bsonkit.Access.{get_path, put_path}
use lungo.Bsonkit.Access.RoundTrip.{unsigned, get_path-put_path}
use lungo.Bsonkit.Math.{
  Arithmetic, number_at, store_number, add_values, mul_values, increment, multiply,
}
use lungo.Mongokit.Process.{Operator}
use lungo.Mongokit.Apply.{
  Clock, Changes, ApplyState, set_change, record_change, finish, put_change, apply_set,
  apply_set_on_insert, apply_inc, apply_mul, apply_max, apply_min,
}

-- A read `changed[path]`.
unfoldable pub changed_at : List (Text × Value) → Text → Option Value
changed_at [] path = none
changed_at ((p, v) ∷ m) path =
    let rest = changed_at m path in if text_eq p path then some v else rest

changed_at-set_change :
    (m : List (Text × Value)) (path : Text) (v : Value)
    → changed_at (set_change m path v) path ≡ some v
unfolding changed_at set_change
changed_at-set_change [] path v = rw (text_eq_self path) refl
changed_at-set_change ((p, x) ∷ m) path v = elim (Bool-cases (text_eq p path)) [
  | inl e ↦ rw (e, changed_at, e) refl
  | inr e ↦ rw (e, changed_at, e) (changed_at-set_change m path v)
]

record_change-changed :
    (c c' : Changes) (path : Text) (v : Value)
    → record_change c path v ≡ ok c'
    → changed_at c'.changed path ≡ some v
unfolding record_change
record_change-changed c c' path v h =
    let ((node, rest), e, k) = bind-ok (lookup c.path_tree path) _ c' h in
    let (_, k') = else-ok (load node || text_eq rest path_end) _ (conflicting_key path) c' k in
    ap (λ (x : Changes). changed_at x.changed path) (sym (ok_injective k'))
    ∙ changed_at-set_change c.changed path v

-- The recorded value is the one that the document has.
abbrev pub IsRecorded : ApplyState → Text → Type 0
IsRecorded s path = changed_at s.changes.changed path ≡ some (get_path s.document path)

finish-IsRecorded :
    (s s' : ApplyState) (d : Fields) (path : Text) (v : Value)
    → finish s d path v ≡ ok s'
    → get_path d path ≡ v
    → IsRecorded s' path
unfolding finish
finish-IsRecorded s s' d path v h g =
    let (c, e, k) = bind-ok (record_change s.changes path v) _ s' h in
    subst (λ (x : ApplyState). IsRecorded x path) (ok_injective k)
      (record_change-changed s.changes c path v e ∙ ap (λ (x : Value). some x) (sym g))

put_change-IsRecorded :
    (s s' : ApplyState) (path : Text) (v : Value)
    → put_change s path v ≡ ok s'
    → unsigned path ≡ true
    → IsRecorded s' path
unfolding put_change
put_change-IsRecorded s s' path v h u =
    let ((old, d), e, k) = bind-ok (put_path s.document path v false) _ s' h in
    finish-IsRecorded s s' d path v k (get_path-put_path s.document d path v old false u e)

module _ (ar : Numerics) (ops : Arithmetic) where
  store_number-get_path :
      (d d' : Fields) (path : Text) (v r : Value)
      → store_number ar ops d path v ≡ ok (r, d')
      → unsigned path ≡ true
      → get_path d' path ≡ r
  store_number-get_path d d' path v r h u =
      let (_, k) = else-ok (is_missing v) _ (not_a_number path) (r, d') h in
      let ((old, x), e, k') = bind-ok (put_path d path v false) _ (r, d') k in
      let same = ok_injective k' in
      ap (λ (y : Value × Fields). get_path y.1 path) (sym same)
      ∙ get_path-put_path d x path v old false u e
      ∙ ap (λ (y : Value × Fields). y.0) same

-- The operators that store one value.
pub data Writer : Type 0 where
  set_writer : Writer
  set_on_insert_writer : Writer
  inc_writer : Writer
  mul_writer : Writer
  max_writer : Writer
  min_writer : Writer

module _ (ar : Numerics) (ops : Arithmetic) (clock : Clock) where
  abbrev pub operator_of : Writer → Operator ApplyState
  operator_of set_writer = apply_set
  operator_of set_on_insert_writer = apply_set_on_insert
  operator_of inc_writer = apply_inc ar ops clock
  operator_of mul_writer = apply_mul ar ops clock
  operator_of max_writer = apply_max ar ops clock
  operator_of min_writer = apply_min ar ops clock

  -- What a step that may leave the state does.
  abbrev Effect : ApplyState → ApplyState → Text → Type 0
  Effect s s' path = (s' ≡ s) ⊎ IsRecorded s' path

  write_or_skip :
      (b : Bool) (s s' : ApplyState) (path : Text) (v : Value)
      → (if b then put_change s path v else ok s) ≡ ok s'
      → unsigned path ≡ true
      → Effect s s' path
  write_or_skip b s s' path v h u =
      ite_ok b (put_change s path v) (ok s) s' h (λ k. inr (put_change-IsRecorded s s' path v k u))
        (λ k. inl (sym (ok_injective k)))

  -- $set, $setOnInsert, $inc, $mul, $max and $min on a path without signs leave the state, or
  -- record under the path the value that Get then finds there.
  pub operator_of-IsRecorded :
      (o : Writer) (s s' : ApplyState) (name path : Text) (v : Value)
      → operator_of o s name path v ≡ ok s'
      → unsigned path ≡ true
      → (s' ≡ s) ⊎ IsRecorded s' path
  unfolding apply_set apply_set_on_insert apply_inc apply_mul apply_max apply_min increment multiply
  operator_of-IsRecorded set_writer s s' name path v h u =
      inr (put_change-IsRecorded s s' path v h u)
  operator_of-IsRecorded set_on_insert_writer s s' name path v h u =
      write_or_skip s.changes.upsert s s' path v h u
  operator_of-IsRecorded inc_writer s s' name path v h u =
      let ((r, d), e, k) = bind-ok (increment ar ops s.document path v) _ s' h in
      inr (
        finish-IsRecorded s s' d path r k (
          store_number-get_path ar ops s.document d path
            (add_values ar ops (number_at ar ops s.document path) v) r e u))
  operator_of-IsRecorded mul_writer s s' name path v h u =
      let ((r, d), e, k) = bind-ok (multiply ar ops s.document path v) _ s' h in
      inr (
        finish-IsRecorded s s' d path r k (
          store_number-get_path ar ops s.document d path
            (mul_values ar ops (number_at ar ops s.document path) v) r e u))
  operator_of-IsRecorded max_writer s s' name path v h u =
      let value = get_path s.document path in
      ite_ok (is_missing value) (put_change s path v)
        (if is_lt (compare ar value v) then put_change s path v else ok s) s' h
        (λ k. inr (put_change-IsRecorded s s' path v k u))
        (λ k. write_or_skip (is_lt (compare ar value v)) s s' path v k u)
  operator_of-IsRecorded min_writer s s' name path v h u =
      let value = get_path s.document path in
      ite_ok (is_missing value) (put_change s path v)
        (if is_gt (compare ar value v) then put_change s path v else ok s) s' h
        (λ k. inr (put_change-IsRecorded s s' path v k u))
        (λ k. write_or_skip (is_gt (compare ar value v)) s s' path v k u)
