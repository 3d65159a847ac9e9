-- ===== src/Tests/Project.antt =====
-- Project at concrete documents.
use lungo.Base.{◌≡◌, refl, false, [], ◌∷◌, text_eq, compare_text, codes, pos, ok}
use lungo.Bsonkit.Value.{int32, missing, Fields, end, field}
use lungo.Bsonkit.Number.{compare_int64s, compare_numbers}
use lungo.Bsonkit.Compare as C
use lungo.Bsonkit.Access.{get_path, put_path, unset}
use lungo.Mongokit.Project.{
  project, project_condition, apply_state, select_fields, copy_id, include_fields, exclude_fields,
  merge_fields,
}
use lungo.Mongokit.Project.Laws
use lungo.Mongokit.Project.Laws.{other_keys}
use lungo.Mongokit.Process.{process}
use lungo.Tests.{numerics}

-- {"_id": 7, "a": 1, "b": 2, "c": 3}
abbrev person : Fields
person = field (codes "_id") (int32 (pos 7)) (
    field (codes "a") (int32 (pos 1))
      (field (codes "b") (int32 (pos 2)) (field (codes "c") (int32 (pos 3)) end)))

-- {"_id": 7, "b": 2}
abbrev only_b : Fields
only_b = field (codes "_id") (int32 (pos 7)) (field (codes "b") (int32 (pos 2)) end)

program : Unit {0}
unfolding project project_condition apply_state select_fields copy_id include_fields exclude_fields
    merge_fields other_keys process get_path put_path unset C.compare C.compare_scalars
    compare_numbers compare_int64s compare_text text_eq
program = tt

project_b : project (λ m. m) numerics person (field (codes "b") (int32 (pos 1)) end) ≡ ok only_b
unfolding program
project_b = refl

-- {"b": 0, "c": 0}: only the last of the fields goes.
project_exclude :
    project
      (λ m. m)
      numerics
      person
      (field (codes "b") (int32 (pos 0)) (field (codes "c") (int32 (pos 0)) end))
    ≡ ok (
        field
          (codes "_id")
          (int32 (pos 7))
          (field (codes "a") (int32 (pos 1)) (field (codes "b") (int32 (pos 2)) end)))
unfolding program
project_exclude = refl

apply_state-beside_example : get_path only_b (codes "c") ≡ missing
unfolding program
apply_state-beside_example =
    Laws.apply_state-beside (λ m. m) false (codes "b" ∷ []) [] person only_b (codes "c") refl refl
      refl refl refl (record { not_end = refl; not_empty = refl })
