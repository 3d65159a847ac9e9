-- ===== src/Bsonkit/Set/Refines.antt =====
-- The set of bsonkit/set.go as what it promises: a list with no document twice, with no index.
use lungo.Base.{
  ℕ, ◌≡◌, refl, ap, ap₂, ◌∙◌, Bool, true, false, none, some, List, [], ◌∷◌, ◌++◌, arith, set,
  erase_idx,
}
use lungo.Bsonkit.Set.{DocSet, add, replace, remove, new_set}
use lungo.Bsonkit.Set.Keys.{position}
use lungo.Bsonkit.Set.Valid.{IsValid, add-IsValid, replace-IsValid, remove-IsValid, new_set-IsValid}

-- The calls that a client makes.
pub data Call : Type 0 where
  add_call : ℕ → Call
  replace_call : ℕ → ℕ → Call
  remove_call : ℕ → Call

unfoldable pub call : DocSet → Call → DocSet × Bool
call s (add_call d) = add s d
call s (replace_call a b) = replace s a b
call s (remove_call d) = remove s d

-- The same calls on a bare list, where membership is a search.
unfoldable pub spec : List ℕ → Call → List ℕ × Bool
spec xs (add_call d) = elim (position d xs) [ none ↦ (xs ++ d ∷ [], true) | some _ ↦ (xs, false) ]
spec xs (replace_call a b) = elim (position a xs) [
  | none ↦ (xs, false)
  | some i ↦ elim (position b xs) [ none ↦ (set xs i b, true) | some _ ↦ (xs, false) ]
]
spec xs (remove_call d) = elim (position d xs) [
  | none ↦ (xs, false)
  | some i ↦ (erase_idx xs i, true)
]

-- A sequence of calls, with the answer of each.
unfoldable pub run : DocSet → List Call → DocSet × List Bool
run s [] = (s, [])
run s (c ∷ cs) = let rest = run (call s c).0 cs in (rest.0, (call s c).1 ∷ rest.1)

unfoldable pub run_spec : List ℕ → List Call → List ℕ × List Bool
run_spec xs [] = (xs, [])
run_spec xs (c ∷ cs) = let rest = run_spec (spec xs c).0 cs in (rest.0, (spec xs c).1 ∷ rest.1)

-- Every call keeps the index of the set in step with its list, and the list without repetition.
pub call-IsValid : (s : DocSet) (c : Call) → IsValid s → IsValid (call s c).0
unfolding call
call-IsValid s (add_call d) v = add-IsValid s d v
call-IsValid s (replace_call a b) v = replace-IsValid s a b v
call-IsValid s (remove_call d) v = remove-IsValid s d v

-- On a valid set each call answers and changes the list as the bare list does.
pub call-spec :
    (s : DocSet) (c : Call)
    → IsValid s
    → ((call s c).0.list ≡ (spec s.list c).0) × ((call s c).1 ≡ (spec s.list c).1)
unfolding call spec add replace remove
call-spec s (add_call d) v = ground (arith, v.agrees d)
call-spec s (replace_call a b) v = ground (arith, v.agrees a, v.agrees b)
call-spec s (remove_call d) v = ground (arith, v.agrees d)

run-run_spec :
    (s : DocSet) (cs : List Call)
    → IsValid s
    → IsValid (run s cs).0
      × ((run s cs).0.list ≡ (run_spec s.list cs).0)
      × ((run s cs).1 ≡ (run_spec s.list cs).1)
unfolding run run_spec
run-run_spec s [] v = (v, refl, refl)
run-run_spec s (c ∷ cs) v =
    let (same, answer) = call-spec s c v in
    let (w, lists, answers) = run-run_spec (call s c).0 cs (call-IsValid s c v) in
    (
      w,
      lists ∙ ap (λ xs. (run_spec xs cs).0) same,
      ap₂ ◌∷◌ answer (answers ∙ ap (λ xs. (run_spec xs cs).1) same),
    )

-- From the set of any list of documents, every sequence of calls answers and leaves the list as
-- the bare list does, and the index stays in step with the list.
pub run-new_set :
    (ds : List ℕ) (cs : List Call)
    → IsValid (run (new_set ds) cs).0
      × ((run (new_set ds) cs).0.list ≡ (run_spec (new_set ds).list cs).0)
      × ((run (new_set ds) cs).1 ≡ (run_spec (new_set ds).list cs).1)
run-new_set ds cs = run-run_spec (new_set ds) cs (new_set-IsValid ds)
