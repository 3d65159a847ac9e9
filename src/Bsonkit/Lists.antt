-- ===== src/Bsonkit/Lists.antt =====
-- bsonkit/lists.go: selecting and collecting over lists of documents.
use lungo.Base.{
  ℕ, zero, suc, Bool, false, ◌&&◌, not, leb, List, [], ◌∷◌, ◌++◌, length, if◌then◌else◌, Text, ℤ,
  pos, negsuc, Option, none, some, is_eq,
}
use lungo.Bsonkit.Value.{Value, Items, empty, item, Fields, is_missing, append_items, as_array?}
use lungo.Bsonkit.Number.{Numerics}
use lungo.Bsonkit.Compare.{compare}
use lungo.Bsonkit.Access.{get_path, all}

-- The check `limit > 0 && len(result) >= limit`.
unfoldable pub is_full : ℤ → ℕ → Bool
is_full (pos zero) n = false
is_full (pos (suc limit)) n = leb (suc limit) n
is_full (negsuc k) n = false

-- Select. The selector writes to a variable of its caller, so it passes a state on. It answers
-- whether the document is selected and whether the loop ends.
unfoldable pub select {ℓ κ} :
    {D : Type ℓ} {S : Type κ} → ℤ → (D → S → (Bool × Bool) × S) → List D → List D → S → List D × S
unfolding is_full
select limit selector result [] s = (result, s)
select limit selector result (d ∷ ds) s =
    let answer = selector d s in
    let selected = answer.0.0 in
    let exit = answer.0.1 in
    let result' = if selected then result ++ d ∷ [] else result in
    let rest = select limit selector result' ds answer.1 in
    if not selected && exit
    then (result, answer.1)
    else if not selected
    then rest
    else if exit
    then (result', answer.1)
    else if is_full limit (length result')
    then (result', answer.1)
    else rest

-- Pick, from the first document on.
unfoldable pub pick : List Fields → Text → Bool → Items
unfolding get_path
pick [] path compact = empty
pick (d ∷ ds) path compact =
    let v = get_path d path in
    let rest = pick ds path compact in if compact && is_missing v then rest else item v rest

-- The loop of Collect that adds values.
unfoldable pub collect_values : List Fields → Text → Bool → Bool → Bool → Items
unfolding all
collect_values [] path compact merge flatten = empty
collect_values (d ∷ ds) path compact merge flatten =
    let v = (all d path compact merge).0 in
    let rest = collect_values ds path compact merge flatten in
    if compact && is_missing v then rest else elim (as_array? v) [
      | some xs ↦ if flatten then append_items xs rest else item v rest
      | none ↦ item v rest
    ]

module _ (ar : Numerics) (sort : Items → Items) where
  -- The loop that drops a value that is equal to the last one added.
  unfoldable pub distinct_after : Option Value → Items → Items
  distinct_after previous empty = empty
  distinct_after previous (item v xs) =
      let same : Bool = elim previous [ none ↦ false | some w ↦ is_eq (compare ar w v) ] in
      let rest = distinct_after (if same then previous else some v) xs in
      if same then rest else item v rest

  -- Collect. `sort` is sort.Slice of the standard library with the order of Compare.
  unfoldable pub collect : List Fields → Text → Bool → Bool → Bool → Bool → Items
  unfolding collect_values distinct_after
  collect ds path compact merge flatten distinct =
      let result = collect_values ds path compact merge flatten in
      if distinct then distinct_after none (sort result) else result
