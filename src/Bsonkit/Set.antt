-- ===== src/Bsonkit/Set.antt =====
-- bsonkit/set.go: a set of documents. A document is a pointer, so it stands here by its address, and
-- the contents do not matter. The Go map `Index` is a function into Option, with absent keys none.
pub mod Keys
pub mod Valid
pub mod Refines
pub mod Members
use lungo.Base.{
  ℕ, zero, suc, ◌+◌, ◌-◌, Bool, true, false, Option, none, some, List, [], ◌∷◌, ◌++◌, ◌==◌, length,
  set, erase_idx, if◌then◌else◌,
}

pub record DocSet : Type 0 where
  pub list : List ℕ
  pub index : ℕ → Option ℕ

-- A write `m[k] = v` and a `delete(m, k)` of the Go map.
abbrev pub assign : (ℕ → Option ℕ) → ℕ → ℕ → ℕ → Option ℕ
assign m k v d = if d == k then some v else m d

abbrev pub remove_key : (ℕ → Option ℕ) → ℕ → ℕ → Option ℕ
remove_key m k d = if d == k then none else m d

unfoldable pub add : DocSet → ℕ → DocSet × Bool
add s d = elim (s.index d) [
  | some _ ↦ (s, false)
  | none ↦ (
    record s { list = s.list ++ d ∷ []; index = assign s.index d (length (s.list ++ d ∷ []) - 1) },
    true,
  )
]

unfoldable pub add_all : DocSet → List ℕ → DocSet
add_all s [] = s
add_all s (d ∷ ds) = add_all (add s d).0 ds

unfoldable pub new_set : List ℕ → DocSet
unfolding add_all add
new_set ds = add_all (record { list = []; index = λ _. none }) ds

-- The two checks of `Replace`, then the write to the list and to the map.
unfoldable pub replace : DocSet → ℕ → ℕ → DocSet × Bool
replace s d₁ d₂ = elim (s.index d₁) [
  | none ↦ (s, false)
  | some i ↦ elim (s.index d₂) [
    | some _ ↦ (s, false)
    | none ↦
        (record s { list = set s.list i d₂; index = assign (remove_key s.index d₁) d₂ i }, true)
  ]
]

-- The loop `for ; i < len(s.List); i++ { s.Index[s.List[i]] = i }`: `skip` elements stand before
-- the start, and `at` is the position of the head of the list.
unfoldable pub reindex : (ℕ → Option ℕ) → ℕ → ℕ → List ℕ → ℕ → Option ℕ
reindex m skip at [] = m
reindex m zero at (d ∷ ds) = reindex (assign m d at) zero (suc at) ds
reindex m (suc skip) at (d ∷ ds) = reindex m skip (suc at) ds

unfoldable pub remove : DocSet → ℕ → DocSet × Bool
unfolding reindex
remove s d = elim (s.index d) [
  | none ↦ (s, false)
  | some i ↦ (
    record s {
      list = erase_idx s.list i;
      index = reindex (remove_key s.index d) i 0 (erase_idx s.list i);
    },
    true,
  )
]
