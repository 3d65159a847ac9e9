-- ===== src/Bsonkit/Set/Valid.antt =====
-- The index of a set agrees with its list, and every operation keeps that.
use lungo.Base.{
  ℕ, ◌≡◌, refl, inl, inr, none, some, List, [], ◌∷◌, arith, erase_idx, Option-cases, length-append,
}
use lungo.Bsonkit.Set.{DocSet, add, add_all, new_set, replace, remove, remove_key}
use lungo.Bsonkit.Set.Keys.{
  position, IsDistinct, position-append, append-IsDistinct, position-set, set-IsDistinct,
  position-erase_idx, erase_idx-IsDistinct, position_inj, reindex_lem,
}

pub record IsValid (s : DocSet) : Type 0 where
  pub agrees : (d : ℕ) → s.index d ≡ position d s.list
  pub distinct : IsDistinct s.list

-- Adding keeps the index in step with the list.
pub add-IsValid : (s : DocSet) (d : ℕ) → IsValid s → IsValid (add s d).0
unfolding add
add-IsValid s d v = elim (Option-cases (s.index d)) [
  | inl new ↦
      rw (new, add)
        (record {
          agrees = λ e. ground (
            arith,
            v.agrees e,
            v.agrees d,
            position-append e d s.list,
            length-append s.list (d ∷ []),
          );
          distinct = append-IsDistinct d s.list (ground (arith, v.agrees d)) v.distinct;
        })
  | inr (i, old) ↦ rw (old, add) v
]

pub replace-IsValid : (s : DocSet) (a b : ℕ) → IsValid s → IsValid (replace s a b).0
unfolding replace
replace-IsValid s a b v = elim (Option-cases (s.index a)) [
  | inl absent ↦ rw (absent, replace) v
  | inr (i, found) ↦ elim (Option-cases (s.index b)) [
    | inr (j, taken) ↦ rw (found, taken, replace) v
    | inl free ↦
        let p : position a s.list ≡ some i = ground (arith, v.agrees a) in
        let q : position b s.list ≡ none = ground (arith, v.agrees b) in
        rw (found, free, replace)
          (record {
            agrees = λ e. ground (arith, v.agrees e, position-set a b e s.list i v.distinct p q);
            distinct = set-IsDistinct a b s.list i v.distinct p q;
          })
  ]
]

pub remove-IsValid : (s : DocSet) (d : ℕ) → IsValid s → IsValid (remove s d).0
unfolding remove
remove-IsValid s d v = elim (Option-cases (s.index d)) [
  | inl absent ↦ rw (absent, remove) v
  | inr (i, found) ↦
      let p : position d s.list ≡ some i = ground (arith, v.agrees d) in
      let left = erase_idx s.list i in
      let u : IsDistinct left = erase_idx-IsDistinct d s.list i v.distinct p in
      rw (found, remove)
        (record {
          agrees = λ e. ground (
            arith,
            v.agrees e,
            position-erase_idx d e s.list i v.distinct p,
            position_inj d e s.list i p,
            reindex_lem (remove_key s.index d) i 0 left e u,
          );
          distinct = u;
        })
]

pub add_all-IsValid : (s : DocSet) (ds : List ℕ) → IsValid s → IsValid (add_all s ds)
unfolding add_all
add_all-IsValid s [] v = v
add_all-IsValid s (d ∷ ds) v = add_all-IsValid (add s d).0 ds (add-IsValid s d v)

-- The set that `NewSet` builds from any list, repeated documents included, is valid.
pub new_set-IsValid : (ds : List ℕ) → IsValid (new_set ds)
unfolding new_set position
new_set-IsValid ds = add_all-IsValid _ ds (record { agrees = λ d. refl; distinct = tt })
