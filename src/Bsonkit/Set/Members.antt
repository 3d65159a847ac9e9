-- ===== src/Bsonkit/Set/Members.antt =====
-- bsonkit/set.go: which documents a set holds after an operation that succeeds.
use lungo.Base.{
  ℕ, ◌≡◌, refl, sym, ap, ◌∙◌, inl, inr, Bool, true, false, not, ◌||◌, ◌&&◌, ◌==◌, Option, none,
  some, arith, Option-cases, erase_idx,
}
use lungo.Bsonkit.Set.{DocSet, add, replace, remove}
use lungo.Bsonkit.Set.Keys.{position, position-erase_idx}
use lungo.Bsonkit.Set.Valid.{IsValid, remove-IsValid}

abbrev pub is_some : Option ℕ → Bool
is_some none = false
is_some (some i) = true

abbrev pub in_set : DocSet → ℕ → Bool
in_set s a = is_some (s.index a)

pub in_set-add :
    (s : DocSet) (d a : ℕ)
    → (add s d).1 ≡ true
    → (in_set s d ≡ false) × (in_set (add s d).0 a ≡ (a == d || in_set s a))
unfolding add
in_set-add s d a h = ground arith

pub in_set-replace :
    (s : DocSet) (old d a : ℕ)
    → (replace s old d).1 ≡ true
    → (in_set s d ≡ false)
      × (in_set (replace s old d).0 a ≡ (a == d || not (a == old) && in_set s a))
unfolding replace
in_set-replace s old d a h = ground arith

remove_list : (s : DocSet) (d i : ℕ) → s.index d ≡ some i → (remove s d).0.list ≡ erase_idx s.list i
unfolding remove
remove_list s d i h = rw (h, remove) refl

remove_absent : (s : DocSet) (d : ℕ) → s.index d ≡ none → (remove s d).1 ≡ false
unfolding remove
remove_absent s d h = rw (h, remove) refl

pub in_set-remove :
    (s : DocSet) (d a : ℕ)
    → IsValid s
    → (remove s d).1 ≡ true
    → in_set (remove s d).0 a ≡ (not (a == d) && in_set s a)
in_set-remove s d a v h = elim (Option-cases (s.index d)) [
  | inl e ↦ cc (remove_absent s d e)
  | inr (i, e) ↦
      let p : position d s.list ≡ some i = sym (v.agrees d) ∙ e in
      let u = remove-IsValid s d v in
      let left : (remove s d).0.index a ≡ position a (erase_idx s.list i) =
        u.agrees a ∙ ap (position a) (remove_list s d i e) in
      ground (arith, position-erase_idx d a s.list i v.distinct p, left, v.agrees a)
]
