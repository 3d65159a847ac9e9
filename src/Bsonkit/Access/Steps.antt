-- ===== src/Bsonkit/Access/Steps.antt =====
-- The cases of a successful write of bsonkit/access.go, one for each way to the new value.
use lungo.Base.{
  ℕ, ◌<◌, ◌≤◌, ◌≡◌, refl, subst, Bool, true, false, Option, none, some, [], ltb, if◌then◌else◌,
  Text, text_eq, ◌⊎◌, inl, inr, arith, Bool-cases,
}
use mathlib.Core.Option
use lungo.Bsonkit.Value.{Value, missing, doc, array, Items, Fields, is_missing, count_items}
use lungo.Bsonkit.Path.{path_end, path_segment, reduce_path}
use lungo.Bsonkit.Access.{
  at_put, put, put_field, put_elem, build_all, has_field, extend_items, add_field, position_of,
}

pub map-eq-some {ℓ κ} :
    {A : Type ℓ} {B : Type κ} (f : A → B) (o : Option A) {b : B}
    → Option.map f o ≡ some b
    → (a : A) × (o ≡ some a) × (f a ≡ b)
map-eq-some f none h = cc
map-eq-some f (some a) h = (a, refl, ground arith)

-- The path is neither at its end nor empty.
pub record IsInner (p : Text) : Type 0 where
  pub not_end : text_eq p path_end ≡ false
  pub not_empty : text_eq p [] ≡ false

pub at_put-cases :
    (p : Text) (v x : Value) (r : Option (Value × Value)) {out : Value × Value}
    → at_put p v x r ≡ some out
    → ((text_eq p path_end ≡ true) × (out ≡ (v, x))) ⊎ (IsInner p × (r ≡ some out))
at_put-cases p v x r h = elim (Bool-cases (text_eq p path_end)) [
  | inl e ↦ inl (e, ground arith)
  | inr n ↦ inr (record { not_end = n; not_empty = ground arith }, ground arith)
]

module _ (p : Text) (x : Value) (prepend : Bool) where
  -- A write below a field that is there, or a new field.
  pub data DocWrite (fs : Fields) : Value × Value → Type 0 where
    at_field :
        (old : Value) (fs' : Fields)
        → has_field fs (path_segment p) ≡ true
        → put_field fs (path_segment p) (reduce_path p) x prepend ≡ some (old, fs')
        → DocWrite fs (old, doc fs')
    new_field :
        (v : Value)
        → has_field fs (path_segment p) ≡ false
        → is_missing x ≡ false
        → build_all (reduce_path p) x ≡ some v
        → DocWrite fs (missing, doc (add_field fs (path_segment p) v prepend))

  pub data ArrayWrite (xs : Items) : Value × Value → Type 0 where
    at_elem :
        (i : ℕ) (old : Value) (xs' : Items)
        → position_of (path_segment p) ≡ some i
        → i < count_items xs
        → put_elem xs i (reduce_path p) x prepend ≡ some (old, xs')
        → ArrayWrite xs (old, array xs')
    new_elem :
        (i : ℕ) (v : Value)
        → position_of (path_segment p) ≡ some i
        → count_items xs ≤ i
        → is_missing x ≡ false
        → build_all (reduce_path p) x ≡ some v
        → ArrayWrite xs (missing, array (extend_items xs i v))

  doc_inner :
      (fs : Fields) {out : Value × Value}
      → (if has_field fs (path_segment p)
          then Option.map
              (λ (r : Value × Fields). (r.0, doc r.1))
              (put_field fs (path_segment p) (reduce_path p) x prepend)
          else if is_missing x
          then none
          else Option.map
              (λ v. (missing, doc (add_field fs (path_segment p) v prepend)))
              (build_all (reduce_path p) x))
        ≡ some out
      → DocWrite fs out
  doc_inner fs h = elim (Bool-cases (has_field fs (path_segment p))) [
    | inl e ↦
        let (r, q, made) = map-eq-some _ _ (rw e at h) in
        subst (DocWrite fs) made (at_field r.0 r.1 e q)
    | inr n ↦ elim (Bool-cases (is_missing x)) [
      | inl m ↦ absurd (ground arith)
      | inr m ↦
          let (v, q, made) = map-eq-some _ _ (rw (n, m) at h) in
          subst (DocWrite fs) made (new_field v n m q)
    ]
  ]

  pub put_doc-cases :
      (fs : Fields) {out : Value × Value}
      → put (doc fs) p x prepend ≡ some out
      → ((text_eq p path_end ≡ true) × (out ≡ (doc fs, x))) ⊎ (IsInner p × DocWrite fs out)
  unfolding put
  put_doc-cases fs h = elim (at_put-cases p (doc fs) x _ h) [
    | inl done ↦ inl done
    | inr (inner, more) ↦ inr (inner, doc_inner fs more)
  ]

  array_inner :
      (xs : Items) (i : ℕ) {out : Value × Value}
      → position_of (path_segment p) ≡ some i
      → (if ltb i (count_items xs)
          then Option.map
              (λ (r : Value × Items). (r.0, array r.1))
              (put_elem xs i (reduce_path p) x prepend)
          else if is_missing x
          then none
          else Option.map
              (λ v. (missing, array (extend_items xs i v)))
              (build_all (reduce_path p) x))
        ≡ some out
      → ArrayWrite xs out
  array_inner xs i at h = elim (Bool-cases (ltb i (count_items xs))) [
    | inl e ↦
        let (r, q, made) = map-eq-some _ _ (rw e at h) in
        subst (ArrayWrite xs) made (at_elem i r.0 r.1 at (ground arith) q)
    | inr n ↦ elim (Bool-cases (is_missing x)) [
      | inl m ↦ absurd (ground arith)
      | inr m ↦
          let (v, q, made) = map-eq-some _ _ (rw (n, m) at h) in
          subst (ArrayWrite xs) made (new_elem i v at (ground arith) m q)
    ]
  ]

  array_split :
      (xs : Items) (o : Option ℕ) {out : Value × Value}
      → position_of (path_segment p) ≡ o
      → elim o [
        | none ↦ none
        | some i ↦
            if ltb i (count_items xs)
            then Option.map
                (λ (r : Value × Items). (r.0, array r.1))
                (put_elem xs i (reduce_path p) x prepend)
            else if is_missing x
            then none
            else Option.map
                (λ v. (missing, array (extend_items xs i v)))
                (build_all (reduce_path p) x)
      ]
        ≡ some out
      → ArrayWrite xs out
  array_split xs none e h = cc
  array_split xs (some i) e h = array_inner xs i e h

  pub put_array-cases :
      (xs : Items) {out : Value × Value}
      → put (array xs) p x prepend ≡ some out
      → ((text_eq p path_end ≡ true) × (out ≡ (array xs, x))) ⊎ (IsInner p × ArrayWrite xs out)
  unfolding put
  put_array-cases xs h = elim (at_put-cases p (array xs) x _ h) [
    | inl done ↦ inl done
    | inr (inner, more) ↦ inr (inner, array_split xs (position_of (path_segment p)) refl more)
  ]
