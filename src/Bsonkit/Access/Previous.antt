-- ===== src/Bsonkit/Access/Previous.antt =====
-- The value that a write of bsonkit/access.go returns, and the fields that it leaves alone.
use lungo.Base.{
  ℕ, zero, suc, ◌≤◌, ◌≡◌, refl, sym, ap, subst, ◌∙◌, Bool, true, false, none, some, Text, text_eq,
  text_eq_sound, ◌⊎◌, inl, inr, arith, Bool-cases, Option-cases, ok,
}
use lungo.Bsonkit.Value.{
  Value, missing, doc, array, Items, empty, item, Fields, end, field, is_missing, count_items,
}
use lungo.Bsonkit.Path.{path_end, path_segment, reduce_path, parse_index}
use lungo.Bsonkit.Access.{
  in_range, get, get_field, get_elem, put, put_field, put_elem, build_all, has_field, add_field,
  position_of, put_path, get_path, unset,
}
use lungo.Bsonkit.Access.Steps.{
  IsInner, DocWrite, ArrayWrite, at_field, new_field, at_elem, new_elem, put_doc-cases,
  put_array-cases, at_put-cases, map-eq-some,
}
use lungo.Bsonkit.Access.RoundTrip.{
  unsigned, unsigned-path_segment, unsigned-reduce_path, in_range-position_of, get-end, get-doc,
  get_field-tail, get_field-hit, get-array, get-missing, put_field-inv, put_elem-inv,
  put_elem-inv_suc, put_field-end, put_elem-empty, get_elem-head, get_elem-tail, is_container,
  store_doc-inv,
}

-- The first component, by which a read without collecting is known.
abbrev value_at : Value → Text → Value
value_at v p = (get v p false false).0

get_field-absent :
    (fs : Fields) (key rest : Text)
    → has_field fs key ≡ false
    → get_field fs key rest false false ≡ (missing, false)
unfolding get has_field
get_field-absent end key rest h = refl
get_field-absent (field k v fs) key rest h = elim (Bool-cases (text_eq k key)) [
  | inl e ↦ absurd (ground arith)
  | inr n ↦ rw n (get_field-absent fs key rest (rw n at h))
]

get-array_past :
    (xs : Items) (p : Text) (i : ℕ)
    → IsInner p
    → unsigned p ≡ true
    → position_of (path_segment p) ≡ some i
    → count_items xs ≤ i
    → get (array xs) p false false ≡ (missing, false)
unfolding get
get-array_past xs p i inner u at h =
    let e : in_range (parse_index (path_segment p)) (count_items xs) ≡ none =
      in_range-position_of (path_segment p) (count_items xs) (unsigned-path_segment p u)
      ∙ ground arith in
    rw (inner.not_end, inner.not_empty, e)

previous_end :
    (v : Value) (p : Text) (x : Value) {out : Value × Value}
    → out ≡ (v, x)
    → text_eq p path_end ≡ true
    → value_at v p ≡ out.0
previous_end v p x made e = rw made (ap (λ (r : Value × Bool). r.0) (get-end v p e))

previous_scalar :
    (v : Value) (p : Text) (x : Value) (prepend : Bool) (out : Value × Value)
    → is_container v ≡ false
    → put v p x prepend ≡ some out
    → value_at v p ≡ out.0
unfolding put
previous_scalar (doc fs) p x prepend out c h = cc
previous_scalar (array xs) p x prepend out c h = cc
previous_scalar missing p x prepend out c h = elim (at_put-cases p missing x _ h) [
  | inl (e, made) ↦ previous_end missing p x made e
  | inr (_, more) ↦
      let (v, q, made) = map-eq-some _ (build_all p x) more in
      get-missing p ∙ ap (λ (o : Value × Value). o.0) made
]
previous_scalar v p x prepend out c h = elim (at_put-cases p v x none h) [
  | inl (e, made) ↦ previous_end v p x made e
  | inr (_, n) ↦ cc
]

previous_write :
    (fs : Fields) (p : Text) (x : Value) (prepend : Bool) (out : Value × Value)
    → unsigned p ≡ true
    → DocWrite p x prepend fs out
    → ((key rest : Text) (x : Value) (prepend : Bool) (old : Value) (fs' : Fields)
        → unsigned rest ≡ true
        → put_field fs key rest x prepend ≡ some (old, fs')
        → (get_field fs key rest false false).0 ≡ old)
    → (get_field fs (path_segment p) (reduce_path p) false false).0 ≡ out.0
previous_write fs p x prepend out u (at_field old fs' has q) below =
    below (path_segment p) (reduce_path p) x prepend old fs' (unsigned-reduce_path p u) q
previous_write fs p x prepend out u (new_field v fresh mx q) below =
    ap (λ (r : Value × Bool). r.0) (get_field-absent fs (path_segment p) (reduce_path p) fresh)

previous_array :
    (xs : Items) (p : Text) (x : Value) (prepend : Bool) (out : Value × Value)
    → IsInner p
    → unsigned p ≡ true
    → ArrayWrite p x prepend xs out
    → ((i : ℕ) (rest : Text) (x : Value) (prepend : Bool) (old : Value) (xs' : Items)
        → unsigned rest ≡ true
        → put_elem xs i rest x prepend ≡ some (old, xs')
        → (get_elem xs i rest false false).0 ≡ old)
    → value_at (array xs) p ≡ out.0
previous_array xs p x prepend out inner u (at_elem i old xs' at lt q) below =
    ap (λ (r : Value × Bool). r.0) (get-array xs p i inner u at lt)
    ∙ below i (reduce_path p) x prepend old xs' (unsigned-reduce_path p u) q
previous_array xs p x prepend out inner u (new_elem i v at le mx q) below =
    ap (λ (r : Value × Bool). r.0) (get-array_past xs p i inner u at le)

mutual
  previous :
      (v : Value) (p : Text) (x : Value) (prepend : Bool) (out : Value × Value)
      → unsigned p ≡ true
      → put v p x prepend ≡ some out
      → value_at v p ≡ out.0
  previous (doc fs) p x prepend out u h = elim (put_doc-cases p x prepend fs h) [
    | inl (e, made) ↦ previous_end (doc fs) p x made e
    | inr (inner, write) ↦
        ap (λ (r : Value × Bool). r.0) (get-doc fs p inner)
        ∙ previous_write fs p x prepend out u write (previous_field fs)
  ]
  previous (array xs) p x prepend out u h = elim (put_array-cases p x prepend xs h) [
    | inl (e, made) ↦ previous_end (array xs) p x made e
    | inr (inner, write) ↦ previous_array xs p x prepend out inner u write (previous_elem xs)
  ]
  previous v p x prepend out u h = previous_scalar v p x prepend out refl h

  previous_field :
      (fs : Fields) (key rest : Text) (x : Value) (prepend : Bool) (old : Value) (fs' : Fields)
      → unsigned rest ≡ true
      → put_field fs key rest x prepend ≡ some (old, fs')
      → (get_field fs key rest false false).0 ≡ old
  previous_field end key rest x prepend old fs' u h =
      absurd (ground (arith, put_field-end key rest x prepend))
  previous_field (field k v fs) key rest x prepend old fs' u h =
      elim (put_field-inv k v fs key rest x prepend old fs' h) [
        | inl (e, (new, q, made)) ↦
            ap (λ (r : Value × Bool). r.0) (get_field-hit k v fs key rest e)
            ∙ previous v rest x prepend (old, new) u q
        | inr (n, (gs, q, made)) ↦
            ap (λ (r : Value × Bool). r.0) (get_field-tail k v fs key rest n)
            ∙ previous_field fs key rest x prepend old gs u q
      ]

  previous_elem :
      (xs : Items) (i : ℕ) (rest : Text) (x : Value) (prepend : Bool) (old : Value) (xs' : Items)
      → unsigned rest ≡ true
      → put_elem xs i rest x prepend ≡ some (old, xs')
      → (get_elem xs i rest false false).0 ≡ old
  previous_elem empty i rest x prepend old xs' u h =
      absurd (ground (arith, put_elem-empty i rest x prepend))
  previous_elem (item v xs) zero rest x prepend old xs' u h =
      let (new, q, made) = put_elem-inv v xs rest x prepend old xs' h in
      ap (λ (r : Value × Bool). r.0) (get_elem-head v xs rest)
      ∙ previous v rest x prepend (old, new) u q
  previous_elem (item v xs) (suc i) rest x prepend old xs' u h =
      let (ys, q, made) = put_elem-inv_suc v xs i rest x prepend old xs' h in
      ap (λ (r : Value × Bool). r.0) (get_elem-tail v xs i rest)
      ∙ previous_elem xs i rest x prepend old ys u q

-- `Put` returns the value that `Get` found at the path before, if no sign stands in the path.
pub put_path-previous :
    (d d' : Fields) (p : Text) (x old : Value) (prepend : Bool)
    → unsigned p ≡ true
    → put_path d p x prepend ≡ ok (old, d')
    → old ≡ get_path d p
unfolding put_path get_path
put_path-previous d d' p x old prepend u h = elim (Option-cases (put (doc d) p x prepend)) [
  | inl n ↦ absurd (ground arith)
  | inr ((res, new), q) ↦
      let (_, e) = store_doc-inv res new old d' (ground arith) in
      sym (previous (doc d) p x prepend (res, new) u q ∙ e)
]

-- `Unset` returns the value that `Get` found at the path before, or missing.
pub unset-previous :
    (d d' : Fields) (p : Text) (old : Value)
    → unsigned p ≡ true
    → unset d p ≡ ok (old, d')
    → (old ≡ get_path d p) ⊎ ((old ≡ missing) × (d' ≡ d))
unfolding unset get_path
unset-previous d d' p old u h = elim (Option-cases (put (doc d) p missing false)) [
  | inl n ↦ inr (ground arith, ground arith)
  | inr ((res, new), q) ↦
      let (_, e) = store_doc-inv res new old d' (ground arith) in
      inl (sym (previous (doc d) p missing false (res, new) u q ∙ e))
]

-- A field with another key is read as before.
get_field-put_field_ne :
    (fs fs' : Fields) (key rest key' rest' : Text) (x old : Value) (prepend : Bool)
    → text_eq key key' ≡ false
    → put_field fs key rest x prepend ≡ some (old, fs')
    → get_field fs' key' rest' false false ≡ get_field fs key' rest' false false
get_field-put_field_ne end fs' key rest key' rest' x old prepend n h =
    absurd (ground (arith, put_field-end key rest x prepend))
get_field-put_field_ne (field k v fs) fs' key rest key' rest' x old prepend n h =
    elim (put_field-inv k v fs key rest x prepend old fs' h) [
      | inl (e, (new, q, made)) ↦
          let other : text_eq k key' ≡ false =
            subst (λ t. text_eq t key' ≡ false) (sym (text_eq_sound k key e)) n in
          elim (Bool-cases (is_missing new)) [
            | inl gone ↦ rw (made, gone) (sym (get_field-tail k v fs key' rest' other))
            | inr kept ↦
                rw (made, kept)
                  (get_field-tail k new fs key' rest' other
                    ∙ sym (get_field-tail k v fs key' rest' other))
          ]
      | inr (miss, (gs, q, made)) ↦ elim (Bool-cases (text_eq k key')) [
        | inl hit ↦
            rw made
              (get_field-hit k v gs key' rest' hit ∙ sym (get_field-hit k v fs key' rest' hit))
        | inr other ↦ rw made (
            get_field-tail k v gs key' rest' other
            ∙ get_field-put_field_ne fs gs key rest key' rest' x old prepend n q
            ∙ sym (get_field-tail k v fs key' rest' other))
      ]
    ]

get_field-add_field_ne :
    (fs : Fields) (key key' rest' : Text) (v : Value) (prepend : Bool)
    → text_eq key key' ≡ false
    → get_field (add_field fs key v prepend) key' rest' false false
      ≡ get_field fs key' rest' false false
get_field-add_field_ne fs key key' rest' v true n = get_field-tail key v fs key' rest' n
get_field-add_field_ne end key key' rest' v false n = get_field-tail key v end key' rest' n
get_field-add_field_ne (field k w fs) key key' rest' v false n =
    elim (Bool-cases (text_eq k key')) [
      | inl hit ↦ get_field-hit k w _ key' rest' hit ∙ sym (get_field-hit k w fs key' rest' hit)
      | inr other ↦
          get_field-tail k w _ key' rest' other
          ∙ get_field-add_field_ne fs key key' rest' v false n
          ∙ sym (get_field-tail k w fs key' rest' other)
    ]

frame_write :
    (d : Fields) (p : Text) (x : Value) (prepend : Bool) (q : Text) {out : Value × Value}
    → IsInner q
    → text_eq (path_segment p) (path_segment q) ≡ false
    → DocWrite p x prepend d out
    → value_at out.1 q ≡ value_at (doc d) q
frame_write d p x prepend q i n (at_field old fs' has h) =
    ap (λ (r : Value × Bool). r.0)
      (get-doc fs' q i
        ∙ get_field-put_field_ne d fs' (path_segment p) (reduce_path p) (path_segment q)
            (reduce_path q) x old prepend n h
        ∙ sym (get-doc d q i))
frame_write d p x prepend q i n (new_field v fresh mx h) =
    ap (λ (r : Value × Bool). r.0)
      (get-doc _ q i
        ∙ get_field-add_field_ne d (path_segment p) (path_segment q) (reduce_path q) v prepend n
        ∙ sym (get-doc d q i))

-- A write below one key of a document, `Put` or `Unset`, leaves what is read below every other
-- key.
pub put-frame :
    (d d' : Fields) (p q : Text) (x old : Value) (prepend : Bool)
    → text_eq p path_end ≡ false
    → text_eq (path_segment p) (path_segment q) ≡ false
    → put (doc d) p x prepend ≡ some (old, doc d')
    → IsInner q
    → get_path d' q ≡ get_path d q
unfolding get_path
put-frame d d' p q x old prepend e n h i = elim (put_doc-cases p x prepend d h) [
  | inl (at, _) ↦ cc
  | inr (_, write) ↦ frame_write d p x prepend q i n write
]

put_path-frame :
    (d d' : Fields) (p q : Text) (x old : Value) (prepend : Bool)
    → text_eq p path_end ≡ false
    → text_eq (path_segment p) (path_segment q) ≡ false
    → IsInner q
    → put_path d p x prepend ≡ ok (old, d')
    → get_path d' q ≡ get_path d q
unfolding put_path
put_path-frame d d' p q x old prepend e n i h = elim (Option-cases (put (doc d) p x prepend)) [
  | inl failed ↦ absurd (ground arith)
  | inr ((res, new), h') ↦
      let (made, _) = store_doc-inv res new old d' (ground arith) in
      put-frame d d' p q x res prepend e n (rw made at h') i
]

unset-frame :
    (d d' : Fields) (p q : Text) (old : Value)
    → text_eq p path_end ≡ false
    → text_eq (path_segment p) (path_segment q) ≡ false
    → IsInner q
    → unset d p ≡ ok (old, d')
    → get_path d' q ≡ get_path d q
unfolding unset
unset-frame d d' p q old e n i h = elim (Option-cases (put (doc d) p missing false)) [
  | inl failed ↦ ap (λ (f : Fields). get_path f q) (ground arith)
  | inr ((res, new), h') ↦
      let (made, _) = store_doc-inv res new old d' (ground arith) in
      put-frame d d' p q missing res false e n (rw made at h') i
]

-- `Put` and `Unset` at a path with one first key leave what `Get` finds at every path with
-- another.
pub writes-frame :
    (d d' : Fields) (p q : Text) (old : Value)
    → text_eq p path_end ≡ false
    → text_eq (path_segment p) (path_segment q) ≡ false
    → IsInner q
    → ((x : Value) × (prepend : Bool) × (put_path d p x prepend ≡ ok (old, d')))
      ⊎ (unset d p ≡ ok (old, d'))
    → get_path d' q ≡ get_path d q
writes-frame d d' p q old e n i (inl (x, prepend, h)) =
    put_path-frame d d' p q x old prepend e n i h
writes-frame d d' p q old e n i (inr h) = unset-frame d d' p q old e n i h
