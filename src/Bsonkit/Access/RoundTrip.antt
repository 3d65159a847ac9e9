-- ===== src/Bsonkit/Access/RoundTrip.antt =====
-- What a read finds after a write of bsonkit/access.go.
use lungo.Base.{
  ℕ, zero, suc, ◌+◌, ◌<◌, ◌≤◌, ◌≡◌, refl, sym, ap, subst, ◌∙◌, Bool, true, false, not, ◌&&◌, none,
  some, [], ◌∷◌, ltb, if◌then◌else◌, Text, text_eq, text_eq_self, length, ◌⊎◌, inl, inr, arith,
  Bool-cases, Option-cases, ◌==◌, ok,
}
use lungo.Bsonkit.Value.{
  Value, missing, nil, doc, array, Items, empty, item, Fields, end, field, is_missing, count_items,
  append_fields,
}
use lungo.Bsonkit.Path.{path_end, path_segment, reduce_path, parse_index, atoi}
use lungo.Bsonkit.Access.{
  at_put, in_range, get, get_field, get_elem, put, put_field, put_elem, build, build_all, has_field,
  extend_items, add_field, position_of, put_path, get_path, store_doc,
}
use lungo.Bsonkit.Access.Steps.{
  IsInner, DocWrite, ArrayWrite, at_field, new_field, at_elem, new_elem, put_doc-cases,
  put_array-cases, at_put-cases, map-eq-some,
}

-- No byte of the path is a sign. (`put` takes "+1" for the index 1, and `get` does not.)
unfoldable pub unsigned : Text → Bool
unsigned [] = true
unsigned (c ∷ s) = (not (c == b'+') && not (c == b'-')) && unsigned s

pub unsigned-path_segment : (p : Text) → unsigned p ≡ true → unsigned (path_segment p) ≡ true
unfolding unsigned path_segment
unsigned-path_segment [] h = refl
unsigned-path_segment (c ∷ s) h = ground (arith, unsigned-path_segment s)

pub unsigned-reduce_path : (p : Text) → unsigned p ≡ true → unsigned (reduce_path p) ≡ true
unfolding unsigned reduce_path
unsigned-reduce_path [] h = refl
unsigned-reduce_path (c ∷ s) h = ground (arith, unsigned-reduce_path s)

-- Reads and writes take an unsigned key for the same index.
pub in_range-position_of :
    (s : Text) (n : ℕ)
    → unsigned s ≡ true
    → in_range (parse_index s) n
      ≡ elim (position_of s) [ none ↦ none | some i ↦ if ltb i n then some i else none ]
unfolding unsigned parse_index atoi
in_range-position_of [] n h = refl
in_range-position_of (c ∷ s) n h = ground arith

-- One step of a read.
pub get-end : (v : Value) (p : Text) → text_eq p path_end ≡ true → get v p false false ≡ (v, false)
unfolding get
get-end (doc fs) p h = rw h
get-end (array xs) p h = rw h
get-end _ p h = rw h

pub get-doc :
    (fs : Fields) (p : Text)
    → IsInner p
    → get (doc fs) p false false ≡ get_field fs (path_segment p) (reduce_path p) false false
unfolding get
get-doc fs p i = rw (i.not_end, i.not_empty)

pub get_field-head :
    (k : Text) (v : Value) (fs : Fields) (rest : Text)
    → get_field (field k v fs) k rest false false ≡ get v rest false false
unfolding get
get_field-head k v fs rest = rw (text_eq_self k)

pub get_field-hit :
    (k : Text) (v : Value) (fs : Fields) (key rest : Text)
    → text_eq k key ≡ true
    → get_field (field k v fs) key rest false false ≡ get v rest false false
unfolding get
get_field-hit k v fs key rest h = rw h

pub get_field-tail :
    (k : Text) (v : Value) (fs : Fields) (key rest : Text)
    → text_eq k key ≡ false
    → get_field (field k v fs) key rest false false ≡ get_field fs key rest false false
unfolding get
get_field-tail k v fs key rest h = rw h

pub get-missing : (p : Text) → (get missing p false false).0 ≡ missing
unfolding get
get-missing p = ground arith

pub get-array :
    (xs : Items) (p : Text) (i : ℕ)
    → IsInner p
    → unsigned p ≡ true
    → position_of (path_segment p) ≡ some i
    → i < count_items xs
    → get (array xs) p false false ≡ get_elem xs i (reduce_path p) false false
unfolding get
get-array xs p i inner u at h =
    let e : in_range (parse_index (path_segment p)) (count_items xs) ≡ some i =
      in_range-position_of (path_segment p) (count_items xs) (unsigned-path_segment p u)
      ∙ ground arith in
    rw (inner.not_end, inner.not_empty, e)

-- What `build` makes holds the value at the end of the path.
get-build :
    (fuel : ℕ) (p : Text) (x v : Value)
    → is_missing x ≡ false
    → build fuel p x ≡ some v
    → get v p false false ≡ (x, false)
unfolding build
get-build zero p x v m h = cc
get-build (suc fuel) p x v m h = elim (Bool-cases (text_eq p path_end)) [
  | inl e ↦
      let same : x ≡ v = ground arith in
      subst (λ w. get w p false false ≡ (x, false)) same (get-end x p e)
  | inr n ↦ elim (Bool-cases (text_eq p [])) [
    | inl e ↦ absurd (ground arith)
    | inr n' ↦
        let (w, q, made) = map-eq-some _ (build fuel (reduce_path p) x) (rw (n, n', m) at h) in
        subst (λ y. get y p false false ≡ (x, false)) made
          (get-doc _ p (record { not_end = n; not_empty = n' })
            ∙ get_field-head (path_segment p) w end (reduce_path p)
            ∙ get-build fuel (reduce_path p) x w m q)
  ]
]

get-build_all :
    (p : Text) (x v : Value)
    → is_missing x ≡ false
    → build_all p x ≡ some v
    → get v p false false ≡ (x, false)
get-build_all p x v m h = get-build (length p + 1) p x v m h

-- A field that is new is the one that a read finds, at either end of the document.
get_field-append :
    (fs : Fields) (key rest : Text) (v : Value)
    → has_field fs key ≡ false
    → get_field (append_fields fs (field key v end)) key rest false false ≡ get v rest false false
unfolding has_field
get_field-append end key rest v h = get_field-head key v end rest
get_field-append (field k w fs) key rest v h = elim (Bool-cases (text_eq k key)) [
  | inl e ↦ absurd (ground arith)
  | inr n ↦ get_field-tail k w _ key rest n ∙ get_field-append fs key rest v (rw n at h)
]

get_field-add_field :
    (fs : Fields) (key rest : Text) (v : Value) (prepend : Bool)
    → has_field fs key ≡ false
    → get_field (add_field fs key v prepend) key rest false false ≡ get v rest false false
get_field-add_field fs key rest v true h = get_field-head key v fs rest
get_field-add_field fs key rest v false h = get_field-append fs key rest v h

-- So is an element past the old end.
get_elem-extend_items :
    (xs : Items) (i : ℕ) (v : Value) (rest : Text)
    → count_items xs ≤ i
    → (i < count_items (extend_items xs i v))
      × (get_elem (extend_items xs i v) i rest false false ≡ get v rest false false)
unfolding get extend_items
get_elem-extend_items empty zero v rest h = (omega arith, refl)
get_elem-extend_items empty (suc i) v rest h =
    let (lt, found) = get_elem-extend_items empty i v rest (omega arith) in (omega arith, found)
get_elem-extend_items (item w xs) zero v rest h = absurd (omega arith)
get_elem-extend_items (item w xs) (suc i) v rest h =
    let (lt, found) = get_elem-extend_items xs i v rest (omega arith) in (omega arith, found)

count_items-put_elem :
    (xs xs' : Items) (i : ℕ) (p : Text) (x : Value) (prepend : Bool) (old : Value)
    → put_elem xs i p x prepend ≡ some (old, xs')
    → count_items xs' ≡ count_items xs
unfolding put
count_items-put_elem empty xs' i p x prepend old h = ground arith
count_items-put_elem (item v xs) xs' zero p x prepend old h =
    let (r, q, made) = map-eq-some _ (put v p x prepend) h in ground arith
count_items-put_elem (item v xs) xs' (suc i) p x prepend old h =
    let (r, q, made) = map-eq-some _ (put_elem xs i p x prepend) h in
    ground (arith, count_items-put_elem xs r.1 i p x prepend r.0 q)

pub put_field-inv :
    (k : Text) (v : Value) (fs : Fields) (key rest : Text) (x : Value) (prepend : Bool)
    (old : Value) (fs' : Fields)
    → put_field (field k v fs) key rest x prepend ≡ some (old, fs')
    → ((text_eq k key ≡ true)
        × ((new : Value) × (put v rest x prepend ≡ some (old, new))
            × (fs' ≡ (if is_missing new then fs else field k new fs))))
      ⊎ ((text_eq k key ≡ false)
          × ((gs : Fields) × (put_field fs key rest x prepend ≡ some (old, gs))
              × (fs' ≡ field k v gs)))
unfolding put
put_field-inv k v fs key rest x prepend old fs' h = elim (Bool-cases (text_eq k key)) [
  | inl e ↦
      let (r, q, made) = map-eq-some _ (put v rest x prepend) (rw e at h) in
      inl (e, (r.1, ground arith, ground arith))
  | inr n ↦
      let (r, q, made) = map-eq-some _ (put_field fs key rest x prepend) (rw n at h) in
      inr (n, (r.1, ground arith, ground arith))
]

pub put_elem-inv :
    (v : Value) (xs : Items) (p : Text) (x : Value) (prepend : Bool) (old : Value) (xs' : Items)
    → put_elem (item v xs) zero p x prepend ≡ some (old, xs')
    → (new : Value) × (put v p x prepend ≡ some (old, new))
      × (xs' ≡ item (if is_missing new then nil else new) xs)
unfolding put
put_elem-inv v xs p x prepend old xs' h =
    let (r, q, made) = map-eq-some _ (put v p x prepend) h in (r.1, ground arith, ground arith)

pub put_elem-inv_suc :
    (v : Value) (xs : Items) (i : ℕ) (p : Text) (x : Value) (prepend : Bool) (old : Value)
    (xs' : Items)
    → put_elem (item v xs) (suc i) p x prepend ≡ some (old, xs')
    → (ys : Items) × (put_elem xs i p x prepend ≡ some (old, ys)) × (xs' ≡ item v ys)
unfolding put
put_elem-inv_suc v xs i p x prepend old xs' h =
    let (r, q, made) = map-eq-some _ (put_elem xs i p x prepend) h in
    (r.1, ground arith, ground arith)

at_end :
    (p : Text) (x old : Value) {out : Value × Value}
    → out ≡ (old, x)
    → text_eq p path_end ≡ true
    → get out.1 p false false ≡ (x, false)
at_end p x old made e =
    subst (λ (o : Value × Value). get o.1 p false false ≡ (x, false)) (sym made) (get-end x p e)

pub put_field-end :
    (key rest : Text) (x : Value) (prepend : Bool) → put_field end key rest x prepend ≡ none
unfolding put
put_field-end key rest x prepend = refl

pub put_elem-empty :
    (i : ℕ) (rest : Text) (x : Value) (prepend : Bool) → put_elem empty i rest x prepend ≡ none
unfolding put
put_elem-empty i rest x prepend = refl

pub get_elem-head :
    (v : Value) (xs : Items) (rest : Text)
    → get_elem (item v xs) zero rest false false ≡ get v rest false false
unfolding get
get_elem-head v xs rest = refl

pub get_elem-tail :
    (v : Value) (xs : Items) (i : ℕ) (rest : Text)
    → get_elem (item v xs) (suc i) rest false false ≡ get_elem xs i rest false false
unfolding get
get_elem-tail v xs i rest = refl

put-other :
    (v : Value) (p : Text) (x : Value) {out : Value × Value}
    → at_put p v x none ≡ some out
    → get out.1 p false false ≡ (x, false)
put-other v p x h = elim (at_put-cases p v x none h) [
  | inl (e, made) ↦ at_end p x _ made e
  | inr (_, n) ↦ cc
]

-- A value that a read finds to be there is not missing itself.
found-ne-missing :
    (new : Value) (p : Text) (x : Value)
    → is_missing x ≡ false
    → get new p false false ≡ (x, false)
    → is_missing new ≡ false
found-ne-missing missing p x m h = absurd (ground (arith, get-missing p))
found-ne-missing _ p x m h = refl

-- The two kinds of write, over the reads below.
get-DocWrite :
    (fs : Fields) (p : Text) (x : Value) (prepend : Bool) (out : Value × Value)
    → IsInner p
    → unsigned p ≡ true
    → is_missing x ≡ false
    → DocWrite p x prepend fs out
    → ((key rest : Text) (x : Value) (prepend : Bool) (old : Value) (fs' : Fields)
        → unsigned rest ≡ true
        → is_missing x ≡ false
        → put_field fs key rest x prepend ≡ some (old, fs')
        → get_field fs' key rest false false ≡ (x, false))
    → get out.1 p false false ≡ (x, false)
get-DocWrite fs p x prepend out inner u m (at_field old fs' has q) below =
    get-doc fs' p inner
    ∙ below (path_segment p) (reduce_path p) x prepend old fs' (unsigned-reduce_path p u) m q
get-DocWrite fs p x prepend out inner u m (new_field v fresh mx q) below =
    get-doc _ p inner
    ∙ get_field-add_field fs (path_segment p) (reduce_path p) v prepend fresh
    ∙ get-build_all (reduce_path p) x v m q

get-ArrayWrite :
    (xs : Items) (p : Text) (x : Value) (prepend : Bool) (out : Value × Value)
    → IsInner p
    → unsigned p ≡ true
    → is_missing x ≡ false
    → ArrayWrite p x prepend xs out
    → ((i : ℕ) (rest : Text) (x : Value) (prepend : Bool) (old : Value) (xs' : Items)
        → unsigned rest ≡ true
        → is_missing x ≡ false
        → put_elem xs i rest x prepend ≡ some (old, xs')
        → get_elem xs' i rest false false ≡ (x, false))
    → get out.1 p false false ≡ (x, false)
get-ArrayWrite xs p x prepend out inner u m (at_elem i old xs' at lt q) below =
    let same = count_items-put_elem xs xs' i (reduce_path p) x prepend old q in
    get-array xs' p i inner u at (omega arith)
    ∙ below i (reduce_path p) x prepend old xs' (unsigned-reduce_path p u) m q
get-ArrayWrite xs p x prepend out inner u m (new_elem i v at le mx q) below =
    let (lt, found) = get_elem-extend_items xs i v (reduce_path p) le in
    get-array _ p i inner u at lt ∙ found ∙ get-build_all (reduce_path p) x v m q

abbrev pub is_container : Value → Bool
is_container (doc _) = true
is_container (array _) = true
is_container _ = false

get-put_scalar :
    (v : Value) (p : Text) (x : Value) (prepend : Bool) (out : Value × Value)
    → is_container v ≡ false
    → is_missing x ≡ false
    → put v p x prepend ≡ some out
    → get out.1 p false false ≡ (x, false)
unfolding put
get-put_scalar (doc fs) p x prepend out c m h = cc
get-put_scalar (array xs) p x prepend out c m h = cc
get-put_scalar missing p x prepend out c m h = elim (at_put-cases p missing x _ h) [
  | inl (e, made) ↦ at_end p x missing made e
  | inr (_, more) ↦
      let (v, q, made) = map-eq-some _ (build_all p x) more in
      subst (λ (o : Value × Value). get o.1 p false false ≡ (x, false)) made
        (get-build_all p x v m q)
]
get-put_scalar v p x prepend out c m h = put-other v p x h

mutual
  get-put :
      (v : Value) (p : Text) (x : Value) (prepend : Bool) (out : Value × Value)
      → unsigned p ≡ true
      → is_missing x ≡ false
      → put v p x prepend ≡ some out
      → get out.1 p false false ≡ (x, false)
  get-put (doc fs) p x prepend out u m h = elim (put_doc-cases p x prepend fs h) [
    | inl (e, made) ↦ at_end p x _ made e
    | inr (inner, write) ↦ get-DocWrite fs p x prepend out inner u m write (get_field-put_field fs)
  ]
  get-put (array xs) p x prepend out u m h = elim (put_array-cases p x prepend xs h) [
    | inl (e, made) ↦ at_end p x _ made e
    | inr (inner, write) ↦ get-ArrayWrite xs p x prepend out inner u m write (get_elem-put_elem xs)
  ]
  get-put v p x prepend out u m h = get-put_scalar v p x prepend out refl m h

  get_field-put_field :
      (fs : Fields) (key rest : Text) (x : Value) (prepend : Bool) (old : Value) (fs' : Fields)
      → unsigned rest ≡ true
      → is_missing x ≡ false
      → put_field fs key rest x prepend ≡ some (old, fs')
      → get_field fs' key rest false false ≡ (x, false)
  get_field-put_field end key rest x prepend old fs' u m h =
      absurd (ground (arith, put_field-end key rest x prepend))
  get_field-put_field (field k v fs) key rest x prepend old fs' u m h =
      elim (put_field-inv k v fs key rest x prepend old fs' h) [
        | inl (e, (new, q, made)) ↦
            let found = get-put v rest x prepend (old, new) u m q in
            rw (made, found-ne-missing new rest x m found)
              (get_field-hit k new fs key rest e ∙ found)
        | inr (n, (gs, q, made)) ↦ rw made (
            get_field-tail k v gs key rest n
            ∙ get_field-put_field fs key rest x prepend old gs u m q)
      ]

  get_elem-put_elem :
      (xs : Items) (i : ℕ) (rest : Text) (x : Value) (prepend : Bool) (old : Value) (xs' : Items)
      → unsigned rest ≡ true
      → is_missing x ≡ false
      → put_elem xs i rest x prepend ≡ some (old, xs')
      → get_elem xs' i rest false false ≡ (x, false)
  get_elem-put_elem empty i rest x prepend old xs' u m h =
      absurd (ground (arith, put_elem-empty i rest x prepend))
  get_elem-put_elem (item v xs) zero rest x prepend old xs' u m h =
      let (new, q, made) = put_elem-inv v xs rest x prepend old xs' h in
      let found = get-put v rest x prepend (old, new) u m q in
      rw (made, found-ne-missing new rest x m found) (get_elem-head new xs rest ∙ found)
  get_elem-put_elem (item v xs) (suc i) rest x prepend old xs' u m h =
      let (ys, q, made) = put_elem-inv_suc v xs i rest x prepend old xs' h in
      rw made (get_elem-tail v ys i rest ∙ get_elem-put_elem xs i rest x prepend old ys u m q)

pub store_doc-inv :
    (old new : Value) (res : Value) (d : Fields)
    → store_doc old new ≡ ok (res, d)
    → (new ≡ doc d) × (old ≡ res)
store_doc-inv old (doc fs) res d h = (ground arith, ground arith)
store_doc-inv old _ res d h = cc

-- A value that `Put` stores at a path without signs is what `Get` finds there.
pub get_path-put_path :
    (d d' : Fields) (p : Text) (x old : Value) (prepend : Bool)
    → unsigned p ≡ true
    → put_path d p x prepend ≡ ok (old, d')
    → get_path d' p ≡ x
unfolding put_path get_path
get_path-put_path d d' p x old prepend u h = elim (Bool-cases (is_missing x)) [
  | inl m ↦ absurd (ground arith)
  | inr m ↦ elim (Option-cases (put (doc d) p x prepend)) [
    | inl n ↦ absurd (ground arith)
    | inr ((res, new), q) ↦
        let (e, _) = store_doc-inv res new old d' (ground arith) in
        ap (λ (r : Value × Bool). r.0) (rw e at (get-put (doc d) p x prepend (res, new) u m q))
  ]
]
