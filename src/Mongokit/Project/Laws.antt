-- ===== src/Mongokit/Project/Laws.antt =====
-- mongokit/project.go: what a projection shows.
use lungo.Base.{
  Bool, true, false, not, ◌&&◌, List, [], ◌∷◌, Option, some, if◌then◌else◌, Text, text_eq, codes,
  ok, ◌>>=◌, bind-ok, ok_injective, and_left, and_right, Bool-cases, ◌≡◌, sym, ap, ◌∙◌, arith, inl,
  inr,
}
use lungo.Bsonkit.Value.{Value, missing, Fields, end, is_missing}
use lungo.Bsonkit.Path.{path_end, path_segment}
use lungo.Bsonkit.Access.{get, get_path, put_path, unset}
use lungo.Bsonkit.Access.Steps.{IsInner}
use lungo.Bsonkit.Access.RoundTrip.{get-doc}
use lungo.Bsonkit.Access.Previous.{writes-frame}
use lungo.Mongokit.Project.{
  ProjectState, apply_state, ensure_doc, select_fields, copy_id, include_fields, exclude_fields,
  merge_fields,
}

-- The path begins with a key of its own.
abbrev pub other_key : Text → Text → Bool
other_key q p = not (text_eq p path_end) && not (text_eq (path_segment p) (path_segment q))

unfoldable pub other_keys : Text → List Text → Bool
other_keys q [] = true
other_keys q (p ∷ ps) = other_key q p && other_keys q ps

not-true : (b : Bool) → not b ≡ true → b ≡ false
not-true b h = ground arith

put-frame :
    (d r : Fields) (p q : Text) (x : Value)
    → (put_path d p x false >>= λ put. ok put.1) ≡ ok r
    → other_key q p ≡ true
    → IsInner q
    → get_path r q ≡ get_path d q
put-frame d r p q x h o i =
    let ((old, d'), e, k) = bind-ok (put_path d p x false) (λ put. ok put.1) r h in
    ap (λ f. get_path f q) (sym (ok_injective k))
    ∙ writes-frame d d' p q old (not-true _ (and_left _ _ o)) (not-true _ (and_right _ _ o)) i
        (inl (x, false, e))

unset-frame :
    (d r : Fields) (p q : Text) (old : Value)
    → unset d p ≡ ok (old, r)
    → other_key q p ≡ true
    → IsInner q
    → get_path r q ≡ get_path d q
unset-frame d r p q old e o i =
    writes-frame d r p q old (not-true _ (and_left _ _ o)) (not-true _ (and_right _ _ o)) i (inr e)

exclude-frame :
    (paths : List Text) (d r : Fields) (q : Text)
    → exclude_fields paths d ≡ ok r
    → other_keys q paths ≡ true
    → IsInner q
    → get_path r q ≡ get_path d q
unfolding exclude_fields other_keys
exclude-frame [] d r q h o i = ap (λ f. get_path f q) (sym (ok_injective h))
exclude-frame (p ∷ ps) d r q h o i =
    let ((old, d'), e, k) = bind-ok (unset d p) (λ put. exclude_fields ps put.1) r h in
    exclude-frame ps d' r q k (and_right _ _ o) i ∙ unset-frame d d' p q old e (and_left _ _ o) i

include_one :
    (d res r : Fields) (p q : Text)
    → (if is_missing (get_path d p)
        then ok res
        else (put_path res p (get_path d p) false >>= λ put. ok put.1))
      ≡ ok r
    → other_key q p ≡ true
    → IsInner q
    → get_path r q ≡ get_path res q
include_one d res r p q h o i = elim (Bool-cases (is_missing (get_path d p))) [
  | inl m ↦
      ap (λ f. get_path f q)
        (sym (
          ok_injective (
            sym (
              ap
                (λ b.
                  if b then ok res else (put_path res p (get_path d p) false >>= λ put. ok put.1))
                m)
            ∙ h)))
  | inr m ↦
      put-frame res r p q (get_path d p)
        (sym (
            ap
              (λ b. if b then ok res else (put_path res p (get_path d p) false >>= λ put. ok put.1))
              m)
          ∙ h)
        o i
]

include-frame :
    (paths : List Text) (d res r : Fields) (q : Text)
    → include_fields d paths res ≡ ok r
    → other_keys q paths ≡ true
    → IsInner q
    → get_path r q ≡ get_path res q
unfolding include_fields other_keys
include-frame [] d res r q h o i = ap (λ f. get_path f q) (sym (ok_injective h))
include-frame (p ∷ ps) d res r q h o i =
    let (res', e, k) = bind-ok _ (include_fields d ps) r h in
    include-frame ps d res' r q k (and_right _ _ o) i
    ∙ include_one d res res' p q e (and_left _ _ o) i

get_path-end : (q : Text) → IsInner q → get_path end q ≡ missing
unfolding get_path get
get_path-end q i = ap (λ (r : Value × Bool). r.0) (get-doc end q i)

copy_id-frame :
    (d r : Fields) (q : Text)
    → copy_id d ≡ ok r
    → other_key q (codes "_id") ≡ true
    → IsInner q
    → get_path r q ≡ missing
unfolding copy_id
copy_id-frame d r q h o i =
    put-frame end r (codes "_id") q (get_path d (codes "_id")) h o i ∙ get_path-end q i

-- What a path beside the ones of the projection shows.
abbrev pub beside : List Text → Value → Value
beside [] v = v
beside (p ∷ ps) v = missing

some_lem : (d : Fields) (r : Fields) (s : Option Fields) → ok (some r) ≡ ok s → ensure_doc d s ≡ r
some_lem d r s h = ap (λ o. ensure_doc d o) (sym (ok_injective h))

select-frame :
    (hide : Bool) (inc exc : List Text) (m : List (Text × Value)) (d : Fields) (s : Option Fields)
    (q : Text)
    → select_fields d (record { hide_id = hide; include = inc; exclude = exc; merge = m }) ≡ ok s
    → other_key q (codes "_id") ≡ true
    → other_keys q inc ≡ true
    → other_keys q exc ≡ true
    → IsInner q
    → get_path (ensure_doc d s) q ≡ beside inc (get_path d q)
unfolding select_fields
select-frame hide [] [] m d s q h o oi oe i =
    ap (λ x. get_path (ensure_doc d x) q) (sym (ok_injective h))
select-frame hide [] (p ∷ ps) m d s q h o oi oe i =
    let (r, e, k) = bind-ok (exclude_fields (p ∷ ps) d) (λ x. ok (some x)) s h in
    ap (λ f. get_path f q) (some_lem d r s k) ∙ exclude-frame (p ∷ ps) d r q e oe i
select-frame hide (p ∷ ps) [] m d s q h o oi oe i =
    let (a, e, k) = bind-ok (copy_id d) _ s h in
    let (r, e', k') = bind-ok (include_fields d (p ∷ ps) a) (λ x. ok (some x)) s k in
    ap (λ f. get_path f q) (some_lem d r s k')
    ∙ include-frame (p ∷ ps) d a r q e' oi i
    ∙ copy_id-frame d a q e o i
select-frame hide (p ∷ ps) (p' ∷ ps') m d s q h o oi oe i = ground arith

hide-frame :
    (hide : Bool) (d r : Fields) (q : Text)
    → (if hide then (unset d (codes "_id") >>= λ put. ok put.1) else ok d) ≡ ok r
    → other_key q (codes "_id") ≡ true
    → IsInner q
    → get_path r q ≡ get_path d q
hide-frame true d r q h o i =
    let ((old, d'), e, k) = bind-ok (unset d (codes "_id")) (λ put. ok put.1) r h in
    ap (λ f. get_path f q) (sym (ok_injective k)) ∙ unset-frame d d' (codes "_id") q old e o i
hide-frame false d r q h o i = ap (λ f. get_path f q) (sym (ok_injective h))

-- What Project makes of a document and of the paths that a projection without slices includes and
-- excludes: a path whose first key is neither that of _id nor that of one of the projection's paths
-- shows nothing if paths are included, and what the document has there if none are. The path is
-- neither empty nor the end of a path, the paths of the projection are not that end, and a map
-- without entries has none in any order.
pub apply_state-beside :
    (map_order : List (Text × Value) → List (Text × Value)) (hide : Bool) (inc exc : List Text)
    (d r : Fields) (q : Text)
    → map_order [] ≡ []
    → apply_state map_order d (record { hide_id = hide; include = inc; exclude = exc; merge = [] })
      ≡ ok r
    → other_key q (codes "_id") ≡ true
    → other_keys q inc ≡ true
    → other_keys q exc ≡ true
    → IsInner q
    → get_path r q ≡ beside inc (get_path d q)
unfolding apply_state merge_fields
apply_state-beside map_order hide inc exc d r q g h o oi oe i =
    let state : ProjectState = record {
      hide_id = hide;
      include = inc;
      exclude = exc;
      merge = [];
    } in
    let (s, e, k) = bind-ok (select_fields d state) _ r h in
    let (s', e', k') = bind-ok (merge_fields d (map_order []) s) _ r k in
    let same : s ≡ s' = ok_injective (sym (ap (λ m. merge_fields d m s) g) ∙ e') in
    hide-frame hide (ensure_doc d s') r q k' o i
    ∙ ap (λ x. get_path (ensure_doc d x) q) (sym same)
    ∙ select-frame hide inc exc [] d s q e o oi oe i
