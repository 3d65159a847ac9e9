-- ===== src/Mongokit/Match/Candidates.antt =====
-- The values that an expression operator of mongokit/match.go tests, and what it answers of them.
use lungo.Base.{
  ◌≡◌, refl, sym, ap, ap₂, ◌∙◌, Bool, true, false, not, ◌&&◌, ◌||◌, Option, none, some, ◌==◌,
  if◌then◌else◌, Text, text_eq, codes, Ordering, is_eq, is_lt, is_gt, fail, not_matched, arith,
  Bool-cases, inl, inr,
}
use mathlib.Core.Path.{fun_ext}
use lungo.Bsonkit.Value.{
  Value, doc, array, Items, empty, item, Fields, as_array?, append_items, Class, class_of, rank,
}
use lungo.Bsonkit.Number.{Numerics}
use lungo.Bsonkit.Compare.{compare, by_class}
use lungo.Bsonkit.Access.{all}
use lungo.Mongokit.Match.{
  Verdict, verdict, or_next, unwind_items, match_unwind, match_comp, comp_test, comp_ok, match_in,
  in_test, has_equal,
}

-- The elements of an array at the path, and the value itself unless it was collected from several
-- documents.
unfoldable pub candidates : Fields → Text → Bool → Bool → Items
candidates d path merge yield_merge =
    let (value, multi) = all d path true merge in
    let last = if not multi || yield_merge then item value empty else empty in
    elim (as_array? value) [ none ↦ last | some xs ↦ append_items xs last ]

unfoldable pub any_item : (Value → Bool) → Items → Bool
any_item test empty = false
any_item test (item v xs) = test v || any_item test xs

or_next-verdict : (a b : Bool) → or_next (verdict a) (verdict b) ≡ verdict (a || b)
or_next-verdict true b = refl
or_next-verdict false b = refl

unwind_items-any :
    (op : Value → Verdict) (test : Value → Bool) (xs ys : Items)
    → ((x : Value) → op x ≡ verdict (test x))
    → unwind_items op xs (verdict (any_item test ys)) ≡ verdict (any_item test (append_items xs ys))
unfolding unwind_items any_item
unwind_items-any op test empty ys h = refl
unwind_items-any op test (item v xs) ys h =
    rw (h v, unwind_items-any op test xs ys h) (or_next-verdict (test v) _)

last-any :
    (op : Value → Verdict) (test : Value → Bool) (b : Bool) (v : Value)
    → ((x : Value) → op x ≡ verdict (test x))
    → (if b then op v else fail not_matched)
      ≡ verdict (any_item test (if b then item v empty else empty))
unfolding any_item
last-any op test true v h = h v ∙ ap verdict (ground arith)
last-any op test false v h = refl

unwind-any :
    (op : Value → Verdict) (test : Value → Bool) (o : Option Items) (b : Bool) (v : Value)
    → ((x : Value) → op x ≡ verdict (test x))
    → elim o [
      | none ↦ if b then op v else fail not_matched
      | some xs ↦ unwind_items op xs (if b then op v else fail not_matched)
    ]
      ≡ verdict (
          any_item test (elim o [
            | none ↦ if b then item v empty else empty
            | some xs ↦ append_items xs (if b then item v empty else empty)
          ]))
unwind-any op test none b v h = last-any op test b v h
unwind-any op test (some xs) b v h =
    ap (unwind_items op xs) (last-any op test b v h)
    ∙ unwind_items-any op test xs (if b then item v empty else empty) h

-- An operator whose test is a plain Bool matches if a candidate passes.
pub match_unwind-any :
    (d : Fields) (path : Text) (merge yield_merge : Bool) (op : Value → Verdict)
    (test : Value → Bool)
    → ((x : Value) → op x ≡ verdict (test x))
    → match_unwind d path merge yield_merge op
      ≡ verdict (any_item test (candidates d path merge yield_merge))
unfolding match_unwind candidates
match_unwind-any d path merge yield_merge op test h =
    let r = all d path true merge in
    unwind-any op test (as_array? r.0) (not r.1 || yield_merge) r.0 h

-- What one candidate must satisfy for each comparison operator.
module _ (ar : Numerics) where
  abbrev pub passes : (Bool → Ordering → Bool) → Value → Value → Bool
  passes f v x = f (rank (class_of x) == rank (class_of v)) (compare ar x v)

  -- A comparison operator that the switch knows.
  pub match_comp-any :
      (d : Fields) (op path : Text) (v : Value) (f : Bool → Ordering → Bool)
      → ((same : Bool) (res : Ordering) → comp_ok op same res ≡ some (f same res))
      → match_comp ar d op path v ≡ verdict (any_item (passes f v) (candidates d path true false))
  unfolding match_comp comp_test
  match_comp-any d op path v f h =
      match_unwind-any d path true false (comp_test ar op v) (passes f v)
        λ x. rw (h (rank (class_of x) == rank (class_of v)) (compare ar x v), comp_test)

  -- Each comparison operator matches if some candidate has the class of the operand and the order
  -- to it that the operator names; `$ne` if some candidate has another class or another order.
  pub match_comp-candidates :
      (d : Fields) (path : Text) (v : Value)
      → (match_comp ar d (codes "$eq") path v
          ≡ verdict (any_item (passes (λ s o. s && is_eq o) v) (candidates d path true false)))
        × (match_comp ar d (codes "$gt") path v
            ≡ verdict (any_item (passes (λ s o. s && is_gt o) v) (candidates d path true false)))
        × (match_comp ar d (codes "$lt") path v
            ≡ verdict (any_item (passes (λ s o. s && is_lt o) v) (candidates d path true false)))
        × (match_comp ar d (codes "$ne") path v
            ≡ verdict
                (any_item (passes (λ s o. not (s && is_eq o)) v) (candidates d path true false)))
  unfolding comp_ok text_eq
  match_comp-candidates d path v = (
    match_comp-any d (codes "$eq") path v _ (λ s o. refl),
    match_comp-any d (codes "$gt") path v _ (λ s o. refl),
    match_comp-any d (codes "$lt") path v _ (λ s o. refl),
    match_comp-any d (codes "$ne") path v (λ s o. not (s && is_eq o))
        (λ s o. ap some (ground arith)),
  )

  any_item-or :
      (f g : Value → Bool) (xs : Items)
      → any_item (λ x. f x || g x) xs ≡ (any_item f xs || any_item g xs)
  unfolding any_item
  any_item-or f g empty = refl
  any_item-or f g (item v xs) = rw (any_item-or f g xs) (ground arith)

  any_item-ext :
      (f g : Value → Bool) (xs : Items) → ((x : Value) → f x ≡ g x) → any_item f xs ≡ any_item g xs
  unfolding any_item
  any_item-ext f g empty h = refl
  any_item-ext f g (item v xs) h = ap₂ ◌||◌ (h v) (any_item-ext f g xs h)

  -- `$gte` matches if `$gt` or `$eq` does, and `$lte` if `$lt` or `$eq` does.
  pub match_comp-or_equal :
      (d : Fields) (path : Text) (v : Value)
      → (match_comp ar d (codes "$gte") path v
          ≡ or_next (match_comp ar d (codes "$gt") path v) (match_comp ar d (codes "$eq") path v))
        × (match_comp ar d (codes "$lte") path v
            ≡ or_next (match_comp ar d (codes "$lt") path v) (match_comp ar d (codes "$eq") path v))
  unfolding comp_ok text_eq
  match_comp-or_equal d path v =
      let (eq, gt, lt, _) = match_comp-candidates d path v in
      let cs = candidates d path true false in
      (
        match_comp-any d (codes "$gte") path v (λ s o. (s && is_gt o) || (s && is_eq o))
              (λ s o. ap some (ground arith))
            ∙ ap verdict (any_item-or _ _ cs)
            ∙ sym (or_next-verdict _ _)
            ∙ sym (ap₂ or_next gt eq),
        match_comp-any d (codes "$lte") path v (λ s o. (s && is_lt o) || (s && is_eq o))
              (λ s o. ap some (ground arith))
            ∙ ap verdict (any_item-or _ _ cs)
            ∙ sym (or_next-verdict _ _)
            ∙ sym (ap₂ or_next lt eq),
      )

  -- Values that compare equal are of one class.
  by_class-eq :
      (a b : Class) (o : Ordering) → is_eq (by_class a b o) ≡ true → (rank a == rank b) ≡ true
  by_class-eq a b o h = ground arith

  compare-class :
      (x v : Value)
      → is_eq (compare ar x v) ≡ true
      → (rank (class_of x) == rank (class_of v)) ≡ true
  unfolding compare
  compare-class (doc fs) v h = by_class-eq Class.document_class (class_of v) _ h
  compare-class (array xs) v h = by_class-eq Class.array_class (class_of v) _ h
  compare-class x v h = by_class-eq (class_of x) (class_of v) _ h

  eq-passes : (x v : Value) → is_eq (compare ar x v) ≡ passes (λ s o. s && is_eq o) v x
  eq-passes x v = elim (Bool-cases (is_eq (compare ar x v))) [
    | inl e ↦ rw (e, compare-class x v e)
    | inr n ↦ rw n (ground arith)
  ]

  any_item-false : (xs : Items) → any_item (λ _. false) xs ≡ false
  unfolding any_item
  any_item-false empty = refl
  any_item-false (item v xs) = any_item-false xs

  any_equal :
      (xs cs : Items)
      → unwind_items
          (λ v. verdict (any_item (passes (λ s o. s && is_eq o) v) cs))
          xs
          (fail not_matched)
        ≡ verdict (any_item (λ x. has_equal ar x xs) cs)
  unfolding unwind_items has_equal
  any_equal empty cs = ap verdict (sym (any_item-false cs))
  any_equal (item v xs) cs =
      ap (or_next _) (any_equal xs cs)
      ∙ or_next-verdict _ _
      ∙ ap verdict (
          ap (λ b. b || any_item (λ x. has_equal ar x xs) cs)
            (any_item-ext _ _ cs (λ x. sym (eq-passes x v)))
          ∙ sym (any_item-or (λ x. is_eq (compare ar x v)) (λ x. has_equal ar x xs) cs))

  -- `$in` with an array matches as `$eq` with one of its elements does.
  pub match_in-match_comp :
      (d : Fields) (name path : Text) (xs : Items)
      → match_in ar d name path (array xs)
        ≡ unwind_items (match_comp ar d (codes "$eq") path) xs (fail not_matched)
  unfolding match_in in_test
  match_in-match_comp d name path xs =
      match_unwind-any d path true false (in_test ar name (array xs)) (λ x. has_equal ar x xs)
        (λ x. refl)
      ∙ sym (any_equal xs (candidates d path true false))
      ∙ ap (λ f. unwind_items f xs (fail not_matched))
          (fun_ext (λ v. sym (match_comp-candidates d path v).0))
