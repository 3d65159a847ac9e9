-- ===== src/Bsonkit/Index/Refines.antt =====
-- bsonkit/index.go against a plain list: the promise of an index.
use lungo.Base.{
  ◌≡◌, ◌↔◌, ◌⊎◌, inl, inr, refl, sym, ap, ap₂, subst, ◌∙◌, Bool, true, false, ◌||◌, List, [], ◌∷◌,
  none, some, Option-cases, Bool-cases, if◌then◌else◌, Mem, Ordering, arith,
}
use lungo.Bsonkit.Number.{Numerics, Decimal}
use lungo.Bsonkit.Sort.{Doc, Column}
use lungo.Bsonkit.Index.{
  index_less, new_index, Btree, IsOrder, BtreeLaws, BtreeContract, same_key, add, has, remove, list,
}
use lungo.Bsonkit.Index.Order.{Exact, index_less-IsOrder}
use lungo.Bsonkit.Index.Laws.{
  Call, add_call, has_call, remove_call, argument, AllIn, call, run, IsIndex, IsIndex-new,
  IsIndex-call, scan-delete,
}

-- A document of the list passes.
unfoldable pub any : (Doc → Bool) → List Doc → Bool
any p [] = false
any p (d ∷ ds) = p d || any p ds

-- The documents that do not pass.
unfoldable pub without : (Doc → Bool) → List Doc → List Doc
without p [] = []
without p (d ∷ ds) = let rest = without p ds in if p d then rest else d ∷ rest

any-Mem : (p : Doc → Bool) (ds : List Doc) → any p ds ≡ true → (e : Doc) × Mem e ds × (p e ≡ true)
unfolding any
any-Mem p [] h = ground arith
any-Mem p (d ∷ ds) h = elim (Bool-cases (p d)) [
  | inl k ↦ (d, inl refl, k)
  | inr k ↦ let (e, m, q) = any-Mem p ds (ground arith) in (e, inr m, q)
]

Mem-any : (p : Doc → Bool) (ds : List Doc) (e : Doc) → Mem e ds → p e ≡ true → any p ds ≡ true
unfolding any
Mem-any p [] e m k = elim m [ ]
Mem-any p (d ∷ ds) e (inl h) k = let q : p d ≡ true = subst (λ x. p x ≡ true) h k in ground arith
Mem-any p (d ∷ ds) e (inr h) k = let q = Mem-any p ds e h k in ground arith

without_dropped :
    (p : Doc → Bool) (d : Doc) (ds : List Doc) → p d ≡ true → without p (d ∷ ds) ≡ without p ds
unfolding without
without_dropped p d ds h = rw h refl

without_kept :
    (p : Doc → Bool) (d : Doc) (ds : List Doc) → p d ≡ false → without p (d ∷ ds) ≡ d ∷ without p ds
unfolding without
without_kept p d ds h = rw h refl

pub Mem-without :
    (p : Doc → Bool) (ds : List Doc) (x : Doc) → Mem x (without p ds) → Mem x ds × (p x ≡ false)
unfolding without
Mem-without p [] x m = elim m [ ]
Mem-without p (d ∷ ds) x m = elim (Bool-cases (p d)) [
  | inl h ↦
      let (n, k) = Mem-without p ds x (subst (λ l. Mem x l) (without_dropped p d ds h) m) in
      (inr n, k)
  | inr h ↦
      let found : (x ≡ d) ⊎ Mem x (without p ds) = subst (λ l. Mem x l) (without_kept p d ds h) m in
      elim found [
        | inl e ↦ (inl e, ap p e ∙ h)
        | inr n ↦ let (o, k) = Mem-without p ds x n in (inr o, k)
      ]
]

pub without-Mem :
    (p : Doc → Bool) (ds : List Doc) (x : Doc) → Mem x ds → p x ≡ false → Mem x (without p ds)
without-Mem p [] x m k = elim m [ ]
without-Mem p (d ∷ ds) x (inl e) k =
    subst (λ l. Mem x l) (sym (without_kept p d ds (sym (ap p e) ∙ k))) (inl e)
without-Mem p (d ∷ ds) x (inr m) k = elim (Bool-cases (p d)) [
  | inl h ↦ subst (λ l. Mem x l) (sym (without_dropped p d ds h)) (without-Mem p ds x m k)
  | inr h ↦ subst (λ l. Mem x l) (sym (without_kept p d ds h)) (inr (without-Mem p ds x m k))
]

module _ (less : Doc → Doc → Bool) where
  -- The calls on a plain list: Add refuses a document whose key is there, Remove takes out the
  -- documents with the key.
  unfoldable pub call_spec : Call → List Doc → Bool × List Doc
  unfolding any without
  call_spec (add_call d) s = if any (λ e. same_key less e d) s then (false, s) else (true, d ∷ s)
  call_spec (has_call d) s = (any (λ e. same_key less e d) s, s)
  call_spec (remove_call d) s = (any (λ e. same_key less e d) s, without (λ e. same_key less e d) s)

  unfoldable pub run_spec : List Doc → List Call → List Bool × List Doc
  unfolding call_spec
  run_spec s [] = ([], s)
  run_spec s (c ∷ cs) =
      let done = call_spec c s in let rest = run_spec done.1 cs in (done.0 ∷ rest.0, rest.1)

module _ (B : Btree) (less : Doc → Doc → Bool) (D : Doc → Type 0) (L : BtreeLaws B less D)
    (O : IsOrder less D) where
  -- The index and the list hold the same documents.
  abbrev Holds : B.Tree → List Doc → Type 0
  Holds t s = (x : Doc) → Mem x (list B t) ↔ Mem x s

  abbrev found : Doc → List Doc → Bool
  found d s = any (λ e. same_key less e d) s

  get-found :
      (t : B.Tree) (s : List Doc) (d e : Doc)
      → L.IsTree t
      → D d
      → Holds t s
      → B.get t d ≡ some e
      → found d s ≡ true
  get-found t s d e v dd h g =
      let (m, k) = L.get-some t d e v dd g in Mem-any (λ x. same_key less x d) s e ((h e).0 m) k

  get-absent :
      (t : B.Tree) (s : List Doc) (d : Doc)
      → L.IsTree t
      → D d
      → Holds t s
      → B.get t d ≡ none
      → found d s ≡ false
  get-absent t s d v dd h g = elim (Bool-cases (found d s)) [
    | inr k ↦ k
    | inl k ↦
        let (e, m, q) = any-Mem (λ x. same_key less x d) s k in
        let q' = L.get-none t d e v dd g ((h e).1 m) in ground arith
  ]

  abbrev Indexed : B.Tree → Type 0
  Indexed t = IsIndex B less D L t

  abbrev Agrees : Bool × B.Tree → Bool × List Doc → Type 0
  Agrees t s = (t.0 ≡ s.0) × Indexed t.1 × Holds t.1 s.1

  Agrees-of :
      (p p' : Bool × B.Tree) (q q' : Bool × List Doc) → p ≡ p' → q ≡ q' → Agrees p' q' → Agrees p q
  Agrees-of p p' q q' e f a = rw (e, f) a

  add-absent : (t : B.Tree) (d : Doc) → B.get t d ≡ none → call B (add_call d) t ≡ (true, B.set t d)
  unfolding call add
  add-absent t d h = rw (h, add) refl

  add-found : (t : B.Tree) (d e : Doc) → B.get t d ≡ some e → call B (add_call d) t ≡ (false, t)
  unfolding call add
  add-found t d e h = rw (h, add) refl

  has-absent : (t : B.Tree) (d : Doc) → B.get t d ≡ none → call B (has_call d) t ≡ (false, t)
  unfolding call has
  has-absent t d h = rw (h, has) refl

  has-found : (t : B.Tree) (d e : Doc) → B.get t d ≡ some e → call B (has_call d) t ≡ (true, t)
  unfolding call has
  has-found t d e h = rw (h, has) refl

  remove-absent :
      (t : B.Tree) (d : Doc)
      → (B.delete t d).0 ≡ none
      → call B (remove_call d) t ≡ (false, (B.delete t d).1)
  unfolding call remove
  remove-absent t d h = rw (h, remove) refl

  remove-found :
      (t : B.Tree) (d e : Doc)
      → (B.delete t d).0 ≡ some e
      → call B (remove_call d) t ≡ (true, (B.delete t d).1)
  unfolding call remove
  remove-found t d e h = rw (h, remove) refl

  added-spec :
      (d : Doc) (s : List Doc) (b : Bool)
      → found d s ≡ b
      → call_spec less (add_call d) s ≡ (if b then (false, s) else (true, d ∷ s))
  unfolding call_spec
  added-spec d s b h = rw h refl

  Holds-delete :
      (t : B.Tree) (s : List Doc) (d : Doc)
      → Indexed t
      → D d
      → Holds t s
      → Holds (B.delete t d).1 (without (λ e. same_key less e d) s)
  Holds-delete t s d v dd h x = (
    λ m.
        let (n, k) = (scan-delete B less D L t d x O v dd).0 m in
        without-Mem (λ e. same_key less e d) s x ((h x).0 n) k,
    λ m.
        let (n, k) = Mem-without (λ e. same_key less e d) s x m in
        (scan-delete B less D L t d x O v dd).1 ((h x).1 n, k),
  )

  Holds-set :
      (t : B.Tree) (s : List Doc) (d : Doc)
      → L.IsTree t
      → D d
      → B.get t d ≡ none
      → Holds t s
      → Holds (B.set t d) (d ∷ s)
  Holds-set t s d v dd g h x = (
    λ m. elim ((L.scan-set t d x v dd g).0 m) [ inl e ↦ inl e | inr n ↦ inr ((h x).0 n) ],
    λ m. elim m [
      | inl e ↦ (L.scan-set t d x v dd g).1 (inl e)
      | inr n ↦ (L.scan-set t d x v dd g).1 (inr ((h x).1 n))
    ],
  )

  call-Agrees :
      (c : Call) (t : B.Tree) (s : List Doc)
      → Indexed t
      → D (argument c)
      → Holds t s
      → Agrees (call B c t) (call_spec less c s)
  unfolding call_spec
  call-Agrees (add_call d) t s (v, u) dd h = elim (Option-cases (B.get t d)) [
    | inl g ↦
        Agrees-of _ _ _ _ (add-absent t d g) (added-spec d s false (get-absent t s d v dd h g)) (
          refl,
          subst (λ (r : Bool × B.Tree). Indexed r.1) (add-absent t d g)
              (IsIndex-call B less D L (add_call d) t (v, u) dd),
          Holds-set t s d v dd g h,
        )
    | inr (e, g) ↦
        Agrees-of _ _ _ _ (add-found t d e g) (added-spec d s true (get-found t s d e v dd h g))
          (refl, (v, u), h)
  ]
  call-Agrees (has_call d) t s (v, u) dd h = elim (Option-cases (B.get t d)) [
    | inl g ↦ Agrees-of _ _ _ _ (has-absent t d g) refl (sym (get-absent t s d v dd h g), (v, u), h)
    | inr (e, g) ↦
        Agrees-of _ _ _ _ (has-found t d e g) refl (sym (get-found t s d e v dd h g), (v, u), h)
  ]
  call-Agrees (remove_call d) t s (v, u) dd h = elim (Option-cases (B.get t d)) [
    | inl g ↦
        let k = remove-absent t d (L.delete-get t d v dd ∙ g) in
        Agrees-of _ _ _ _ k refl (
          sym (get-absent t s d v dd h g),
          subst (λ (r : Bool × B.Tree). Indexed r.1) k
              (IsIndex-call B less D L (remove_call d) t (v, u) dd),
          Holds-delete t s d (v, u) dd h,
        )
    | inr (e, g) ↦
        let k = remove-found t d e (L.delete-get t d v dd ∙ g) in
        Agrees-of _ _ _ _ k refl (
          sym (get-found t s d e v dd h g),
          subst (λ (r : Bool × B.Tree). Indexed r.1) k
              (IsIndex-call B less D L (remove_call d) t (v, u) dd),
          Holds-delete t s d (v, u) dd h,
        )
  ]

  abbrev Implements : List Bool × B.Tree → List Bool × List Doc → Type 0
  Implements t s = (t.0 ≡ s.0) × ((x : Doc) → Mem x (list B t.1) ↔ Mem x s.1)

  run-Agrees :
      (cs : List Call) (t : B.Tree) (s : List Doc)
      → Indexed t
      → AllIn D cs
      → Holds t s
      → Implements (run B t cs) (run_spec less s cs)
  unfolding run run_spec
  run-Agrees [] t s v ds h = (refl, h)
  run-Agrees (c ∷ cs) t s v (d, ds) h =
      let (e, v', h') = call-Agrees c t s v d h in
      let (es, hs) = run-Agrees cs (call B c t).1 (call_spec less c s).1 v' ds h' in
      (ap₂ (λ b bs. b ∷ bs) e es, hs)

  run-new_tree :
      (cs : List Call) → AllIn D cs → Implements (run B (B.new_tree less) cs) (run_spec less [] cs)
  run-new_tree cs ds =
      run-Agrees cs (B.new_tree less) [] (IsIndex-new B less D L) ds
        (λ x. (λ m. subst (λ xs. Mem x xs) L.scan-new m, λ m. elim m [ ]))

module _ (B : Btree) (ar : Numerics) (unique : Bool) (columns : List Column) (K : BtreeContract B)
    (cmp_self : (a : Decimal) → ar.decimal_cmp a a ≡ Ordering.eq) where
  -- From NewIndex every sequence of Add, Has and Remove, with documents whose values in the columns
  -- hold integers only and no regular expression, answers as a plain list does on which Add refuses
  -- a document whose key is there, and in the end the index holds the documents of the list. Two
  -- documents have one key if the comparator of the index leaves them undecided. The btree obeys
  -- its laws for a comparator that is an order of its items, and Cmp of the decimal package answers
  -- 0 for equal decimals.
  pub run-new_index :
      (cs : List Call)
      → AllIn (Exact columns) cs
      → ((run B (new_index B ar unique columns) cs).0
          ≡ (run_spec (index_less ar unique columns) [] cs).0)
        × ((x : Doc)
            → Mem x (list B (run B (new_index B ar unique columns) cs).1)
              ↔ Mem x (run_spec (index_less ar unique columns) [] cs).1)
  unfolding new_index
  run-new_index cs ds =
      let less = index_less ar unique columns in
      let O = index_less-IsOrder ar cmp_self unique columns in
      run-new_tree B less (Exact columns) (K.laws less (Exact columns) O) O cs ds
