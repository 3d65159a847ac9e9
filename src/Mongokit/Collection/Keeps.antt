-- ===== src/Mongokit/Collection/Keeps.antt =====
-- mongokit/collection.go: every operation that succeeds keeps a collection consistent.
use lungo.Base.{
  ℕ, ◌≡◌, ◌≢◌, ◌↔◌, ◌⊎◌, inl, inr, refl, sym, ap, subst, ◌∙◌, true, List, [], ◌∷◌, map, Mem, Text,
  ok, bind-ok, ok_injective, length, arith, Bool-cases, ==_iff, ◌==◌,
}
use lungo.Bsonkit.Value.{Fields}
use lungo.Bsonkit.Number.{Numerics}
use lungo.Bsonkit.Sort.{Doc}
use lungo.Bsonkit.Set.Keys as Keys
use lungo.Bsonkit.Set.Keys.{position, shift}
use lungo.Bsonkit.Set.Valid.{IsValid}
use lungo.Bsonkit.Set.Members.{is_some}
use lungo.Bsonkit.Index.{Btree}
use lungo.Mongokit.Query.{SchemaCheck}
use lungo.Mongokit.Index.{Index}
use lungo.Mongokit.Index.Holds.{Trust}
use lungo.Mongokit.Index.Plain.{Plain}
use lungo.Mongokit.Find.Members.{IsDistinct, IsPart}
use lungo.Mongokit.Collection.{
  Collection, docs, replace_document, remove_document, remove_documents, replace_documents,
  add_to_indexes, add_all_to_indexes, remove_from_indexes, remove_all_from_indexes, store,
}
use lungo.Mongokit.Collection.Consistent.{
  Stored, AllPlain, AllHold, AllHold-iff, add-AllHold, remove-AllHold, IsConsistent,
}
use lungo.Mongokit.Collection.Documents.{
  Leaves, replace_document_fresh, taken_free, add_document-Leaves, replace_document-Leaves,
  remove_document-Leaves,
}

-- The documents of a list of addresses.
abbrev listed : (ℕ → Fields) → List ℕ → List Doc
listed content as' = map (λ a. record { address = a; content = content a }) as'

listed_at :
    (content : ℕ → Fields) (as' : List ℕ) (x : Doc)
    → Mem x (listed content as')
    → (is_some (position x.address as') ≡ true) × (x.content ≡ content x.address)
unfolding position
listed_at content [] x m = elim m [ ]
listed_at content (a ∷ as') x (inl e) =
    let at : x.address ≡ a = ap (λ (d : Doc). d.address) e in
    (ground (arith, ==_iff x.address a), ap (λ (d : Doc). d.content) e ∙ ap content (sym at))
listed_at content (a ∷ as') x (inr m) = let (p, k) = listed_at content as' x m in (ground arith, k)

-- No address twice, no document twice.
listed-IsDistinct :
    (content : ℕ → Fields) (as' : List ℕ) → Keys.IsDistinct as' → IsDistinct (listed content as')
listed-IsDistinct content [] u = tt
listed-IsDistinct content (a ∷ as') (new, u) = (
  λ m.
      let (p, k) = listed_at content as' (record { address = a; content = content a }) m in
      ground arith,
  listed-IsDistinct content as' u,
)

listed_has :
    (content : ℕ → Fields) (as' : List ℕ) (x : Doc)
    → is_some (position x.address as') ≡ true
    → x.content ≡ content x.address
    → Mem x (listed content as')
unfolding position
listed_has content [] x p k = cc
listed_has content (a ∷ as') x p k = elim (Bool-cases (x.address == a)) [
  | inl same ↦
      let at : x.address ≡ a = (==_iff x.address a).0 same in
      inl (λ i. record { address = at i; content = (k ∙ ap content at) i })
  | inr other ↦ inr (listed_has content as' x (ground arith) k)
]

module _ {B : Btree} where
  pub Stored-docs : (c : Collection B) (x : Doc) → IsValid c.documents → Stored c x → Mem x (docs c)
  Stored-docs c x v (m, k) =
      listed_has c.content c.documents.list x (ap is_some (sym (v.agrees x.address)) ∙ m) k

  -- The list of the set holds what is stored, once each.
  pub docs-Stored : (c : Collection B) (x : Doc) → IsValid c.documents → Mem x (docs c) → Stored c x
  docs-Stored c x v m =
      let (p, k) = listed_at c.content c.documents.list x m in
      (ap is_some (v.agrees x.address) ∙ p, k)

  pub docs-IsDistinct : (c : Collection B) → IsValid c.documents → IsDistinct (docs c)
  docs-IsDistinct c v = listed-IsDistinct c.content c.documents.list v.distinct

  -- A part of the list of the set.
  abbrev pub Selected : Collection B → List Doc → Type 0
  Selected c list = ((x : Doc) → Mem x list → Stored c x) × IsDistinct list

  pub part-Selected :
      (c : Collection B) (list : List Doc)
      → IsValid c.documents
      → IsPart list (docs c)
      → Selected c list
  part-Selected c list v (m, d) = (λ x k. docs-Stored c x v (m x k), d (docs-IsDistinct c v))

  -- What RemoveAll leaves.
  pub remove_documents-Leaves :
      (c c' : Collection B) (list : List Doc)
      → remove_documents c list ≡ ok c'
      → IsValid c.documents
      → Selected c list
      → Leaves c c' (λ x. Stored c x × ¬ (Mem x list))
  unfolding remove_documents
  remove_documents-Leaves c c' [] h v s =
      subst (λ (k : Collection B). Leaves c k (λ x. Stored c x × ¬ (Mem x []))) (ok_injective h)
        (record { valid = v; indexes = refl; stored = λ x. (λ m. (m, λ n. elim n [ ]), λ p. p.0) })
  remove_documents-Leaves c c' (d ∷ ds) h v (m, (new, u)) =
      let (c₁, e, k) = bind-ok (remove_document c d) _ c' h in
      let l = remove_document-Leaves c c₁ d e v (m d (inl refl)) in
      let left : Selected c₁ ds =
        (λ x n. (l.stored x).1 (m x (inr n), λ f. new (subst (λ y. Mem y ds) f n)), u) in
      let r = remove_documents-Leaves c₁ c' ds k l.valid left in
      record {
        valid = r.valid;
        indexes = r.indexes ∙ l.indexes;
        stored = λ x. (
          λ n.
              let (a, b) = (r.stored x).0 n in
              let (a', ne) = (l.stored x).0 a in (a', λ o. elim o [ inl f ↦ ne f | inr q ↦ b q ]),
          λ (a, b). (r.stored x).1 ((l.stored x).1 (a, λ f. b (inl f)), λ q. b (inr q)),
        );
      }

  stays :
      (c c' : Collection B)
      → c ≡ c'
      → IsValid c.documents
      → Leaves c c' (λ x. Mem x [] ⊎ (Stored c x × ¬ (Mem x [])))
  stays c c' e v =
      subst (λ (k : Collection B). Leaves c k (λ x. Mem x [] ⊎ (Stored c x × ¬ (Mem x [])))) e
        (record {
          valid = v;
          indexes = refl;
          stored = λ x.
              (λ m. inr (m, λ n. elim n [ ]), λ q. elim q [ inl n ↦ elim n [ ] | inr p ↦ p.0 ]);
        })

  -- Replacing each document of a list by one of another list.
  pub replace_documents-Leaves :
      (c c' : Collection B) (olds news : List Doc)
      → replace_documents c olds news ≡ ok c'
      → length news ≡ length olds
      → IsValid c.documents
      → Selected c olds
      → Leaves c c' (λ x. Mem x news ⊎ (Stored c x × ¬ (Mem x olds)))
  unfolding replace_documents
  replace_documents-Leaves c c' [] [] h n v s = stays c c' (ok_injective h) v
  replace_documents-Leaves c c' [] (d ∷ ds) h n v s = absurd (omega arith)
  replace_documents-Leaves c c' (o ∷ os) [] h n v s = absurd (omega arith)
  replace_documents-Leaves c c' (o ∷ os) (d ∷ ds) h n v (m, (new, u)) =
      let (c₁, e, k) = bind-ok (replace_document c o d) _ c' h in
      let l = replace_document-Leaves c c₁ o d e v (m o (inl refl)) in
      let free = replace_document_fresh c c₁ o d e in
      let later : (x : Doc) → Mem x os → x ≢ d = λ x q f. taken_free c x d (m x (inr q)) free f in
      let left : Selected c₁ os =
        (λ x q. (l.stored x).1 (inr (m x (inr q), λ f. new (subst (λ y. Mem y os) f q))), u) in
      let r = replace_documents-Leaves c₁ c' os ds k (omega arith) l.valid left in
      record {
        valid = r.valid;
        indexes = r.indexes ∙ l.indexes;
        stored = λ x. (
          λ q. elim ((r.stored x).0 q) [
            | inl a ↦ inl (inr a)
            | inr (a, b) ↦ elim ((l.stored x).0 a) [
              | inl f ↦ inl (inl f)
              | inr (a', ne) ↦ inr (a', λ o'. elim o' [ inl f ↦ ne f | inr t ↦ b t ])
            ]
          ],
          λ q. (r.stored x).1 (elim q [
            | inl a ↦ elim a [
              | inl f ↦ inr ((l.stored x).1 (inl f), λ t. later x t f)
              | inr t ↦ inl t
            ]
            | inr (a, b) ↦ inr ((l.stored x).1 (inr (a, λ f. b (inl f))), λ t. b (inr t))
          ]),
        );
      }

module _ {B : Btree} (ar : Numerics) (schema : SchemaCheck) (T : Trust B ar) where
  -- The loops over documents.
  pub remove_all-AllHold :
      (is is' : List (Text × Index B)) (P : Doc → Type 0) (list : List Doc)
      → remove_all_from_indexes ar schema is list ≡ ok is'
      → ((x : Doc) → Mem x list → P x)
      → IsDistinct list
      → AllHold ar schema T is P
      → AllHold ar schema T is' (λ x. P x × ¬ (Mem x list))
  unfolding remove_all_from_indexes
  remove_all-AllHold is is' P [] h m u v =
      subst (λ l. AllHold ar schema T l (λ x. P x × ¬ (Mem x []))) (ok_injective h)
        (AllHold-iff ar schema T is P (λ x. P x × ¬ (Mem x []))
          (λ x. (λ p. (p, λ n. elim n [ ]), λ p. p.0)) v)
  remove_all-AllHold is is' P (d ∷ ds) h m (new, u) v =
      let (is₁, e, k) = bind-ok (remove_from_indexes ar schema is d) _ is' h in
      let P₁ : Doc → Type 0 = λ x. P x × (x ≢ d) in
      let v₁ : AllHold ar schema T is₁ P₁ =
        remove-AllHold ar schema T is is₁ P d e (m d (inl refl)) v in
      let r =
        remove_all-AllHold is₁ is' P₁ ds k
          (λ x n. (m x (inr n), λ f. new (subst (λ y. Mem y ds) f n))) u v₁ in
      AllHold-iff ar schema T is' (λ x. P₁ x × ¬ (Mem x ds)) (λ x. P x × ¬ (Mem x (d ∷ ds)))
        (λ x. (
          λ ((p, ne), b). (p, λ o. elim o [ inl f ↦ ne f | inr q ↦ b q ]),
          λ (p, b). ((p, λ f. b (inl f)), λ q. b (inr q)),
        ))
        r

  pub add_all-AllHold :
      (is is' : List (Text × Index B)) (P : Doc → Type 0) (list : List Doc)
      → add_all_to_indexes ar schema is list ≡ ok is'
      → ((x : Doc) → Mem x list → Plain x)
      → AllHold ar schema T is P
      → AllHold ar schema T is' (λ x. Mem x list ⊎ P x)
  unfolding add_all_to_indexes
  add_all-AllHold is is' P [] h pl v =
      subst (λ l. AllHold ar schema T l (λ x. Mem x [] ⊎ P x)) (ok_injective h)
        (AllHold-iff ar schema T is P (λ x. Mem x [] ⊎ P x)
          (λ x. (λ p. inr p, λ q. elim q [ inl n ↦ elim n [ ] | inr p ↦ p ])) v)
  add_all-AllHold is is' P (d ∷ ds) h pl v =
      let (is₁, e, k) = bind-ok (add_to_indexes ar schema is d) _ is' h in
      let P₁ : Doc → Type 0 = λ x. (x ≡ d) ⊎ P x in
      let v₁ : AllHold ar schema T is₁ P₁ =
        add-AllHold ar schema T is is₁ P d e (pl d (inl refl)) v in
      AllHold-iff ar schema T is' (λ x. Mem x ds ⊎ P₁ x) (λ x. Mem x (d ∷ ds) ⊎ P x)
        (λ x. (
          λ q. elim q [
            | inl n ↦ inl (inr n)
            | inr r ↦ elim r [ inl f ↦ inl (inl f) | inr p ↦ inr p ]
          ],
          λ q. elim q [
            | inl n ↦ elim n [ inl f ↦ inr (inl f) | inr o ↦ inl o ]
            | inr p ↦ inr (inr p)
          ],
        ))
        (add_all-AllHold is₁ is' P₁ ds k (λ x n. pl x (inr n)) v₁)

  -- Indexes and set agree again when both came to the same documents.
  pub consistent :
      (c c' : Collection B) (P Q : Doc → Type 0)
      → Leaves c c' P
      → AllHold ar schema T c.indexes Q
      → ((x : Doc) → Q x ↔ P x)
      → IsConsistent ar schema T c'
  consistent c c' P Q l v h = record {
    valid = l.valid;
    held =
        subst (λ is. AllHold ar schema T is (Stored c')) (sym l.indexes)
          (AllHold-iff ar schema T c.indexes Q (Stored c')
            (λ x. (λ q. (l.stored x).1 ((h x).0 q), λ s. (h x).1 ((l.stored x).0 s))) v);
  }

  pub store-IsConsistent :
      (c c' : Collection B) (d : Doc)
      → store ar schema c d ≡ ok c'
      → AllPlain c'
      → IsConsistent ar schema T c
      → IsConsistent ar schema T c'
  unfolding store
  store-IsConsistent c c' d h pl v =
      let (is, e, k) = bind-ok (add_to_indexes ar schema c.indexes d) _ c' h in
      let l = add_document-Leaves (record c { indexes = is }) c' d k v.valid in
      let dd = pl d (Stored-docs c' d l.valid ((l.stored d).1 (inl refl))) in
      consistent (record c { indexes = is }) c' (λ x. (x ≡ d) ⊎ Stored c x)
        (λ x. (x ≡ d) ⊎ Stored c x) l
        (add-AllHold ar schema T c.indexes is (Stored c) d e dd v.held) (λ x. (λ q. q, λ q. q))
