-- ===== src/Mongokit/Collection/Schema.antt =====
-- mongokit/collection.go: CreateIndex and DropIndex keep a collection consistent, and NewCollection
-- makes a consistent one.
use lungo.Base.{
  ◌≡◌, ◌≢◌, ◌↔◌, ◌⊎◌, inl, inr, refl, sym, ap, subst, ◌∙◌, Bool, true, false, ◌&&◌, List, [], ◌∷◌,
  Option, none, some, Mem, Text, text_eq, codes, pos, ltb, ltb_ℤ, Result, ok, bind-ok, then-ok,
  else-ok, ok_injective, if◌then◌else◌, if_both, duplicate_document, empty_index_key,
  expiring_compound_index,
}
use lungo.Bsonkit.Value.{count_fields}
use lungo.Bsonkit.Number.{Numerics}
use lungo.Bsonkit.Sort.{Doc, Column}
use lungo.Bsonkit.Set.{new_set, add_all}
use lungo.Bsonkit.Set.Valid.{IsValid, new_set-IsValid}
use lungo.Bsonkit.Index.{Btree, index_less, new_index}
use lungo.Bsonkit.Index.Laws.{IsIndex-new}
use lungo.Mongokit.Query.{SchemaCheck}
use lungo.Mongokit.Filter.{columns}
use lungo.Mongokit.Index.Plain.{Plain}
use lungo.Mongokit.Index as I
use lungo.Mongokit.Index.{Index, IndexConfig, create_index}
use lungo.Mongokit.Index.Holds.{Trust, trees, Holds, Holds-iff, add-Holds}
use lungo.Mongokit.Collection.{
  Collection, docs, set_index, index_at, delete_index, new_collection, empty_collection, id_config,
}
use lungo.Mongokit.Collection.Operations.{
  drop_named, World, create, create_named, drop_index, effective_name, has_equal, same_key_index,
  only_id,
}
use lungo.Mongokit.Collection.Consistent.{Stored, AllPlain, AllHold, IsConsistent}
use lungo.Mongokit.Collection.Keeps.{docs-Stored, Stored-docs}

false-ne-true : false ≢ true
false-ne-true h = cc

module _ {B : Btree} (ar : Numerics) (schema : SchemaCheck) (T : Trust B ar) where
  abbrev Nothing : Doc → Type 0
  Nothing x = ⊥

  -- The index of NewIndex.
  abbrev fresh_index : IndexConfig → List Column → Index B
  fresh_index config cs = record {
    config = config;
    index_columns = cs;
    base = new_index B ar config.unique cs;
  }

  fresh-Holds :
      (config : IndexConfig) (cs : List Column) → Holds ar schema T (fresh_index config cs) Nothing
  unfolding new_index
  fresh-Holds config cs =
      let L = trees T config.unique cs in
      record {
        index = IsIndex-new B (index_less ar config.unique cs) Plain L;
        within = λ x n. elim n [ ];
        members = λ x. (λ m. elim (subst (λ xs. Mem x xs) L.scan-new m) [ ], λ (n, a). elim n [ ]);
      }

  -- What CreateIndex of mongokit/index.go makes.
  create_index-fresh :
      (config : IndexConfig) (i : Index B)
      → create_index B ar config ≡ ok i
      → (cs : List Column) × (i ≡ fresh_index config cs)
  unfolding create_index
  create_index-fresh config i h =
      let (_, k) = then-ok (ltb 0 (count_fields config.key)) _ empty_index_key i h in
      let (cs, e, k₁) = bind-ok (columns ar config.key) _ i k in
      let (_, k₂) =
        else-ok (ltb_ℤ (pos 0) config.expiry && ltb 1 (count_fields config.key)) _
          expiring_compound_index i k₁ in
      (cs, sym (ok_injective k₂))

  built :
      (done : Bool) (rest : Result (Bool × Index B)) (i i' : Index B)
      → ◌≡◌ {A = Result (Bool × Index B)} (if done then rest else ok (false, i)) (ok (true, i'))
      → (done ≡ true) × (rest ≡ ok (true, i'))
  built true rest i i' h = (refl, h)
  built false rest i i' h =
      absurd (false-ne-true (ap (λ (r : Bool × Index B). r.0) (ok_injective h)))

  build-Holds :
      (i i' : Index B) (ds : List Doc) (P : Doc → Type 0)
      → I.build ar schema i ds ≡ ok (true, i')
      → ((x : Doc) → Mem x ds → Plain x)
      → Holds ar schema T i P
      → Holds ar schema T i' (λ x. Mem x ds ⊎ P x)
  unfolding I.build
  build-Holds i i' [] P h pl v =
      subst (λ (j : Index B). Holds ar schema T j (λ x. Mem x [] ⊎ P x))
        (ap (λ (r : Bool × Index B). r.1) (ok_injective h))
        (Holds-iff ar schema T i P (λ x. Mem x [] ⊎ P x)
          (λ x. (λ p. inr p, λ q. elim q [ inl n ↦ elim n [ ] | inr p ↦ p ])) v)
  build-Holds i i' (d ∷ ds) P h pl v =
      let ((done, i₁), e, k) = bind-ok (I.add ar schema i d) _ (true, i') h in
      let (t, k') = built done (I.build ar schema i₁ ds) i₁ i' k in
      let added : I.add ar schema i d ≡ ok (true, i₁) = e ∙ ap (λ b. ok (b, i₁)) t in
      let P₁ : Doc → Type 0 = λ x. (x ≡ d) ⊎ P x in
      Holds-iff ar schema T i' (λ x. Mem x ds ⊎ P₁ x) (λ x. Mem x (d ∷ ds) ⊎ P x)
        (λ x. (
          λ q. elim q [
            | inl n ↦ inl (inr n)
            | inr r ↦ elim r [ inl f ↦ inl (inl f) | inr p ↦ inr p ]
          ],
          λ q. elim q [
            | inl n ↦ elim n [ inl f ↦ inr (inl f) | inr o ↦ inl o ]
            | inr p ↦ inr (inr p)
          ],
        ))
        (build-Holds i₁ i' ds P₁ k' (λ x n. pl x (inr n))
          (add-Holds ar schema T i i₁ P d added (pl d (inl refl)) v))

  -- The map of the indexes.
  set_index-AllHold :
      (is : List (Text × Index B)) (name : Text) (i : Index B) (P : Doc → Type 0)
      → AllHold ar schema T is P
      → Holds ar schema T i P
      → AllHold ar schema T (set_index is name i) P
  unfolding set_index
  set_index-AllHold [] name i P vs v = (v, tt)
  set_index-AllHold ((n, j) ∷ is) name i P (v', vs) v =
      if_both (λ l. AllHold ar schema T l P) (text_eq n name) (v, vs)
        (v', set_index-AllHold is name i P vs v)

  delete_index-AllHold :
      (is : List (Text × Index B)) (name : Text) (P : Doc → Type 0)
      → AllHold ar schema T is P
      → AllHold ar schema T (delete_index is name) P
  unfolding delete_index
  delete_index-AllHold [] name P vs = tt
  delete_index-AllHold ((n, j) ∷ is) name P (v, vs) =
      if_both (λ l. AllHold ar schema T l P) (text_eq n name) (delete_index-AllHold is name P vs)
        (v, delete_index-AllHold is name P vs)

  only_id-AllHold :
      (is : List (Text × Index B)) (P : Doc → Type 0)
      → AllHold ar schema T is P
      → AllHold ar schema T (only_id is) P
  unfolding only_id
  only_id-AllHold [] P vs = tt
  only_id-AllHold ((n, j) ∷ is) P (v, vs) =
      if_both (λ l. AllHold ar schema T l P) (text_eq n (codes "_id_")) (v, only_id-AllHold is P vs)
        (only_id-AllHold is P vs)

  -- An index that was built from the list of the set holds what is stored.
  built-Holds :
      (c : Collection B) (config : IndexConfig) (i i' : Index B)
      → create_index B ar config ≡ ok i
      → I.build ar schema i (docs c) ≡ ok (true, i')
      → AllPlain c
      → IsValid c.documents
      → Holds ar schema T i' (Stored c)
  built-Holds c config i i' h k pl v =
      let (cs, e) = create_index-fresh config i h in
      let start =
        subst (λ (j : Index B). Holds ar schema T j Nothing) (sym e) (fresh-Holds config cs) in
      Holds-iff ar schema T i' (λ x. Mem x (docs c) ⊎ Nothing x) (Stored c)
        (λ x. (
          λ q. elim q [ inl m ↦ docs-Stored c x v m | inr n ↦ elim n [ ] ],
          λ s. inl (Stored-docs c x v s),
        ))
        (build-Holds i i' (docs c) Nothing k pl start)

  Nothing-Stored : (x : Doc) → Nothing x ↔ Stored (empty_collection B) x
  unfolding new_set add_all
  Nothing-Stored x = (λ n. elim n [ ], λ (m, k). absurd (false-ne-true m))

  pub new_collection-IsConsistent :
      (c : Collection B) (id_index : Bool)
      → new_collection B ar id_index ≡ ok c
      → IsConsistent ar schema T c
  unfolding new_collection set_index
  new_collection-IsConsistent c false h =
      subst (λ (k : Collection B). IsConsistent ar schema T k) (ok_injective h)
        (record { valid = new_set-IsValid []; held = tt })
  new_collection-IsConsistent c true h =
      let (i, e, k) =
        bind-ok (create_index B ar id_config)
          (λ (j : Index B).
            ok (record (empty_collection B) { indexes = set_index [] (codes "_id_") j }))
          c h in
      let (cs, f) = create_index-fresh id_config i e in
      let one : Holds ar schema T i (Stored (empty_collection B)) =
        subst (λ (j : Index B). Holds ar schema T j (Stored (empty_collection B))) (sym f)
          (Holds-iff ar schema T (fresh_index id_config cs) Nothing (Stored (empty_collection B))
            Nothing-Stored (fresh-Holds id_config cs)) in
      let c₀ : Collection B = record (empty_collection B) {
        indexes = set_index [] (codes "_id_") i;
      } in
      let v : IsConsistent ar schema T c₀ = record {
        valid = new_set-IsValid [];
        held = (one, tt);
      } in
      subst (λ (k : Collection B). IsConsistent ar schema T k) (ok_injective k) v

-- A new collection has no documents.
empty-AllPlain :
    {B : Btree} (is : List (Text × Index B))
    → AllPlain (record (empty_collection B) { indexes = is })
unfolding new_set add_all
empty-AllPlain is x m = elim m [ ]

pub new_collection-AllPlain :
    {B : Btree} (ar : Numerics) (c : Collection B) (id_index : Bool)
    → new_collection B ar id_index ≡ ok c
    → AllPlain c
unfolding new_collection
new_collection-AllPlain {B} ar c false h =
    subst (λ (k : Collection B). AllPlain k) (ok_injective h) (empty-AllPlain {B = B} [])
new_collection-AllPlain {B} ar c true h =
    let (i, e, k) =
      bind-ok (create_index B ar id_config)
        (λ (j : Index B).
          ok (record (empty_collection B) { indexes = set_index [] (codes "_id_") j }))
        c h in
    subst (λ (k : Collection B). AllPlain k) (ok_injective k)
      (empty-AllPlain {B = B} (set_index [] (codes "_id_") i))

module _ {B : Btree} (w : World) (T : Trust B w.numerics) where
  abbrev named : Text → Collection B → Result (Text × Collection B)
  named name c = ok (name, c)

  create_named-IsConsistent :
      (c c' : Collection B) (config : IndexConfig) (name name' : Text) (other : Option Text)
      → create_named w c config name other ≡ ok (name', c')
      → AllPlain c
      → IsConsistent w.numerics w.schema T c
      → IsConsistent w.numerics w.schema T c'
  unfolding create_named
  create_named-IsConsistent c c' config name name' (some n) h plain v = cc
  create_named-IsConsistent c c' config name name' none h plain v =
      let (i, e, k) = bind-ok (create_index B w.numerics config) _ (name', c') h in
      let ((done, i'), e₁, k₁) = bind-ok (I.build w.numerics w.schema i (docs c)) _ (name', c') k in
      let (t, k₂) = then-ok done _ (duplicate_document name) (name', c') k₁ in
      let full : I.build w.numerics w.schema i (docs c) ≡ ok (true, i') =
        e₁ ∙ ap (λ b. ok (b, i')) t in
      subst (λ (k : Collection B). IsConsistent w.numerics w.schema T k)
        (ap (λ (r : Text × Collection B). r.1) (ok_injective k₂))
        (record {
          valid = v.valid;
          held =
              set_index-AllHold w.numerics w.schema T c.indexes name i' (Stored c) v.held
                (built-Holds w.numerics w.schema T c config i i' e full plain v.valid);
        })

  created :
      (old : Bool) (c c' : Collection B) (n name : Text) (config : IndexConfig)
      → (if old
          then named n c
          else create_named w c config n (same_key_index w c.indexes config.key))
        ≡ ok (name, c')
      → AllPlain c
      → IsConsistent w.numerics w.schema T c
      → IsConsistent w.numerics w.schema T c'
  created true c c' n name config h plain v =
      subst (λ (k : Collection B). IsConsistent w.numerics w.schema T k)
        (ap (λ (r : Text × Collection B). r.1) (ok_injective h)) v
  created false c c' n name config h plain v =
      create_named-IsConsistent c c' config n name (same_key_index w c.indexes config.key) h plain v

  pub create-IsConsistent :
      (c c' : Collection B) (given name : Text) (config : IndexConfig)
      → create w c given config ≡ ok (name, c')
      → AllPlain c
      → IsConsistent w.numerics w.schema T c
      → IsConsistent w.numerics w.schema T c'
  unfolding create
  create-IsConsistent c c' given name config h plain v =
      let (n, e, k) = bind-ok (effective_name w given config) _ (name, c') h in
      created (has_equal w c n config) c c' n name config k plain v

module _ {B : Btree} (ar : Numerics) (schema : SchemaCheck) (T : Trust B ar) where
  drop_named-IsConsistent :
      (c c' : Collection B) (name : Text) (i : Option (Index B)) (dropped : List Text)
      → drop_named c name i ≡ ok (dropped, c')
      → IsConsistent ar schema T c
      → IsConsistent ar schema T c'
  unfolding drop_named
  drop_named-IsConsistent c c' name none dropped h v = cc
  drop_named-IsConsistent c c' name (some i) dropped h v =
      subst (λ (k : Collection B). IsConsistent ar schema T k)
        (ap (λ (r : List Text × Collection B). r.1) (ok_injective h))
        (record {
          valid = v.valid;
          held = delete_index-AllHold ar schema T c.indexes name (Stored c) v.held;
        })

  pub drop_index-IsConsistent :
      (c c' : Collection B) (name : Text) (dropped : List Text)
      → drop_index c name ≡ ok (dropped, c')
      → IsConsistent ar schema T c
      → IsConsistent ar schema T c'
  unfolding drop_index
  drop_index-IsConsistent c c' [] dropped h v =
      subst (λ (k : Collection B). IsConsistent ar schema T k)
        (ap (λ (r : List Text × Collection B). r.1) (ok_injective h))
        (record { valid = v.valid; held = only_id-AllHold ar schema T c.indexes (Stored c) v.held })
  drop_index-IsConsistent c c' (ch ∷ name) dropped h v =
      drop_named-IsConsistent c c' (ch ∷ name) (index_at c.indexes (ch ∷ name)) dropped h v
