-- ===== src/Mongokit/Collection/Consistent.antt =====
-- mongokit/collection.go: the indexes of a collection hold exactly the documents of its set that
-- their filters accept, and no two under one key. Every loop of the operations keeps that.
use lungo.Base.{
  ◌≡◌, ◌≢◌, ◌↔◌, ◌⊎◌, refl, sym, ap, subst, ◌∙◌, Bool, Mem, true, false, List, [], ◌∷◌, Text,
  Result, Failure, ok, fail, ◌>>=◌, bind-ok, ok_injective, if◌then◌else◌, duplicate_document,
  missing_in_index,
}
use lungo.Bsonkit.Number.{Numerics}
use lungo.Bsonkit.Sort.{Doc}
use lungo.Bsonkit.Set.Valid.{IsValid}
use lungo.Bsonkit.Set.Members.{in_set}
use lungo.Bsonkit.Index.{Btree}
use lungo.Mongokit.Query.{SchemaCheck}
use lungo.Mongokit.Index.Plain.{Plain}
use lungo.Mongokit.Index as I
use lungo.Mongokit.Index.{Index}
use lungo.Mongokit.Index.Holds.{Trust, Holds, Holds-iff, add-Holds, remove-Holds}
use lungo.Mongokit.Collection.{
  Collection, docs, add_to_indexes, remove_from_indexes, replace_in_indexes,
}

module _ {B : Btree} where
  -- A document of the set, with the contents that stand at its address.
  abbrev pub Stored : Collection B → Doc → Type 0
  Stored c x = (in_set c.documents x.address ≡ true) × (x.content ≡ c.content x.address)

  -- Two stored documents at one address are one.
  pub Stored_inj :
      (c : Collection B) (x y : Doc) → Stored c x → Stored c y → x.address ≡ y.address → x ≡ y
  Stored_inj c x y (_, p) (_, q) e =
      let k : x.content ≡ y.content = p ∙ ap c.content e ∙ sym q in
      λ i. record { address = e i; content = k i }

  -- Every document of the set is one that the indexes order.
  abbrev pub AllPlain : Collection B → Type 0
  AllPlain c = (x : Doc) → Mem x (docs c) → Plain x

module _ {B : Btree} (ar : Numerics) (schema : SchemaCheck) (T : Trust B ar) where
  abbrev pub AllHold : List (Text × Index B) → (Doc → Type 0) → Type 0
  AllHold [] P = Unit
  AllHold ((n, i) ∷ is) P = Holds ar schema T i P × AllHold is P

  pub AllHold-iff :
      (is : List (Text × Index B)) (P Q : Doc → Type 0)
      → ((x : Doc) → P x ↔ Q x)
      → AllHold is P
      → AllHold is Q
  AllHold-iff [] P Q h v = tt
  AllHold-iff ((n, i) ∷ is) P Q h (v, vs) =
      (Holds-iff ar schema T i P Q h v, AllHold-iff is P Q h vs)

  -- What a round of a loop that ends well says.
  joined :
      (done : Bool) (rest : Result (List (Text × Index B))) (entry : Text × Index B) (f : Failure)
      (out : List (Text × Index B))
      → (if done then (rest >>= λ l. ok (entry ∷ l)) else fail f) ≡ ok out
      → (done ≡ true) × ((l : List (Text × Index B)) × (rest ≡ ok l) × (out ≡ entry ∷ l))
  joined true rest entry f out h =
      let (l, e, k) = bind-ok rest (λ l. ok (entry ∷ l)) out h in
      (refl, (l, e, sym (ok_injective k)))
  joined false rest entry f out h = cc

  -- The loops over indexes: the documents that they add and remove.
  pub add-AllHold :
      (is is' : List (Text × Index B)) (P : Doc → Type 0) (d : Doc)
      → add_to_indexes ar schema is d ≡ ok is'
      → Plain d
      → AllHold is P
      → AllHold is' (λ x. (x ≡ d) ⊎ P x)
  unfolding add_to_indexes
  add-AllHold [] is' P d h dd v = subst (λ l. AllHold l (λ x. (x ≡ d) ⊎ P x)) (ok_injective h) tt
  add-AllHold ((n, i) ∷ is) is' P d h dd (v, vs) =
      let ((done, i'), e, k) = bind-ok (I.add ar schema i d) _ is' h in
      let (t, (l, r, o)) =
        joined done (add_to_indexes ar schema is d) (n, i') (duplicate_document n) is' k in
      let added : I.add ar schema i d ≡ ok (true, i') = e ∙ ap (λ b. ok (b, i')) t in
      subst (λ m. AllHold m (λ x. (x ≡ d) ⊎ P x)) (sym o)
        (add-Holds ar schema T i i' P d added dd v, add-AllHold is l P d r dd vs)

  pub remove-AllHold :
      (is is' : List (Text × Index B)) (P : Doc → Type 0) (d : Doc)
      → remove_from_indexes ar schema is d ≡ ok is'
      → P d
      → AllHold is P
      → AllHold is' (λ x. P x × (x ≢ d))
  unfolding remove_from_indexes
  remove-AllHold [] is' P d h pd v = subst (λ l. AllHold l (λ x. P x × (x ≢ d))) (ok_injective h) tt
  remove-AllHold ((n, i) ∷ is) is' P d h pd (v, vs) =
      let ((done, i'), e, k) = bind-ok (I.remove ar schema i d) _ is' h in
      let (t, (l, r, o)) =
        joined done (remove_from_indexes ar schema is d) (n, i') (missing_in_index n) is' k in
      let removed : I.remove ar schema i d ≡ ok (true, i') = e ∙ ap (λ b. ok (b, i')) t in
      subst (λ m. AllHold m (λ x. P x × (x ≢ d))) (sym o)
        (remove-Holds ar schema T i i' P d removed pd v, remove-AllHold is l P d r pd vs)

  if_true :
      (b : Bool) (r : Result (List (Text × Index B))) (f : Failure) (out : List (Text × Index B))
      → (if b then r else fail f) ≡ ok out
      → (b ≡ true) × (r ≡ ok out)
  if_true true r f out h = (refl, h)
  if_true false r f out h = cc

  pub replace-AllHold :
      (is is' : List (Text × Index B)) (P : Doc → Type 0) (old d : Doc)
      → replace_in_indexes ar schema is old d ≡ ok is'
      → P old
      → Plain d
      → AllHold is P
      → AllHold is' (λ x. (x ≡ d) ⊎ (P x × (x ≢ old)))
  unfolding replace_in_indexes
  replace-AllHold [] is' P old d h pd dd v =
      subst (λ l. AllHold l (λ x. (x ≡ d) ⊎ (P x × (x ≢ old)))) (ok_injective h) tt
  replace-AllHold ((n, i) ∷ is) is' P old d h pd dd (v, vs) =
      let ((gone, i'), e, k) = bind-ok (I.remove ar schema i old) _ is' h in
      let (g, k') = if_true gone _ (missing_in_index n) is' k in
      let ((done, i''), e', k'') = bind-ok (I.add ar schema i' d) _ is' k' in
      let (t, (l, r, o)) =
        joined done (replace_in_indexes ar schema is old d) (n, i'') (duplicate_document n) is'
          k'' in
      let removed : I.remove ar schema i old ≡ ok (true, i') = e ∙ ap (λ b. ok (b, i')) g in
      let added : I.add ar schema i' d ≡ ok (true, i'') = e' ∙ ap (λ b. ok (b, i'')) t in
      subst (λ m. AllHold m (λ x. (x ≡ d) ⊎ (P x × (x ≢ old)))) (sym o)
        (
          add-Holds ar schema T i' i'' (λ x. P x × (x ≢ old)) d added dd
              (remove-Holds ar schema T i i' P old removed pd v),
          replace-AllHold is l P old d r pd dd vs,
        )

  -- A set that is valid, and indexes that hold what is stored.
  pub record IsConsistent (c : Collection B) : Type 0 where
    pub valid : IsValid c.documents
    pub held : AllHold c.indexes (Stored c)
