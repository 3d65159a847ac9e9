-- ===== src/Mongokit/Collection/Writes.antt =====
-- mongokit/collection.go: each write of a collection that succeeds keeps it consistent, if its
-- documents are then such that the indexes order them.
use lungo.Base.{
  ℕ, suc, ◌≡◌, ◌≢◌, ◌⊎◌, inl, refl, sym, ap, subst, ◌∙◌, false, List, [], ◌∷◌, Option, none, some,
  Mem, ℤ, pos, Result, Failure, ok, fail, bind-ok, ok_injective, length,
}
use lungo.Bsonkit.Value.{Fields}
use lungo.Bsonkit.Sort.{Doc}
use lungo.Bsonkit.Index.{Btree}
use lungo.Mongokit.Filter.{filter}
use lungo.Mongokit.Find.{sorted}
use lungo.Mongokit.Find.Members.{
  IsSort, IsPart, IsPart-trans, filter-IsPart, sorted-IsPart, find-IsPart,
}
use lungo.Mongokit.Apply.{Changes, apply, update_list}
use lungo.Mongokit.Index.Holds.{Trust}
use lungo.Mongokit.Collection.{
  Collection, Outcome, no_outcome, docs, store, ensure_id, adopt_id, check_ids, place,
  replace_in_indexes, replace_document, replace_documents, remove_documents, add_all_to_indexes,
  remove_all_from_indexes,
}
use lungo.Mongokit.Collection.Operations.{
  World, contents, select_documents, insert, first_match, replace_found, replace, update_found,
  update, upsert_document, upsert, delete,
}
use lungo.Mongokit.Collection.Consistent.{Stored, AllPlain, replace-AllHold, IsConsistent}
use lungo.Mongokit.Collection.Documents.{replace_document-Leaves}
use lungo.Mongokit.Collection.Keeps.{
  Stored-docs, Selected, part-Selected, store-IsConsistent, consistent, remove_documents-Leaves,
  replace_documents-Leaves, remove_all-AllHold, add_all-AllHold,
}

-- The documents of an update keep their number.
length-update_list :
    (w : World) (ds : List Fields) (change : Fields) (filters : List Fields)
    (changed : List (Fields × Changes))
    → update_list w.numerics w.arithmetic w.clock w.schema ds change false filters ≡ ok changed
    → length changed ≡ length ds
unfolding update_list
length-update_list w [] change filters changed h =
    ap (λ (l : List (Fields × Changes)). length l) (sym (ok_injective h))
length-update_list w (d ∷ ds) change filters changed h =
    let (r, e, k) =
      bind-ok (apply w.numerics w.arithmetic w.clock w.schema d change false filters) _ changed h in
    let (rs, e', k') =
      bind-ok (update_list w.numerics w.arithmetic w.clock w.schema ds change false filters)
        (λ rs. ok (r ∷ rs)) changed k in
    ap (λ (l : List (Fields × Changes)). length l) (sym (ok_injective k'))
    ∙ ap suc (length-update_list w ds change filters rs e')

length-place :
    (fresh : ℕ → ℕ) (i : ℕ) (ds : List (Fields × Changes)) → length (place fresh i ds) ≡ length ds
unfolding place
length-place fresh i [] = refl
length-place fresh i ((d, c) ∷ ds) = ap suc (length-place fresh (suc i) ds)

length-contents : (ds : List Doc) → length (contents ds) ≡ length ds
length-contents [] = refl
length-contents (d ∷ ds) = ap suc (length-contents ds)

unfailed : List Doc × Option Failure → Result (List Doc)
unfailed found = elim found.1 [ some e ↦ fail e | none ↦ ok found.0 ]

unfailed-IsPart :
    (found : List Doc × Option Failure) (all list : List Doc)
    → IsPart found.0 all
    → unfailed found ≡ ok list
    → IsPart list all
unfolding unfailed
unfailed-IsPart (xs, none) all list p h = subst (λ l. IsPart l all) (ok_injective h) p
unfailed-IsPart (xs, some e) all list p h = cc

module _ {B : Btree} (w : World) (T : Trust B w.numerics) (S : IsSort w.sort_slice) where
  abbrev pub Consistent : Collection B → Type 0
  Consistent c = IsConsistent w.numerics w.schema T c

  -- The last step of an operation: the outcome and the collection.
  outcome_of :
      (o o' : Outcome) (c c' : Collection B)
      → ◌≡◌ {A = Result (Outcome × Collection B)} (ok (o, c)) (ok (o', c'))
      → Consistent c
      → Consistent c'
  outcome_of o o' c c' h v =
      subst Consistent (ap (λ (r : Outcome × Collection B). r.1) (ok_injective h)) v

  plain_of :
      (o o' : Outcome) (c c' : Collection B)
      → ◌≡◌ {A = Result (Outcome × Collection B)} (ok (o, c)) (ok (o', c'))
      → AllPlain c'
      → AllPlain c
  plain_of o o' c c' h pl =
      subst (λ (k : Collection B). AllPlain k)
        (sym (ap (λ (r : Outcome × Collection B). r.1) (ok_injective h))) pl

  pub insert-Consistent :
      (c c' : Collection B) (d : Doc) (o : Outcome)
      → insert w c d ≡ ok (o, c')
      → AllPlain c'
      → Consistent c
      → Consistent c'
  unfolding insert
  insert-Consistent c c' d o h pl v =
      let (content, e, k) = bind-ok (ensure_id w.object_id d.content) _ (o, c') h in
      let d' : Doc = record { address = d.address; content = content } in
      let (c₁, e', k') = bind-ok (store w.numerics w.schema c d') _ (o, c') k in
      outcome_of _ o c₁ c' k'
        (store-IsConsistent w.numerics w.schema T c c₁ d' e' (plain_of _ o c₁ c' k' pl) v)

  first_match-IsPart :
      (c : Collection B) (query order_by : Fields) (list : List Doc)
      → first_match w c query order_by ≡ ok list
      → IsPart list (docs c)
  unfolding first_match unfailed
  first_match-IsPart c query order_by list h =
      let (all, e, k) =
        bind-ok (sorted w.numerics w.schema w.sort_slice (docs c) order_by) _ list h in
      IsPart-trans list all (docs c)
        (unfailed-IsPart (filter w.numerics w.schema all query (pos 1)) all list
          (filter-IsPart w.numerics w.schema query all (pos 1)) k)
        (sorted-IsPart w.numerics w.schema w.sort_slice S (docs c) all order_by e)

  replace_found-Consistent :
      (c c' : Collection B) (repl : Doc) (list : List Doc) (o : Outcome)
      → replace_found w c repl list ≡ ok (o, c')
      → AllPlain c'
      → Selected c list
      → Consistent c
      → Consistent c'
  unfolding replace_found
  replace_found-Consistent c c' repl [] o h pl m v = outcome_of no_outcome o c c' h v
  replace_found-Consistent c c' repl (old ∷ rest) o h pl (m, _) v =
      let (content, e, k) = bind-ok (adopt_id repl.content old.content) _ (o, c') h in
      let repl' : Doc = record { address = repl.address; content = content } in
      let (is, e', k') =
        bind-ok (replace_in_indexes w.numerics w.schema c.indexes old repl') _ (o, c') k in
      let c₀ : Collection B = record c { indexes = is } in
      let (c₁, e'', k'') = bind-ok (replace_document c₀ old repl') _ (o, c') k' in
      let P : Doc → Type 0 = λ x. (x ≡ repl') ⊎ (Stored c x × (x ≢ old)) in
      let l = replace_document-Leaves c₀ c₁ old repl' e'' v.valid (m old (inl refl)) in
      let dd =
        plain_of _ o c₁ c' k'' pl repl'
          (Stored-docs c₁ repl' l.valid ((l.stored repl').1 (inl refl))) in
      outcome_of _ o c₁ c' k'' (
        consistent w.numerics w.schema T c₀ c₁ P P l
          (replace-AllHold w.numerics w.schema T c.indexes is (Stored c) old repl' e'
            (m old (inl refl)) dd v.held)
          (λ x. (λ q. q, λ q. q)))

  pub replace-Consistent :
      (c c' : Collection B) (query : Fields) (repl : Doc) (order_by : Fields) (o : Outcome)
      → replace w c query repl order_by ≡ ok (o, c')
      → AllPlain c'
      → Consistent c
      → Consistent c'
  unfolding replace
  replace-Consistent c c' query repl order_by o h pl v =
      let (list, e, k) = bind-ok (first_match w c query order_by) _ (o, c') h in
      replace_found-Consistent c c' repl list o k pl
        (part-Selected c list v.valid (first_match-IsPart c query order_by list e)) v

  select-Selected :
      (c : Collection B) (query order_by : Fields) (skip : ℕ) (limit : ℤ) (list : List Doc)
      → select_documents w c query order_by skip limit ≡ ok list
      → Consistent c
      → Selected c list
  unfolding select_documents
  select-Selected c query order_by skip limit list h v =
      part-Selected c list v.valid
        (find-IsPart w.numerics w.schema w.sort_slice S (docs c) list query order_by skip limit h)

  update_found-Consistent :
      (c c' : Collection B) (change : Fields) (filters : List Fields) (list : List Doc)
      (o : Outcome)
      → update_found w c change filters list ≡ ok (o, c')
      → AllPlain c'
      → Selected c list
      → Consistent c
      → Consistent c'
  unfolding update_found
  update_found-Consistent c c' change filters [] o h pl m v = outcome_of no_outcome o c c' h v
  update_found-Consistent c c' change filters (d ∷ ds) o h pl (m, u) v =
      let all : List Doc = d ∷ ds in
      let (changed, e, k) =
        bind-ok
          (update_list w.numerics w.arithmetic w.clock w.schema (contents all) change false filters)
          _ (o, c') h in
      let (_, _, k₁) = bind-ok (check_ids changed all) _ (o, c') k in
      let new : List Doc = place w.fresh 0 changed in
      let (is, e₂, k₂) =
        bind-ok (remove_all_from_indexes w.numerics w.schema c.indexes all) _ (o, c') k₁ in
      let (is', e₃, k₃) = bind-ok (add_all_to_indexes w.numerics w.schema is new) _ (o, c') k₂ in
      let c₀ : Collection B = record c { indexes = is' } in
      let (c₁, e₄, k₄) = bind-ok (replace_documents c₀ all new) _ (o, c') k₃ in
      let P : Doc → Type 0 = λ x. Stored c x × ¬ (Mem x all) in
      let Q : Doc → Type 0 = λ x. Mem x new ⊎ P x in
      let same : length new ≡ length all =
        length-place w.fresh 0 changed
        ∙ length-update_list w (contents all) change filters changed e
        ∙ length-contents all in
      let l = replace_documents-Leaves c₀ c₁ all new e₄ same v.valid (m, u) in
      let plain = plain_of _ o c₁ c' k₄ pl in
      outcome_of _ o c₁ c' k₄ (
        consistent w.numerics w.schema T c₀ c₁ Q Q l
          (add_all-AllHold w.numerics w.schema T is is' P new e₃
            (λ x n. plain x (Stored-docs c₁ x l.valid ((l.stored x).1 (inl n))))
            (remove_all-AllHold w.numerics w.schema T c.indexes is (Stored c) all e₂ m u v.held))
          (λ x. (λ q. q, λ q. q)))

  pub update-Consistent :
      (c c' : Collection B) (query change order_by : Fields) (skip : ℕ) (limit : ℤ)
      (filters : List Fields) (o : Outcome)
      → update w c query change order_by skip limit filters ≡ ok (o, c')
      → AllPlain c'
      → Consistent c
      → Consistent c'
  unfolding update
  update-Consistent c c' query change order_by skip limit filters o h pl v =
      let (list, e, k) = bind-ok (select_documents w c query order_by skip limit) _ (o, c') h in
      update_found-Consistent c c' change filters list o k pl
        (select-Selected c query order_by skip limit list e v) v

  pub upsert-Consistent :
      (c c' : Collection B) (query : Fields) (repl change : Option Fields) (filters : List Fields)
      (o : Outcome)
      → upsert w c query repl change filters ≡ ok (o, c')
      → AllPlain c'
      → Consistent c
      → Consistent c'
  unfolding upsert
  upsert-Consistent c c' query repl change filters o h pl v =
      let (d, e, k) = bind-ok (upsert_document w query repl change filters) _ (o, c') h in
      let (content, e₁, k₁) = bind-ok (ensure_id w.object_id d) _ (o, c') k in
      let d' : Doc = record { address = w.fresh 0; content = content } in
      let (c₁, e₂, k₂) = bind-ok (store w.numerics w.schema c d') _ (o, c') k₁ in
      outcome_of _ o c₁ c' k₂
        (store-IsConsistent w.numerics w.schema T c c₁ d' e₂ (plain_of _ o c₁ c' k₂ pl) v)

  pub delete-Consistent :
      (c c' : Collection B) (query order_by : Fields) (skip : ℕ) (limit : ℤ) (o : Outcome)
      → delete w c query order_by skip limit ≡ ok (o, c')
      → Consistent c
      → Consistent c'
  unfolding delete
  delete-Consistent c c' query order_by skip limit o h v =
      let (list, e, k) = bind-ok (select_documents w c query order_by skip limit) _ (o, c') h in
      let (m, u) = select-Selected c query order_by skip limit list e v in
      let (is, e₁, k₁) =
        bind-ok (remove_all_from_indexes w.numerics w.schema c.indexes list) _ (o, c') k in
      let c₀ : Collection B = record c { indexes = is } in
      let (c₁, e₂, k₂) = bind-ok (remove_documents c₀ list) _ (o, c') k₁ in
      let P : Doc → Type 0 = λ x. Stored c x × ¬ (Mem x list) in
      outcome_of _ o c₁ c' k₂ (
        consistent w.numerics w.schema T c₀ c₁ P P
          (remove_documents-Leaves c₀ c₁ list e₂ v.valid (m, u))
          (remove_all-AllHold w.numerics w.schema T c.indexes is (Stored c) list e₁ m u v.held)
          (λ x. (λ q. q, λ q. q)))
