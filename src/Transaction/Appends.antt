-- ===== src/Transaction/Appends.antt =====
-- transaction.go: an insert appends a document to the list of a collection and leaves the contents
-- of the others, and so does every event that a write adds to the oplog.
use lungo.Base.{
  ℕ, ◌≡◌, refl, sym, ap, ap₂, subst, ◌∙◌, true, false, List, [], ◌∷◌, ◌++◌, append_assoc, map, none,
  ◌==◌, ==_iff, if◌then◌else◌, ok, bind-ok, ok_injective, then-ok, cannot_add_document, arith,
}
use lungo.Bsonkit.Value.{Fields}
use lungo.Bsonkit.Sort.{Doc}
use lungo.Bsonkit.Set as S
use lungo.Bsonkit.Set.{DocSet}
use lungo.Bsonkit.Set.Keys.{position}
use lungo.Bsonkit.Set.Valid.{IsValid, add-IsValid}
use lungo.Bsonkit.Index.{Btree}
use lungo.Mongokit.Collection.{
  Collection, Outcome, docs, store, ensure_id, add_to_indexes, add_document,
}
use lungo.Mongokit.Collection.Operations as Op
use lungo.Mongokit.Collection.Operations.{World}
use lungo.Transaction.Keeps.{Keeps}

-- The content of an address whose document is replaced by another.
abbrev written : (ℕ → Fields) → Doc → ℕ → Fields
written content d a = if a == d.address then d.content else content a

abbrev listed : (ℕ → Fields) → List ℕ → List Doc
listed content as' = map (λ a. record { address = a; content = content a }) as'

other_address :
    (d a : ℕ) (as' : List ℕ)
    → position d (a ∷ as') ≡ none
    → ((a == d) ≡ false) × (position d as' ≡ none)
unfolding position
other_address d a as' h = (ground (arith, ==_iff a d, ==_iff d a), ground arith)

written-other :
    (content : ℕ → Fields) (d : Doc) (a : ℕ)
    → (a == d.address) ≡ false
    → written content d a ≡ content a
written-other content d a h = rw h refl

==_self : (a : ℕ) → (a == a) ≡ true
==_self a = (==_iff a a).1 refl

-- A new address leaves the documents of the list.
listed-written :
    (content : ℕ → Fields) (d : Doc) (as' : List ℕ)
    → position d.address as' ≡ none
    → listed (written content d) (as' ++ d.address ∷ []) ≡ listed content as' ++ d ∷ []
listed-written content d [] h = rw (==_self d.address) refl
listed-written content d (a ∷ as') h =
    let (ne, new) = other_address d.address a as' h in
    ap₂ (λ (x : Fields) (xs : List Doc). record { address = a; content = x } ∷ xs)
      (written-other content d a ne) (listed-written content d as' new)

added-list :
    (s : DocSet) (d : ℕ)
    → (S.add s d).1 ≡ true
    → ((S.add s d).0.list ≡ s.list ++ d ∷ []) × (s.index d ≡ none)
unfolding S.add
added-list s d h = (ground arith, ground arith)

module _ {B : Btree} where
  -- The documents of a collection, with more documents behind them.
  abbrev pub Extends : Collection B → Collection B → Type 0
  Extends old new = (more : List Doc) × (docs new ≡ docs old ++ more)

  -- A collection with a valid set that extends a given one.
  abbrev pub Grown : Collection B → Collection B → Type 0
  Grown old new = IsValid new.documents × Extends old new

  add_document-Grown :
      (old c c' : Collection B) (d : Doc) → add_document c d ≡ ok c' → Grown old c → Grown old c'
  unfolding add_document
  add_document-Grown old c c' d h (v, (more, e)) =
      let (t, k) = then-ok (S.add c.documents d.address).1 _ cannot_add_document c' h in
      let (l, new) = added-list c.documents d.address t in
      subst (λ (x : Collection B). Grown old x) (ok_injective k)
        (
          add-IsValid c.documents d.address v,
          (
            more ++ d ∷ [],
            ap (λ (as' : List ℕ). listed (written c.content d) as') l
                ∙ listed-written c.content d c.documents.list (sym (v.agrees d.address) ∙ new)
                ∙ ap (λ (xs : List Doc). xs ++ d ∷ []) e
                ∙ append_assoc (docs old) more (d ∷ []),
          ),
        )

  insert-Grown :
      (w : World) (old c c' : Collection B) (d : Doc) (o : Outcome)
      → Op.insert w c d ≡ ok (o, c')
      → Grown old c
      → Grown old c'
  unfolding Op.insert store
  insert-Grown w old c c' d o h g =
      let (content, e, k) = bind-ok (ensure_id w.object_id d.content) _ (o, c') h in
      let d' : Doc = record { address = d.address; content = content } in
      let (c₁, e', k') = bind-ok (store w.numerics w.schema c d') _ (o, c') k in
      let (is, _, k₁) = bind-ok (add_to_indexes w.numerics w.schema c.indexes d') _ c₁ e' in
      subst (λ (x : Collection B). Grown old x)
        (ap (λ (r : Outcome × Collection B). r.1) (ok_injective k'))
        (add_document-Grown old (record c { indexes = is }) c₁ d' k₁ g)

  -- Any collection.
  abbrev pub Any : Collection B → Type 0
  Any c = Unit {0}

  -- The operations on a namespace and the events of the oplog.
  pub Keeps-Grown : (w : World) (old : Collection B) → Keeps w Any (Grown old)
  Keeps-Grown w old = record {
    log_insert = λ c c' d o e q. insert-Grown w old c c' d o e q;
    insert = λ c c' d o e v. tt;
    replace = λ c c' query repl order_by o e v. tt;
    update = λ c c' query change order_by skip limit filters o e v. tt;
    upsert = λ c c' query repl change filters o e v. tt;
    delete = λ c c' query order_by skip limit o e v. tt;
  }
