-- ===== src/Mongokit/Collection/Documents.antt =====
-- mongokit/collection.go: what the writes to the set of a collection store and take out.
use lungo.Base.{
  ℕ, ◌≡◌, ◌≢◌, ◌↔◌, ◌⊎◌, inl, inr, refl, sym, ap, subst, ◌∙◌, Bool, true, false, not, ◌&&◌, ◌||◌,
  ◌==◌, ==_iff, Bool-cases, Failure, ok, fail, ok_injective, if◌then◌else◌, arith,
  cannot_add_document, cannot_replace_document, cannot_remove_document,
}
use lungo.Bsonkit.Sort.{Doc}
use lungo.Bsonkit.Set as S
use lungo.Bsonkit.Set.{DocSet}
use lungo.Bsonkit.Set.Valid.{IsValid, add-IsValid, replace-IsValid, remove-IsValid}
use lungo.Bsonkit.Set.Members.{in_set, in_set-add, in_set-replace, in_set-remove}
use lungo.Bsonkit.Index.{Btree}
use lungo.Mongokit.Collection.{Collection, add_document, replace_document, remove_document}
use lungo.Mongokit.Collection.Consistent.{Stored, Stored_inj}

Doc_ext : (x y : Doc) → x.address ≡ y.address → x.content ≡ y.content → x ≡ y
Doc_ext x y e k = λ i. record { address = e i; content = k i }

clash : (x d : Doc) → (x.address == d.address) ≡ false → x ≡ d → {A : Type 0} → A
clash x d h e = let k = (==_iff x.address d.address).1 (ap (λ (y : Doc). y.address) e) in cc

not_at : (a b : ℕ) (y : Bool) → (not (a == b) && y) ≡ true → (a ≢ b) × (y ≡ true)
not_at a b y h = (λ e. ground arith, ground arith)

is_not_at : (a b : ℕ) (y : Bool) → a ≢ b → y ≡ true → (not (a == b) && y) ≡ true
is_not_at a b y h k = ground arith

module _ {B : Btree} where
  -- The collection with another set, and a document at its address.
  abbrev placed : Collection B → DocSet → Doc → Collection B
  placed c s d = record c {
    documents = s;
    content = λ a. if a == d.address then d.content else c.content a;
  }

  ok_if :
      (b : Bool) (c c' : Collection B) (f : Failure)
      → (if b then ok c else fail f) ≡ ok c'
      → (b ≡ true) × (c ≡ c')
  ok_if true c c' f h = (refl, ok_injective h)
  ok_if false c c' f h = cc

  content_same :
      (c : Collection B) (s : DocSet) (d : Doc) (a : ℕ)
      → (a == d.address) ≡ true
      → (placed c s d).content a ≡ d.content
  content_same c s d a h = rw h refl

  content_other :
      (c : Collection B) (s : DocSet) (d : Doc) (a : ℕ)
      → (a == d.address) ≡ false
      → (placed c s d).content a ≡ c.content a
  content_other c s d a h = rw h refl

  -- What a collection stores after a document came in, by what the set held and keeps.
  Stored-placed :
      (c : Collection B) (s : DocSet) (d x : Doc) (kept : Bool)
      → in_set s x.address ≡ (x.address == d.address || kept)
      → Stored (placed c s d) x
        ↔ ((x ≡ d) ⊎ ((x.address ≢ d.address) × (kept ≡ true) × (x.content ≡ c.content x.address)))
  Stored-placed c s d x kept e = elim (Bool-cases (x.address == d.address)) [
    | inl same ↦
        let at : x.address ≡ d.address = (==_iff x.address d.address).0 same in
        (
          λ (m, k). inl (Doc_ext x d at (k ∙ content_same c s d x.address same)),
          λ q. elim q [
            | inl f ↦ (
              e ∙ ap (λ b. b || kept) same,
              ap (λ (y : Doc). y.content) f ∙ sym (content_same c s d x.address same),
            )
            | inr (ne, _, _) ↦ absurd (ne at)
          ],
        )
    | inr other ↦ (
      λ (m, k). inr (
        λ f. let g = (==_iff x.address d.address).1 f in cc,
        sym (e ∙ ap (λ b. b || kept) other) ∙ m,
        k ∙ content_other c s d x.address other,
      ),
      λ q. elim q [
        | inl f ↦ clash x d other f
        | inr (ne, y, k) ↦
            (e ∙ ap (λ b. b || kept) other ∙ y, k ∙ sym (content_other c s d x.address other))
      ],
    )
  ]

  -- What an operation on the set leaves: a valid set, the same indexes, and the documents of `P`.
  pub record Leaves (c c' : Collection B) (P : Doc → Type 0) : Type 0 where
    pub valid : IsValid c'.documents
    pub indexes : c'.indexes ≡ c.indexes
    pub stored : (x : Doc) → Stored c' x ↔ P x

  fresh_ne :
      (c : Collection B) (d x : Doc)
      → in_set c.documents d.address ≡ false
      → in_set c.documents x.address ≡ true
      → x.address ≢ d.address
  fresh_ne c d x h k e =
      let m : in_set c.documents d.address ≡ true = subst (λ a. in_set c.documents a ≡ true) e k in
      cc

  pub add_document-Leaves :
      (c c' : Collection B) (d : Doc)
      → add_document c d ≡ ok c'
      → IsValid c.documents
      → Leaves c c' (λ x. (x ≡ d) ⊎ Stored c x)
  unfolding add_document
  add_document-Leaves c c' d h v =
      let s = (S.add c.documents d.address).0 in
      let (done, same) =
        ok_if (S.add c.documents d.address).1 (placed c s d) c' cannot_add_document h in
      let free = (in_set-add c.documents d.address d.address done).0 in
      subst (λ (k : Collection B). Leaves c k (λ x. (x ≡ d) ⊎ Stored c x)) same
        (record {
          valid = add-IsValid c.documents d.address v;
          indexes = refl;
          stored = λ x.
              let at =
                Stored-placed c s d x (in_set c.documents x.address)
                  (in_set-add c.documents d.address x.address done).1 in
              (
                λ m. elim (at.0 m) [ inl e ↦ inl e | inr (_, y, k) ↦ inr (y, k) ],
                λ q.
                    at.1
                      (elim q [ inl e ↦ inl e | inr (y, k) ↦ inr (fresh_ne c d x free y, y, k) ]),
              );
        })

  -- Another stored document stands at another address.
  elsewhere :
      (c : Collection B) (x old : Doc)
      → Stored c x
      → Stored c old
      → x ≢ old
      → x.address ≢ old.address
  elsewhere c x old m n ne e = ne (Stored_inj c x old m n e)

  pub replace_document-Leaves :
      (c c' : Collection B) (old d : Doc)
      → replace_document c old d ≡ ok c'
      → IsValid c.documents
      → Stored c old
      → Leaves c c' (λ x. (x ≡ d) ⊎ (Stored c x × (x ≢ old)))
  unfolding replace_document
  replace_document-Leaves c c' old d h v so =
      let r = S.replace c.documents old.address d.address in
      let (done, same) = ok_if r.1 (placed c r.0 d) c' cannot_replace_document h in
      let free = (in_set-replace c.documents old.address d.address d.address done).0 in
      subst (λ (k : Collection B). Leaves c k (λ x. (x ≡ d) ⊎ (Stored c x × (x ≢ old)))) same
        (record {
          valid = replace-IsValid c.documents old.address d.address v;
          indexes = refl;
          stored = λ x.
              let at =
                Stored-placed c r.0 d x
                  (not (x.address == old.address) && in_set c.documents x.address)
                  (in_set-replace c.documents old.address d.address x.address done).1 in
              (
                λ m. elim (at.0 m) [
                  | inl e ↦ inl e
                  | inr (_, y, k) ↦
                      let (ne, z) = not_at x.address old.address (in_set c.documents x.address) y in
                      inr ((z, k), λ e. ne (ap (λ (q : Doc). q.address) e))
                ],
                λ q. at.1 (elim q [
                  | inl e ↦ inl e
                  | inr ((y, k), ne) ↦ inr (
                    fresh_ne c d x free y,
                    is_not_at x.address old.address (in_set c.documents x.address)
                        (elsewhere c x old (y, k) so ne) y,
                    k,
                  )
                ]),
              );
        })

  -- The set had nothing at the address of the document that came in.
  pub replace_document_fresh :
      (c c' : Collection B) (old d : Doc)
      → replace_document c old d ≡ ok c'
      → in_set c.documents d.address ≡ false
  unfolding replace_document
  replace_document_fresh c c' old d h =
      let r = S.replace c.documents old.address d.address in
      let (done, _) = ok_if r.1 (placed c r.0 d) c' cannot_replace_document h in
      (in_set-replace c.documents old.address d.address d.address done).0

  pub taken_free :
      (c : Collection B) (x d : Doc) → Stored c x → in_set c.documents d.address ≡ false → x ≢ d
  taken_free c x d (m, _) free f =
      let k : in_set c.documents d.address ≡ true =
        subst (λ (y : Doc). in_set c.documents y.address ≡ true) f m in
      cc

  pub remove_document-Leaves :
      (c c' : Collection B) (d : Doc)
      → remove_document c d ≡ ok c'
      → IsValid c.documents
      → Stored c d
      → Leaves c c' (λ x. Stored c x × (x ≢ d))
  unfolding remove_document
  remove_document-Leaves c c' d h v sd =
      let r = S.remove c.documents d.address in
      let (done, same) = ok_if r.1 (record c { documents = r.0 }) c' cannot_remove_document h in
      subst (λ (k : Collection B). Leaves c k (λ x. Stored c x × (x ≢ d))) same
        (record {
          valid = remove-IsValid c.documents d.address v;
          indexes = refl;
          stored = λ x.
              let at = in_set-remove c.documents d.address x.address v done in
              (
                λ (m, k).
                    let (ne, z) =
                      not_at x.address d.address (in_set c.documents x.address) (sym at ∙ m) in
                    ((z, k), λ e. ne (ap (λ (q : Doc). q.address) e)),
                λ ((m, k), ne). (
                  at
                      ∙ is_not_at x.address d.address (in_set c.documents x.address)
                          (elsewhere c x d (m, k) sd ne) m,
                  k,
                ),
              );
        })
