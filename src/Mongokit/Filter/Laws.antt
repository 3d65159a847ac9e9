-- ===== src/Mongokit/Filter/Laws.antt =====
-- mongokit/filter.go: what Filter answers.
use lungo.Base.{
  ℕ, zero, suc, ◌<◌, Bool, true, false, List, [], ◌∷◌, ◌++◌, if◌then◌else◌, ℤ, pos, negsuc, Option,
  none, some, ok, fail, Failure, length, take, leb, append-nil, append_assoc, length-append,
  take-append, Result-cases, Bool-cases, ◌≡◌, refl, sym, ap, ◌∙◌, arith, inl, inr,
}
use lungo.Bsonkit.Value.{Fields}
use lungo.Bsonkit.Number.{Numerics}
use lungo.Bsonkit.Sort.{Doc}
use lungo.Bsonkit.Lists.{select, is_full}
use lungo.Mongokit.Query.{SchemaCheck, match}
use lungo.Mongokit.Filter.{filter, filter_selector}

-- A positive limit that the documents reach cuts them off, and the error behind it does not show.
unfoldable pub capped : ℤ → List Doc × Option Failure → List Doc × Option Failure
unfolding is_full
capped (pos n) m = if is_full (pos n) (length m.0) then (take n m.0, none) else m
capped (negsuc n) m = m

pub capped-none :
    (limit : ℤ) (m : List Doc × Option Failure)
    → is_full limit (length m.0) ≡ false
    → capped limit m ≡ m
unfolding capped
capped-none (pos n) m h = rw h refl
capped-none (negsuc n) m h = refl

pub is_full-leb : (n k : ℕ) → 0 < n → is_full (pos n) k ≡ leb n k
unfolding is_full
is_full-leb zero k h = ground arith
is_full-leb (suc n) k h = refl

pub capped-full :
    (n : ℕ) (m : List Doc × Option Failure)
    → 0 < n
    → leb n (length m.0) ≡ true
    → capped (pos n) m ≡ (take n m.0, none)
unfolding capped
capped-full n m p h = rw (is_full-leb n (length m.0) p, h) refl

-- The document that fills the list is the last one.
capped-filled :
    (limit : ℤ) (acc : List Doc) (d : Doc) (ds : List Doc) (e : Option Failure)
    → is_full limit (length acc) ≡ false
    → is_full limit (length (acc ++ d ∷ [])) ≡ true
    → capped limit ((acc ++ d ∷ []) ++ ds, e) ≡ (acc ++ d ∷ [], none)
unfolding capped is_full
capped-filled (pos zero) acc d ds e h k = ground arith
capped-filled (pos (suc n)) acc d ds e h k =
    let l = length-append acc (d ∷ []) in
    let l' = length-append (acc ++ d ∷ []) ds in
    let same : suc n ≡ length (acc ++ d ∷ []) = ground arith in
    let full : leb (suc n) (length ((acc ++ d ∷ []) ++ ds)) ≡ true = ground arith in
    rw full (
      ap (λ xs. (xs, none))
        (ap (λ i. take i ((acc ++ d ∷ []) ++ ds)) same ∙ take-append (acc ++ d ∷ []) ds))
capped-filled (negsuc n) acc d ds e h k = ground arith

module _ (ar : Numerics) (schema : SchemaCheck) (query : Fields) where
  -- The documents that match, up to the first on which Match returns an error, and that error.
  unfoldable pub matching : List Doc → List Doc × Option Failure
  unfolding match
  matching [] = ([], none)
  matching (d ∷ ds) =
      let rest = matching ds in
      elim (match ar schema d.content query) [
        | ok res ↦ (if res then d ∷ rest.0 else rest.0, rest.1)
        | fail e ↦ ([], some e)
      ]

  abbrev loop : ℤ → List Doc → List Doc → List Doc × Option Failure
  loop limit acc list = select limit (filter_selector ar schema query) acc list none

  loop-fail :
      (limit : ℤ) (acc : List Doc) (d : Doc) (ds : List Doc) (e : Failure)
      → match ar schema d.content query ≡ fail e
      → loop limit acc (d ∷ ds) ≡ (acc, some e)
  unfolding select filter_selector
  loop-fail limit acc d ds e h = ground arith

  loop-skip :
      (limit : ℤ) (acc : List Doc) (d : Doc) (ds : List Doc)
      → match ar schema d.content query ≡ ok false
      → loop limit acc (d ∷ ds) ≡ loop limit acc ds
  unfolding select filter_selector
  loop-skip limit acc d ds h = ground arith

  loop-select :
      (limit : ℤ) (acc : List Doc) (d : Doc) (ds : List Doc)
      → match ar schema d.content query ≡ ok true
      → loop limit acc (d ∷ ds) ≡ (
          if is_full limit (length (acc ++ d ∷ []))
          then (acc ++ d ∷ [], none)
          else loop limit (acc ++ d ∷ []) ds)
  unfolding select filter_selector
  loop-select limit acc d ds h = ground arith

  pub matching-fail :
      (d : Doc) (ds : List Doc) (e : Failure)
      → match ar schema d.content query ≡ fail e
      → matching (d ∷ ds) ≡ ([], some e)
  unfolding matching
  matching-fail d ds e h = ground arith

  pub matching-ok :
      (d : Doc) (ds : List Doc) (b : Bool)
      → match ar schema d.content query ≡ ok b
      → matching (d ∷ ds) ≡ (if b then d ∷ (matching ds).0 else (matching ds).0, (matching ds).1)
  unfolding matching
  matching-ok d ds b h = ground arith

  abbrev after : List Doc → List Doc × Option Failure → List Doc × Option Failure
  after acc m = (acc ++ m.0, m.1)

  moved :
      (limit : ℤ) (acc : List Doc) (d : Doc) (m : List Doc × Option Failure)
      → capped limit (after (acc ++ d ∷ []) m) ≡ capped limit (acc ++ d ∷ m.0, m.1)
  moved limit acc d m = ap (λ xs. capped limit (xs, m.1)) (append_assoc acc (d ∷ []) m.0)

  loop_lem :
      (limit : ℤ) (acc list : List Doc)
      → is_full limit (length acc) ≡ false
      → loop limit acc list ≡ capped limit (after acc (matching list))
  unfolding select filter_selector matching
  loop_lem limit acc [] h = sym (rw (append-nil acc) (capped-none limit (acc, none) h))
  loop_lem limit acc (d ∷ ds) h = elim (Result-cases (match ar schema d.content query)) [
    | inr (e, m) ↦
        loop-fail limit acc d ds e m
        ∙ sym (rw (matching-fail d ds e m, append-nil acc) (capped-none limit (acc, some e) h))
    | inl (false, m) ↦
        loop-skip limit acc d ds m ∙ rw (matching-ok d ds false m) (loop_lem limit acc ds h)
    | inl (true, m) ↦ elim (Bool-cases (is_full limit (length (acc ++ d ∷ [])))) [
      | inl f ↦
          loop-select limit acc d ds m
          ∙ rw (matching-ok d ds true m, f)
              (sym (capped-filled limit acc d (matching ds).0 (matching ds).1 h f)
                ∙ moved limit acc d (matching ds))
      | inr f ↦
          loop-select limit acc d ds m
          ∙ rw (matching-ok d ds true m, f)
              (loop_lem limit (acc ++ d ∷ []) ds f ∙ moved limit acc d (matching ds))
    ]
  ]

  -- Filter answers the documents that match, in the order of the list, up to the first error and to
  -- the limit: a positive limit that is reached cuts the list off and hides the error.
  pub filter-capped :
      (list : List Doc) (limit : ℤ)
      → filter ar schema list query limit ≡ capped limit (matching list)
  unfolding filter is_full
  filter-capped list (pos zero) = loop_lem (pos zero) [] list refl
  filter-capped list (pos (suc n)) = loop_lem (pos (suc n)) [] list (ground arith)
  filter-capped list (negsuc n) = loop_lem (negsuc n) [] list refl
