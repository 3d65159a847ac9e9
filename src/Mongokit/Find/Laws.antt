-- ===== src/Mongokit/Find/Laws.antt =====
-- Find of mongokit/collection.go as a page of the documents that match.
use lungo.Base.{
  ℕ, zero, suc, ◌+◌, ◌^◌, ◌<◌, ◌≤◌, pos_part, Bool, List, [], ◌∷◌, ltb, leb, if◌then◌else◌, ℤ, pos,
  negsuc, Option, none, some, Result, ok, fail, Failure, length, drop, take, Bool-cases,
  Result-cases, ◌>>=◌, ◌≡◌, refl, sym, ap, ◌∙◌, arith, inl, inr,
}
use lungo.Bsonkit.Value.{Fields}
use lungo.Bsonkit.Number.{Numerics}
use lungo.Bsonkit.Sort.{Doc}
use lungo.Bsonkit.Lists.{is_full}
use lungo.Mongokit.Query.{SchemaCheck}
use lungo.Mongokit.Filter.Laws.{
  matching, capped, capped-full, capped-none, is_full-leb, filter-capped,
}
use lungo.Mongokit.Find.{find, sorted, adjust_limit, wrap_int, skip_docs}

drop-nil : (n : ℕ) → drop {A = Doc} n [] ≡ []
drop-nil zero = refl
drop-nil (suc n) = refl

drop-past : (n : ℕ) (xs : List Doc) → length xs < n → drop n xs ≡ []
drop-past n [] h = drop-nil n
drop-past (suc n) (x ∷ xs) h = drop-past n xs (omega arith)
drop-past zero (x ∷ xs) h = ground arith

pub skip_docs_lem : (n : ℕ) (xs : List Doc) → skip_docs n xs ≡ drop n xs
unfolding skip_docs
skip_docs_lem n xs = elim (Bool-cases (ltb (length xs) n)) [
  | inl h ↦ rw h (sym (drop-past n xs (ground arith)))
  | inr h ↦ rw h refl
]

take-nil : (n : ℕ) → take {A = Doc} n [] ≡ []
take-nil zero = refl
take-nil (suc n) = refl

drop-take :
    (skip n m : ℕ) (xs : List Doc) → m ≡ n + skip → drop skip (take m xs) ≡ take n (drop skip xs)
drop-take zero n m xs h = ap (λ i. take i xs) (omega arith)
drop-take (suc skip) n m [] h = rw (take-nil m, take-nil n) refl
drop-take (suc skip) n zero (x ∷ xs) h = ground arith
drop-take (suc skip) n (suc m) (x ∷ xs) h = drop-take skip n m xs (omega arith)

take-all : (n : ℕ) (xs : List Doc) → length xs ≤ n → take n xs ≡ xs
take-all n [] h = take-nil n
take-all zero (x ∷ xs) h = ground arith
take-all (suc n) (x ∷ xs) h = ap (λ ys. x ∷ ys) (take-all n xs (omega arith))

length-drop : (k n : ℕ) (xs : List Doc) → length xs ≤ n + k → length (drop k xs) ≤ n
length-drop zero n xs h = omega arith
length-drop (suc k) n [] h = omega arith
length-drop (suc k) n (x ∷ xs) h = length-drop k n xs (omega arith)

abbrev pub answer : Option Failure → List Doc → Result (List Doc)
answer none list = ok list
answer (some e) list = fail e

-- The documents behind the first `skip` ones, as many as the limit says, from what matches and
-- the error that ends it. The error shows if the limit is not reached before it.
abbrev pub page : ℤ → ℕ → List Doc × Option Failure → Result (List Doc)
page (pos (suc n)) skip m =
    answer (if leb (suc n + skip) (length m.0) then none else m.1) (take (suc n) (drop skip m.0))
page limit skip m = answer m.1 (drop skip m.0)

shown : ℕ → List Doc × Option Failure → Result (List Doc)
shown skip found = elim found.1 [ some e ↦ fail e | none ↦ ok (skip_docs skip found.0) ]

shown-answer :
    (skip : ℕ) (found : List Doc × Option Failure)
    → shown skip found ≡ answer found.1 (drop skip found.0)
unfolding shown
shown-answer skip (list, none) = ap (λ xs. ok xs) (skip_docs_lem skip list)
shown-answer skip (list, some e) = refl

adjust_limit-small :
    (n skip : ℕ) → suc n + skip < 2 ^ 63 → adjust_limit (pos (suc n)) skip ≡ pos (suc n + skip)
unfolding adjust_limit wrap_int
adjust_limit-small n skip h = ground arith

shown-limit :
    (n skip : ℕ) (m : List Doc × Option Failure)
    → shown skip (capped (pos (suc n + skip)) m) ≡ page (pos (suc n)) skip m
shown-limit n skip m = elim (Bool-cases (leb (suc n + skip) (length m.0))) [
  | inl f ↦
      rw (capped-full (suc n + skip) m (omega arith) f, f)
        (shown-answer skip (take (suc n + skip) m.0, none)
          ∙ ap (λ xs. ok xs) (drop-take skip (suc n) (suc n + skip) m.0 refl))
  | inr f ↦
      let free =
        capped-none (pos (suc n + skip)) m
          (is_full-leb (suc n + skip) (length m.0) (omega arith) ∙ f) in
      let short : length m.0 ≤ suc n + skip = ground arith in
      let few : length (drop skip m.0) ≤ suc n = length-drop skip (suc n) m.0 short in
      rw (free, f)
        (shown-answer skip m
          ∙ ap (λ xs. answer m.1 xs) (sym (take-all (suc n) (drop skip m.0) few)))
]

shown-page :
    (limit : ℤ) (skip : ℕ) (m : List Doc × Option Failure)
    → pos_part limit + skip < 2 ^ 63
    → shown skip (capped (adjust_limit limit skip) m) ≡ page limit skip m
unfolding adjust_limit wrap_int capped is_full
shown-page (pos zero) skip m h = shown-answer skip m
shown-page (negsuc n) skip m h = shown-answer skip m
shown-page (pos (suc n)) skip m h = rw (adjust_limit-small n skip h) (shown-limit n skip m)

module _ (ar : Numerics) (schema : SchemaCheck)
    (sort_slice : (Doc → Doc → Bool) → List Doc → List Doc) where
  -- Find answers a page of the documents that match in what the sorting gives. Limit and skip add up
  -- to an int.
  pub find-sorted :
      (documents : List Doc) (query order_by : Fields) (skip : ℕ) (limit : ℤ)
      → pos_part limit + skip < 2 ^ 63
      → find ar schema sort_slice documents query order_by skip limit ≡ (
          sorted ar schema sort_slice documents order_by >>= λ list.
          page limit skip (matching ar schema query list))
  unfolding find shown
  find-sorted documents query order_by skip limit h =
      elim (Result-cases (sorted ar schema sort_slice documents order_by)) [
        | inl (list, e) ↦ rw e (
            ap (λ found. shown skip found)
              (filter-capped ar schema query list (adjust_limit limit skip))
            ∙ shown-page limit skip (matching ar schema query list) h)
        | inr (f, e) ↦ rw e refl
      ]
