-- ===== src/Bsonkit/Set/Keys.antt =====
-- Positions in a list of addresses, and what the list and map operations of the set do to them.
use lungo.Base.{
  ℕ, zero, suc, ◌+◌, ◌-◌, ◌<◌, ◌≡◌, refl, Option, none, some, List, [], ◌∷◌, ◌++◌, arith, ltb, leb,
  ◌==◌, if◌then◌else◌, length, set, erase_idx,
}
use lungo.Bsonkit.Set.{assign, reindex}

abbrev pub shift : Option ℕ → Option ℕ
shift none = none
shift (some i) = some (suc i)

-- The first place of a document in the list.
unfoldable pub position : ℕ → List ℕ → Option ℕ
position d [] = none
position d (x ∷ xs) = if d == x then some 0 else shift (position d xs)

-- No document stands in the list twice.
abbrev pub IsDistinct : List ℕ → Type 0
IsDistinct [] = Unit
IsDistinct (x ∷ xs) = (position x xs ≡ none) × IsDistinct xs

abbrev pub or_else : Option ℕ → Option ℕ → Option ℕ
or_else none y = y
or_else (some i) y = some i

pub position-append :
    (d e : ℕ) (xs : List ℕ)
    → position d (xs ++ e ∷ [])
      ≡ or_else (position d xs) (if d == e then some (length xs) else none)
unfolding position
position-append d e [] = ground arith
position-append d e (x ∷ xs) = ground (arith, position-append d e xs)

pub append-IsDistinct :
    (e : ℕ) (xs : List ℕ) → position e xs ≡ none → IsDistinct xs → IsDistinct (xs ++ e ∷ [])
unfolding position
append-IsDistinct e [] h u = (refl, tt)
append-IsDistinct e (x ∷ xs) h (new, u) =
    (ground (arith, position-append x e xs), append-IsDistinct e xs (ground arith) u)

pub position-lt-length : (d : ℕ) (xs : List ℕ) (i : ℕ) → position d xs ≡ some i → i < length xs
unfolding position
position-lt-length d [] i h = ground arith
position-lt-length d (x ∷ xs) zero h = ground arith
position-lt-length d (x ∷ xs) (suc i) h = ground (arith, position-lt-length d xs i)

pub position_inj :
    (a d : ℕ) (xs : List ℕ) (i : ℕ) → position a xs ≡ some i → position d xs ≡ some i → d ≡ a
unfolding position
position_inj a d [] i p q = ground arith
position_inj a d (x ∷ xs) zero p q = ground arith
position_inj a d (x ∷ xs) (suc i) p q = ground (arith, position_inj a d xs i)

-- To write `b` over `a` moves the position from `a` to `b`.
pub position-set :
    (a b d : ℕ) (xs : List ℕ) (i : ℕ)
    → IsDistinct xs
    → position a xs ≡ some i
    → position b xs ≡ none
    → position d (set xs i b) ≡ (if d == b then some i else if d == a then none else position d xs)
unfolding position
position-set a b d [] i u p q = ground arith
position-set a b d (x ∷ xs) zero u p q = ground arith
position-set a b d (x ∷ xs) (suc i) (new, u) p q = ground (arith, position-set a b d xs i u)

pub set-IsDistinct :
    (a b : ℕ) (xs : List ℕ) (i : ℕ)
    → IsDistinct xs
    → position a xs ≡ some i
    → position b xs ≡ none
    → IsDistinct (set xs i b)
unfolding position
set-IsDistinct a b [] i u p q = tt
set-IsDistinct a b (x ∷ xs) zero (new, u) p q = (ground arith, u)
set-IsDistinct a b (x ∷ xs) (suc i) (new, u) p q = (
  ground (arith, position-set a b x xs i u),
  set-IsDistinct a b xs i u (ground arith) (ground arith),
)

-- The position after the element at `i` is gone.
abbrev pub close_up : ℕ → Option ℕ → Option ℕ
close_up i none = none
close_up i (some j) = if ltb j i then some j else some (j - 1)

pub position-erase_idx :
    (a d : ℕ) (xs : List ℕ) (i : ℕ)
    → IsDistinct xs
    → position a xs ≡ some i
    → position d (erase_idx xs i) ≡ (if d == a then none else close_up i (position d xs))
unfolding position
position-erase_idx a d [] i u p = ground arith
position-erase_idx a d (x ∷ xs) zero (new, u) p = ground arith
position-erase_idx a d (x ∷ xs) (suc i) (new, u) p =
    ground (arith, position-erase_idx a d xs i u, position_inj a d xs i)

pub erase_idx-IsDistinct :
    (a : ℕ) (xs : List ℕ) (i : ℕ)
    → IsDistinct xs
    → position a xs ≡ some i
    → IsDistinct (erase_idx xs i)
unfolding position
erase_idx-IsDistinct a [] i u p = tt
erase_idx-IsDistinct a (x ∷ xs) zero (new, u) p = u
erase_idx-IsDistinct a (x ∷ xs) (suc i) (new, u) p =
    (ground (arith, position-erase_idx a x xs i u), erase_idx-IsDistinct a xs i u (ground arith))

-- What the loop leaves at a key: the position of a document that it passed, else the old entry.
abbrev pub passed : ℕ → ℕ → Option ℕ → Option ℕ → Option ℕ
passed skip at none old = old
passed skip at (some j) old = if leb skip j then some (at + j) else old

pub reindex_lem :
    (m : ℕ → Option ℕ) (skip at : ℕ) (xs : List ℕ) (d : ℕ)
    → IsDistinct xs
    → reindex m skip at xs d ≡ passed skip at (position d xs) (m d)
unfolding reindex position
reindex_lem m skip at [] d u = refl
reindex_lem m zero at (x ∷ xs) d (new, u) =
    ground (arith, reindex_lem (assign m x at) zero (suc at) xs d u)
reindex_lem m (suc skip) at (x ∷ xs) d (new, u) = ground (arith, reindex_lem m skip (suc at) xs d u)
