-- ===== src/Bsonkit/Sort/Laws.antt =====
-- bsonkit/sort.go: Order as an order. Columns, identity and direction are arbitrary.
use lungo.Base.{
  Bool, true, false, ◌&&◌, List, [], ◌∷◌, Ordering, compare as compare_ℕ, reverse_order, is_eq,
  then_compare, chains, chains-then, compare_ℕ-chains, compare_ℕ-anti, and_left, and_right,
  then-anti, if◌then◌else◌, ◌≡◌, refl, sym, ◌∙◌, arith,
}
use lungo.Bsonkit.Number.{Numerics, Decimal}
use lungo.Bsonkit.Compare.Laws.{no_regex, compare-anti}
use lungo.Bsonkit.Compare.Order.{is_exact, compare-chains}
use lungo.Bsonkit.Access.{get_path}
use lungo.Bsonkit.Sort.{Column, Doc, order_column, order}

-- The values in the columns hold integers only and no regular expression.
unfoldable pub are_exact : List Column → Doc → Bool
unfolding get_path
are_exact [] d = true
are_exact (c ∷ cs) d = is_exact (get_path d.content c.path) && are_exact cs d

-- The values in the columns hold no regular expression.
unfoldable pub have_no_regex : List Column → Doc → Bool
unfolding get_path
have_no_regex [] d = true
have_no_regex (c ∷ cs) d = no_regex (get_path d.content c.path) && have_no_regex cs d

turned-chains :
    (b : Bool) (p q r : Ordering)
    → chains p q r ≡ true
    → chains
        (if b then reverse_order p else p)
        (if b then reverse_order q else q)
        (if b then reverse_order r else r)
      ≡ true
turned-chains b p q r h = ground arith

turned-anti :
    (b : Bool) (p q : Ordering)
    → p ≡ reverse_order q
    → (if b then reverse_order p else p) ≡ reverse_order (if b then reverse_order q else q)
turned-anti b p q h = ground arith

if_eq-then_compare : (p q : Ordering) → (if is_eq p then q else p) ≡ then_compare p q
if_eq-then_compare p q = ground arith

module _ (ar : Numerics) where
  -- The first column that tells the documents apart decides.
  order-column :
      (l r : Doc) (c : Column) (cs : List Column) (identity : Bool)
      → order ar l r (c ∷ cs) identity
        ≡ then_compare (order_column ar c l r) (order ar l r cs identity)
  unfolding order
  order-column l r c cs identity =
      if_eq-then_compare (order_column ar c l r) (order ar l r cs identity)

  -- Order with any columns, where their values hold integers only and no regular expression: the
  -- orders of `x` to `y` and of `y` to `z` decide that of `x` to `z`, so that less and greater are
  -- transitive and documents that are equal are interchangeable.
  pub order-chains :
      (x y z : Doc) (cs : List Column) (identity : Bool)
      → are_exact cs x ≡ true
      → are_exact cs y ≡ true
      → are_exact cs z ≡ true
      → chains (order ar x y cs identity) (order ar y z cs identity) (order ar x z cs identity)
        ≡ true
  unfolding order order_column are_exact
  order-chains x y z [] true hx hy hz = compare_ℕ-chains x.address y.address z.address
  order-chains x y z [] false hx hy hz = refl
  order-chains x y z (c ∷ cs) identity hx hy hz =
      rw
        (
          order-column x y c cs identity,
          order-column y z c cs identity,
          order-column x z c cs identity,
        )
        (chains-then _ _ _ _ _ _
          (turned-chains c.reverse _ _ _
            (compare-chains ar _ _ _ (and_left _ _ hx) (and_left _ _ hy) (and_left _ _ hz)))
          (order-chains x y z cs identity (and_right _ _ hx) (and_right _ _ hy) (and_right _ _ hz)))

  compare_ℕ-eq : (a b : _) → compare_ℕ a b ≡ Ordering.eq → a ≡ b
  compare_ℕ-eq a b h = ground arith

  then_compare-eq : (p q : Ordering) → then_compare p q ≡ Ordering.eq → q ≡ Ordering.eq
  then_compare-eq p q h = ground arith

  -- With identity only a document and itself are equal, whatever the columns: the order of an index
  -- that is not unique, and that of Sort, leave no two documents of a list undecided.
  pub order-identity :
      (x y : Doc) (cs : List Column) → order ar x y cs true ≡ Ordering.eq → x.address ≡ y.address
  unfolding order
  order-identity x y [] h = compare_ℕ-eq x.address y.address h
  order-identity x y (c ∷ cs) h =
      order-identity x y cs (then_compare-eq _ _ (sym (order-column x y c cs true) ∙ h))

module _ (ar : Numerics)
    (cmp-anti : (a b : Decimal) → ar.decimal_cmp a b ≡ reverse_order (ar.decimal_cmp b a)) where
  -- Order the other way round answers the reverse, where the values in the columns of the left
  -- document hold no regular expression and Cmp of the decimal package has that property.
  pub order-anti :
      (x y : Doc) (cs : List Column) (identity : Bool)
      → have_no_regex cs x ≡ true
      → order ar x y cs identity ≡ reverse_order (order ar y x cs identity)
  unfolding order order_column have_no_regex
  order-anti x y [] true h = compare_ℕ-anti x.address y.address
  order-anti x y [] false h = refl
  order-anti x y (c ∷ cs) identity h =
      rw (order-column ar x y c cs identity, order-column ar y x c cs identity)
        (then-anti _ _ _ _
          (turned-anti c.reverse _ _ (compare-anti ar cmp-anti _ _ (and_left _ _ h)))
          (order-anti x y cs identity (and_right _ _ h)))
