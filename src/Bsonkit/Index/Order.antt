-- ===== src/Bsonkit/Index/Order.antt =====
-- bsonkit/index.go: the comparator of an index is an order of the documents whose values in its
-- columns hold integers only and no regular expression.
use lungo.Base.{
  ◌≡◌, refl, ◌∙◌, subst, ◌&&◌, Bool, true, false, not, List, [], ◌∷◌, Ordering,
  compare as compare_ℕ, chains, is_lt, arith,
}
use lungo.Bsonkit.Number.{Numerics, Decimal}
use lungo.Bsonkit.Compare.Reflexive.{compare_value_self}
use lungo.Bsonkit.Access.{get_path}
use lungo.Bsonkit.Sort.{Doc, Column, order, order_column}
use lungo.Bsonkit.Sort.Laws.{are_exact, order-chains}
use lungo.Bsonkit.Index.{index_less, IsOrder, same_key, same_key_comm}

abbrev pub Exact : List Column → Doc → Type 0
Exact columns d = are_exact columns d ≡ true

-- Orders one after the other, by the law of chains.
lt_lt : (p q r : Ordering) → chains p q r ≡ true → is_lt p ≡ true → is_lt q ≡ true → is_lt r ≡ true
lt_lt p q r h k l = ground arith

not_lt :
    (p q : Ordering)
    → chains p q Ordering.eq ≡ true
    → is_lt p ≡ false
    → is_lt q ≡ false
    → p ≡ Ordering.eq
not_lt p q h k l = ground arith

eq_eq :
    (p q r : Ordering) → chains p q r ≡ true → p ≡ Ordering.eq → q ≡ Ordering.eq → r ≡ Ordering.eq
eq_eq p q r h k l = ground arith

both_not : (a b : Bool) → (not a && not b) ≡ true → (a ≡ false) × (b ≡ false)
both_not false false h = (refl, refl)
both_not false true h = cc
both_not true b h = cc

module _ (ar : Numerics) (cmp_self : (a : Decimal) → ar.decimal_cmp a a ≡ Ordering.eq) where
  compare_ℕ_self : (n : _) → compare_ℕ n n ≡ Ordering.eq
  compare_ℕ_self n = ground arith

  pub order_self :
      (cs : List Column) (d : Doc) (identity : Bool) → order ar d d cs identity ≡ Ordering.eq
  unfolding order order_column
  order_self [] d true = compare_ℕ_self d.address
  order_self [] d false = refl
  order_self (c ∷ cs) d identity =
      ground (
        arith,
        compare_value_self ar cmp_self (get_path d.content c.path),
        order_self cs d identity,
      )

  -- Documents with one key are equal in the order.
  same_key-order :
      (unique : Bool) (cs : List Column) (x y : Doc)
      → Exact cs x
      → Exact cs y
      → same_key (index_less ar unique cs) x y ≡ true
      → order ar x y cs (not unique) ≡ Ordering.eq
  unfolding index_less
  same_key-order unique cs x y hx hy k =
      let (a, b) = both_not _ _ k in
      not_lt _ _
        (subst (λ r. chains (order ar x y cs (not unique)) (order ar y x cs (not unique)) r ≡ true)
          (order_self cs x (not unique)) (order-chains ar x y x cs (not unique) hx hy hx))
        a b

  order-same_key :
      (unique : Bool) (cs : List Column) (x y : Doc)
      → order ar x y cs (not unique) ≡ Ordering.eq
      → order ar y x cs (not unique) ≡ Ordering.eq
      → same_key (index_less ar unique cs) x y ≡ true
  unfolding index_less
  order-same_key unique cs x y h k = rw (h, k) refl

  pub index_less-IsOrder :
      (unique : Bool) (cs : List Column) → IsOrder (index_less ar unique cs) (Exact cs)
  unfolding index_less
  index_less-IsOrder unique cs = record {
    irreflexive = λ x hx. rw (order_self cs x (not unique)) refl;
    transitive =
        λ x y z hx hy hz k l. lt_lt _ _ _ (order-chains ar x y z cs (not unique) hx hy hz) k l;
    same_key_trans = λ x y z hx hy hz k l.
        let xy = same_key-order unique cs x y hx hy k in
        let yz = same_key-order unique cs y z hy hz l in
        let yx =
          same_key-order unique cs y x hy hx (same_key_comm (index_less ar unique cs) y x ∙ k) in
        let zy =
          same_key-order unique cs z y hz hy (same_key_comm (index_less ar unique cs) z y ∙ l) in
        order-same_key unique cs x z
          (eq_eq _ _ _ (order-chains ar x y z cs (not unique) hx hy hz) xy yz)
          (eq_eq _ _ _ (order-chains ar z y x cs (not unique) hz hy hx) zy yx);
  }
