-- ===== src/Mongokit/Index/Plain.antt =====
-- Documents that every index orders, for mongokit/index.go: their numbers are integers, and no
-- regular expression stands in them.
use lungo.Base.{
  ℕ, zero, suc, ◌≡◌, refl, Bool, true, false, ◌&&◌, and_left, and_right, List, [], ◌∷◌, Text,
  text_eq, if_both, Ordering, Option, none, some,
}
use lungo.Bsonkit.Value.{
  Value, missing, doc, array, Items, empty, item, Fields, end, field, count_items,
}
use lungo.Bsonkit.Number.{Numerics, Decimal}
use lungo.Bsonkit.Path.{path_end, path_segment, reduce_path, parse_index}
use lungo.Bsonkit.Access.{get, get_field, get_elem, at_path, in_range, get_path}
use lungo.Bsonkit.Compare.Order.{is_exact, is_exact_fields, is_exact_items}
use lungo.Bsonkit.Sort.{Doc, Column}
use lungo.Bsonkit.Sort.Laws.{are_exact}
use lungo.Bsonkit.Index.{index_less, IsOrder}
use lungo.Bsonkit.Index.Order.{Exact, index_less-IsOrder}

abbrev pub Plain : Doc → Type 0
Plain d = is_exact_fields d.content ≡ true

abbrev IsExact : Value × Bool → Type 0
IsExact r = is_exact r.0 ≡ true

missing-IsExact : (b : Bool) → IsExact (missing, b)
unfolding is_exact
missing-IsExact b = refl

at_path-IsExact :
    (p : Text) (v : Value) (r : Value × Bool)
    → is_exact v ≡ true
    → IsExact r
    → IsExact (at_path p v r)
at_path-IsExact p v r h k =
    if_both IsExact (text_eq p path_end) h
      (if_both IsExact (text_eq p []) (missing-IsExact false) k)

-- What Get finds is a part of the value.
mutual
  unfolding get is_exact

  get-IsExact : (v : Value) (p : Text) → is_exact v ≡ true → IsExact (get v p false false)
  get-IsExact (doc fs) p h =
      at_path-IsExact p (doc fs) _ h (field-IsExact fs (path_segment p) (reduce_path p) h)
  get-IsExact (array xs) p h =
      at_path-IsExact p (array xs) _ h (
        elem-IsExact xs (in_range (parse_index (path_segment p)) (count_items xs)) (reduce_path p)
          h)
  get-IsExact v p h = at_path-IsExact p v (missing, false) h (missing-IsExact false)

  field-IsExact :
      (fs : Fields) (key rest : Text)
      → is_exact_fields fs ≡ true
      → IsExact (get_field fs key rest false false)
  field-IsExact end key rest h = missing-IsExact false
  field-IsExact (field k v fs) key rest h =
      if_both IsExact (text_eq k key) (get-IsExact v rest (and_left _ _ h))
        (field-IsExact fs key rest (and_right _ _ h))

  elem-IsExact :
      (xs : Items) (o : Option ℕ) (rest : Text)
      → is_exact_items xs ≡ true
      → IsExact (elim o [ some i ↦ get_elem xs i rest false false | none ↦ (missing, false) ])
  elem-IsExact xs none rest h = missing-IsExact false
  elem-IsExact empty (some i) rest h = missing-IsExact false
  elem-IsExact (item v xs) (some zero) rest h = get-IsExact v rest (and_left _ _ h)
  elem-IsExact (item v xs) (some (suc i)) rest h = elem-IsExact xs (some i) rest (and_right _ _ h)

and_both : {a b : Bool} → a ≡ true → b ≡ true → (a && b) ≡ true
and_both h k = rw (h, k) refl

pub Plain-Exact : (cs : List Column) (d : Doc) → Plain d → Exact cs d
unfolding are_exact get_path is_exact
Plain-Exact [] d h = refl
Plain-Exact (c ∷ cs) d h = and_both (get-IsExact (doc d.content) c.path h) (Plain-Exact cs d h)

module _ (ar : Numerics) (cmp_self : (a : Decimal) → ar.decimal_cmp a a ≡ Ordering.eq) where
  pub index_less-Plain :
      (unique : Bool) (cs : List Column) → IsOrder (index_less ar unique cs) Plain
  index_less-Plain unique cs =
      let o = index_less-IsOrder ar cmp_self unique cs in
      record {
        irreflexive = λ x hx. o.irreflexive x (Plain-Exact cs x hx);
        transitive = λ x y z hx hy hz k l.
            o.transitive x y z (Plain-Exact cs x hx) (Plain-Exact cs y hy) (Plain-Exact cs z hz) k
              l;
        same_key_trans = λ x y z hx hy hz k l.
            o.same_key_trans x y z (Plain-Exact cs x hx) (Plain-Exact cs y hy) (Plain-Exact cs z hz)
              k l;
      }
