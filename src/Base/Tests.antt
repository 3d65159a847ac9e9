-- ===== src/Base/Tests.antt =====
-- Boolean tests on the native numbers, the conditional, and the lemmas that split on them.
use Prim.Native.Nat.{ℕ, compare, Ordering}
use mathlib.Core.Path.{◌≡◌, refl, sym}
use mathlib.Core.Logic.{◌≢◌, ◌↔◌, ◌⊎◌, inl, inr}
use mathlib.Core.Bool.{Bool, true, false, ◌&&◌}
use mathlib.Core.Option.{Option, none, some}
use native.Mathlib.Omega.{arith}

abbrev pub ltb : ℕ → ℕ → Bool
ltb a b = elim (compare a b) [ Ordering.lt ↦ true | _ ↦ false ]

abbrev pub leb : ℕ → ℕ → Bool
leb a b = elim (compare a b) [ Ordering.gt ↦ false | _ ↦ true ]

infix 50 ◌==◌
abbrev pub ◌==◌ : ℕ → ℕ → Bool
a == b = elim (compare a b) [ Ordering.eq ↦ true | _ ↦ false ]

infix 1 if◌then◌else◌
abbrev pub if◌then◌else◌ {ℓ} : {A : Type ℓ} → Bool → A → A → A
if true then x else y = x
if false then x else y = y

pub ==_iff : (a b : ℕ) → ((a == b) ≡ true) ↔ (a ≡ b)
==_iff a b = ground arith

pub ==_self : (a : ℕ) → (a == a) ≡ true
==_self a = ground arith

pub ==_ne : (a b : ℕ) → a ≢ b → (a == b) ≡ false
==_ne a b h = ground arith

-- To split on a computed value and keep the equation.
pub Bool-cases : (b : Bool) → (b ≡ true) ⊎ (b ≡ false)
Bool-cases true = inl refl
Bool-cases false = inr refl

pub Option-cases {ℓ} : {A : Type ℓ} (o : Option A) → (o ≡ none) ⊎ ((a : A) × (o ≡ some a))
Option-cases none = inl refl
Option-cases (some a) = inr (a, refl)

-- The ints -1, 0 and 1 that comparisons of the source return are lt, eq and gt.
-- The first order counts unless it is 0.
abbrev pub then_compare : Ordering → Ordering → Ordering
then_compare Ordering.eq o = o
then_compare Ordering.lt o = Ordering.lt
then_compare Ordering.gt o = Ordering.gt

-- The product with -1.
abbrev pub reverse_order : Ordering → Ordering
reverse_order Ordering.lt = Ordering.gt
reverse_order Ordering.eq = Ordering.eq
reverse_order Ordering.gt = Ordering.lt

abbrev pub is_eq : Ordering → Bool
is_eq Ordering.eq = true
is_eq _ = false

abbrev pub is_lt : Ordering → Bool
is_lt Ordering.lt = true
is_lt _ = false

abbrev pub is_gt : Ordering → Bool
is_gt Ordering.gt = true
is_gt _ = false

pub Ordering-cases : (o : Ordering) → (o ≡ Ordering.lt) ⊎ (o ≡ Ordering.eq) ⊎ (o ≡ Ordering.gt)
Ordering-cases Ordering.lt = inl refl
Ordering-cases Ordering.eq = inr (inl refl)
Ordering-cases Ordering.gt = inr (inr refl)

abbrev pub same_order : Ordering → Ordering → Bool
same_order Ordering.lt Ordering.lt = true
same_order Ordering.eq Ordering.eq = true
same_order Ordering.gt Ordering.gt = true
same_order _ _ = false

-- What the orders of `a` to `b` and of `b` to `c` say of the order of `a` to `c`.
abbrev pub chains : Ordering → Ordering → Ordering → Bool
chains Ordering.eq q r = same_order q r
chains Ordering.lt Ordering.gt r = true
chains Ordering.lt _ r = is_lt r
chains Ordering.gt Ordering.lt r = true
chains Ordering.gt _ r = is_gt r

pub chains-then :
    (p q r p' q' r' : Ordering)
    → chains p q r ≡ true
    → chains p' q' r' ≡ true
    → chains (then_compare p p') (then_compare q q') (then_compare r r') ≡ true
chains-then p q r p' q' r' h h' = ground arith

pub reverse_order-then :
    (p q : Ordering)
    → reverse_order (then_compare p q) ≡ then_compare (reverse_order p) (reverse_order q)
reverse_order-then p q = ground arith

pub compare_ℕ-anti : (a b : ℕ) → compare a b ≡ reverse_order (compare b a)
compare_ℕ-anti a b = ground arith

pub compare_ℕ-chains : (a b c : ℕ) → chains (compare a b) (compare b c) (compare a c) ≡ true
compare_ℕ-chains a b c = ground arith

pub then-anti :
    (p p' q q' : Ordering)
    → p ≡ reverse_order p'
    → q ≡ reverse_order q'
    → then_compare p q ≡ reverse_order (then_compare p' q')
then-anti p p' q q' h k = rw (h, k) (sym (reverse_order-then p' q'))

pub and_left : (a b : Bool) → (a && b) ≡ true → a ≡ true
and_left a b h = ground arith

pub and_right : (a b : Bool) → (a && b) ≡ true → b ≡ true
and_right a b h = ground arith

-- The same where the second orders count only between what the first orders leave equal.
pub chains-then_if :
    (p q r p' q' r' : Ordering)
    → chains p q r ≡ true
    → (p ≡ Ordering.eq → q ≡ Ordering.eq → chains p' q' r' ≡ true)
    → chains (then_compare p p') (then_compare q q') (then_compare r r') ≡ true
chains-then_if p q r p' q' r' h k = ground arith

pub chains-lt : (q : Ordering) → chains Ordering.lt q Ordering.lt ≡ true
chains-lt q = ground arith

pub chains-gt : (q : Ordering) → chains q Ordering.gt Ordering.gt ≡ true
chains-gt q = ground arith

-- What holds of both branches holds of the conditional.
pub if_both {ℓ κ} :
    {A : Type ℓ} (P : A → Type κ) (b : Bool) {x y : A} → P x → P y → P (if b then x else y)
if_both P true h k = h
if_both P false h k = k
