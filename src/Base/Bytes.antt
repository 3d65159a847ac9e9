-- ===== src/Base/Bytes.antt =====
-- A Go string is a sequence of bytes.
use Prim.Native.Nat.{ℕ, compare, Ordering}
use Prim.Native.Char.{code}
use Prim.Native.String.{String}
use mathlib.Core.Path.{◌≡◌, refl, subst}
use mathlib.Core.Bool.{Bool, true, false, ◌&&◌}
use mathlib.Core.List.{List, [], ◌∷◌}
use mathlib.Core.Logic.{◌↔◌}
use native.Mathlib.Omega.{arith}
use lungo.Base.Tests.{◌==◌, then_compare, reverse_order, chains, chains-then, compare_ℕ-chains}

abbrev pub Text : Type 0
Text = List ℕ

-- The code points of a literal; these are its bytes, as every literal of the source is ASCII.
abbrev pub codes : String → Text
codes String.[] = []
codes (String.◌∷◌ c s) = code c ∷ codes s

unfoldable pub text_eq : Text → Text → Bool
text_eq [] [] = true
text_eq (a ∷ as') (b ∷ bs) = a == b && text_eq as' bs
text_eq _ _ = false

pub text_eq_self : (s : Text) → text_eq s s ≡ true
unfolding text_eq
text_eq_self [] = refl
text_eq_self (a ∷ s) = ground (arith, text_eq_self s)

pub text_eq_sound : (s t : Text) → text_eq s t ≡ true → s ≡ t
unfolding text_eq
text_eq_sound [] [] h = refl
text_eq_sound [] (b ∷ t) h = ground arith
text_eq_sound (a ∷ s) [] h = ground arith
text_eq_sound (a ∷ s) (b ∷ t) h = ground (arith, text_eq_sound s t)

pub text_eq_iff : (s t : Text) → (text_eq s t ≡ true) ↔ (s ≡ t)
text_eq_iff s t = (text_eq_sound s t, λ e. subst (λ x. text_eq s x ≡ true) e (text_eq_self s))

-- `strings.Compare` and `bytes.Compare`: lexicographic on bytes.
unfoldable pub compare_text : Text → Text → Ordering
compare_text [] [] = Ordering.eq
compare_text [] (b ∷ t) = Ordering.lt
compare_text (a ∷ s) [] = Ordering.gt
compare_text (a ∷ s) (b ∷ t) = then_compare (compare a b) (compare_text s t)

pub compare_text_self : (s : Text) → compare_text s s ≡ Ordering.eq
unfolding compare_text
compare_text_self [] = refl
compare_text_self (a ∷ s) = ground (arith, compare_text_self s)

pub compare_text-anti : (s t : Text) → compare_text s t ≡ reverse_order (compare_text t s)
unfolding compare_text
compare_text-anti [] [] = refl
compare_text-anti [] (b ∷ t) = refl
compare_text-anti (a ∷ s) [] = refl
compare_text-anti (a ∷ s) (b ∷ t) = ground (arith, compare_text-anti s t)

pub compare_text-chains :
    (s t u : Text) → chains (compare_text s t) (compare_text t u) (compare_text s u) ≡ true
unfolding compare_text
compare_text-chains [] [] [] = refl
compare_text-chains [] [] (c ∷ u) = refl
compare_text-chains [] (b ∷ t) [] = refl
compare_text-chains [] (b ∷ t) (c ∷ u) = ground arith
compare_text-chains (a ∷ s) [] [] = refl
compare_text-chains (a ∷ s) [] (c ∷ u) = refl
compare_text-chains (a ∷ s) (b ∷ t) [] = ground arith
compare_text-chains (a ∷ s) (b ∷ t) (c ∷ u) =
    chains-then _ _ _ _ _ _ (compare_ℕ-chains a b c) (compare_text-chains s t u)

pub compare_text-eq : (s t : Text) → compare_text s t ≡ Ordering.eq → s ≡ t
unfolding compare_text
compare_text-eq [] [] h = refl
compare_text-eq [] (b ∷ t) h = ground arith
compare_text-eq (a ∷ s) [] h = ground arith
compare_text-eq (a ∷ s) (b ∷ t) h = ground (arith, compare_text-eq s t)
