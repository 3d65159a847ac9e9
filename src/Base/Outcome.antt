-- ===== src/Base/Outcome.antt =====
-- Results of the source's functions: a value, or one of its errors. An error's constructor stands
-- for its message, with the operator, key or path that the message names.
use mathlib.Core.Path.{◌≡◌, refl, ap}
use mathlib.Core.Logic.{◌⊎◌, inl, inr}
use native.Mathlib.Omega.{arith}
use mathlib.Core.Bool.{Bool, true, false}
use lungo.Base.Tests.{if◌then◌else◌}
use lungo.Base.Bytes.{Text}

pub data Failure : Type 0 where
  -- ErrNotMatched of mongokit/match.go
  not_matched : Failure
  -- a type assertion that fails, or an index out of range
  panic : Failure
  -- belongs to the model only
  out_of_fuel : Failure
  cannot_put : Text → Failure
  cannot_push : Text → Failure
  not_an_array : Text → Failure
  unknown_top_level_operator : Text → Failure
  unknown_expression_operator : Text → Failure
  expected_operator : Text → Failure
  missing_default_operator : Failure
  expected_document : Text → Failure
  expected_array : Text → Failure
  expected_documents : Text → Failure
  empty_array : Text → Failure
  empty_document : Text → Failure
  unknown_comparison : Text → Failure
  unknown_type_string : Text → Failure
  unknown_type_number : Text → Failure
  expected_string_or_number : Text → Failure
  expected_number : Text → Failure
  expected_direction : Text → Failure
  empty_index_key : Failure
  expiring_compound_index : Failure
  duplicate_document : Text → Failure
  missing_in_index : Text → Failure
  cannot_add_document : Failure
  cannot_replace_document : Failure
  cannot_remove_document : Failure
  immutable_id : Failure
  exclusive_upsert : Failure
  mismatched_id : Failure
  same_index_key : Text → Failure
  missing_index : Text → Failure
  positional_operator : Text → Failure
  conflicting_key : Text → Failure
  expected_string : Text → Failure
  array_path : Text → Failure
  expected_sign : Text → Failure
  expected_type : Text → Failure
  empty_update : Failure
  not_a_number : Text → Failure
  invalid_projection : Text → Failure
  mixed_projection : Failure
  missing_database : Failure
  missing_collection : Failure
  read_only : Failure
  missing_namespace : Text → Failure
  unsupported_opcode : Failure
  other_failure : Text → Failure

pub data Result {ℓ} (A : Type ℓ) : Type ℓ where
  ok : A → Result A
  fail : Failure → Result A

infixl 5 ◌>>=◌
abbrev pub ◌>>=◌ {ℓ κ} : {A : Type ℓ} {B : Type κ} → Result A → (A → Result B) → Result B
ok a >>= f = f a
fail e >>= f = fail e

pub Result-cases {ℓ} :
    {A : Type ℓ} (r : Result A) → ((a : A) × (r ≡ ok a)) ⊎ ((e : Failure) × (r ≡ fail e))
Result-cases (ok a) = inl (a, refl)
Result-cases (fail e) = inr (e, refl)

pub bind-ok {ℓ κ} :
    {A : Type ℓ} {B : Type κ} (r : Result A) (f : A → Result B) (b : B)
    → (r >>= f) ≡ ok b
    → (a : A) × (r ≡ ok a) × (f a ≡ ok b)
bind-ok (ok a) f b h = (a, refl, h)
bind-ok (fail e) f b h = ground arith

pub ok_injective {ℓ} : {A : Type ℓ} {a b : A} → ok a ≡ ok b → a ≡ b
ok_injective {A} {a} h = ap (λ r. elim r [ ok x ↦ x | fail _ ↦ a ]) h

-- A conditional with an error in one branch.
pub then-ok {ℓ} :
    {A : Type ℓ} (b : Bool) (r : Result A) (e : Failure) (a : A)
    → (if b then r else fail e) ≡ ok a
    → (b ≡ true) × (r ≡ ok a)
then-ok true r e a h = (refl, h)
then-ok false r e a h = cc

pub else-ok {ℓ} :
    {A : Type ℓ} (b : Bool) (r : Result A) (e : Failure) (a : A)
    → (if b then fail e else r) ≡ ok a
    → (b ≡ false) × (r ≡ ok a)
else-ok true r e a h = cc
else-ok false r e a h = (refl, h)

-- A conditional of two results, what each of which says if it is a value.
pub ite_ok {ℓ κ} :
    {A : Type ℓ} {C : Type κ} (b : Bool) (r r' : Result A) (a : A)
    → (if b then r else r') ≡ ok a
    → (r ≡ ok a → C)
    → (r' ≡ ok a → C)
    → C
ite_ok true r r' a h k k' = k h
ite_ok false r r' a h k k' = k' h
