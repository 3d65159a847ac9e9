-- ===== src/Mongokit/Match/Fuel.antt =====
-- The operators of mongokit/match.go that hold no query never ask for a level of queries.
use lungo.Base.{
  ◌≢◌, Bool, true, false, Option, none, some, if_both, Text, ok, fail, ◌>>=◌, Failure, not_matched,
  out_of_fuel, unknown_comparison, expected_number, arith,
}
use lungo.Bsonkit.Value.{
  Value, int32, int64, double, string, array, boolean, Items, empty, item, Fields, as_array?,
}
use lungo.Bsonkit.Number.{Numerics}
use lungo.Bsonkit.Access.{all}
use lungo.Mongokit.Match.{
  Verdict, verdict, match_negate, or_next, unwind_items, match_unwind, match_comp, comp_test,
  comp_ok, match_in, in_test, match_nin, match_exists, match_type, match_all, all_test, match_size,
  size_test,
}
use lungo.Bsonkit.Value.{BsonType}
use lungo.Bsonkit.TypeNames.{type_of_alias, type_of_number, same_type}

-- The levels did not run out.
abbrev pub Runs : Verdict → Type 0
Runs r = r ≢ fail out_of_fuel

pub ok-Runs : Runs (ok tt)
ok-Runs h = cc

mismatch-Runs : Runs (fail not_matched)
mismatch-Runs e = cc

comparison-Runs : (op : Text) → Runs (fail (unknown_comparison op))
comparison-Runs op e = cc

number-Runs : (name : Text) → Runs (fail (expected_number name))
number-Runs name e = cc

pub verdict-Runs : (b : Bool) → Runs (verdict b)
verdict-Runs true = λ h. cc
verdict-Runs false = λ h. cc

pub bind-Runs : (m : Verdict) (f : Unit {0} → Verdict) → Runs m → Runs (f tt) → Runs (m >>= f)
bind-Runs (ok t) f h k = k
bind-Runs (fail e) f h k = h

pub or_next-Runs : (m r : Verdict) → Runs m → Runs r → Runs (or_next m r)
or_next-Runs (ok t) r h k = h
or_next-Runs (fail not_matched) r h k = k
or_next-Runs (fail e) r h k = h

pub match_negate-Runs : (m : Verdict) → Runs m → Runs (match_negate m)
match_negate-Runs (ok t) h = λ e. cc
match_negate-Runs (fail not_matched) h = λ e. cc
match_negate-Runs (fail e) h = h

-- The operators that hold no query.
unwind_items-Runs :
    (op : Value → Verdict) (xs : Items) (next : Verdict)
    → ((x : Value) → Runs (op x))
    → Runs next
    → Runs (unwind_items op xs next)
unfolding unwind_items
unwind_items-Runs op empty next h k = k
unwind_items-Runs op (item v xs) next h k =
    or_next-Runs (op v) _ (h v) (unwind_items-Runs op xs next h k)

unwind-Runs :
    (o : Option Items) (op : Value → Verdict) (last : Verdict)
    → ((x : Value) → Runs (op x))
    → Runs last
    → Runs (elim o [ none ↦ last | some xs ↦ unwind_items op xs last ])
unwind-Runs none op last h k = k
unwind-Runs (some xs) op last h k = unwind_items-Runs op xs last h k

match_unwind-Runs :
    (d : Fields) (path : Text) (merge yield_merge : Bool) (op : Value → Verdict)
    → ((x : Value) → Runs (op x))
    → Runs (match_unwind d path merge yield_merge op)
unfolding match_unwind
match_unwind-Runs d path merge yield_merge op h =
    unwind-Runs (as_array? (all d path true merge).0) op _ h
      (if_both Runs _ (h (all d path true merge).0) mismatch-Runs)

comp_test-Runs : (ar : Numerics) (op : Text) (v x : Value) → Runs (comp_test ar op v x)
unfolding comp_test
comp_test-Runs ar op v x = given (comp_ok op _ _)
  where
    given :
        (o : Option Bool)
        → Runs (elim o [ none ↦ fail (unknown_comparison op) | some b ↦ verdict b ])
    given none = comparison-Runs op
    given (some b) = verdict-Runs b

in_test-Runs : (ar : Numerics) (name : Text) (v x : Value) → Runs (in_test ar name v x)
unfolding in_test
in_test-Runs ar name (array xs) x = verdict-Runs _
in_test-Runs ar name _ x = λ e. cc

all_test-Runs : (ar : Numerics) (name : Text) (v x : Value) → Runs (all_test ar name v x)
unfolding all_test
all_test-Runs ar name (array empty) x = λ e. cc
all_test-Runs ar name (array (item w ws)) x = if_both Runs _ ok-Runs (verdict-Runs _)
all_test-Runs ar name _ x = λ e. cc

size_test-Runs : (ar : Numerics) (name : Text) (v x : Value) → Runs (size_test ar name v x)
unfolding size_test
size_test-Runs ar name v (array xs) = if_both Runs _ (verdict-Runs _) (number-Runs name)
size_test-Runs ar name v _ = if_both Runs _ mismatch-Runs (number-Runs name)

pub match_comp-Runs :
    (ar : Numerics) (d : Fields) (op path : Text) (v : Value) → Runs (match_comp ar d op path v)
unfolding match_comp
match_comp-Runs ar d op path v = match_unwind-Runs d path true false _ (comp_test-Runs ar op v)

pub match_in-Runs :
    (ar : Numerics) (d : Fields) (name path : Text) (v : Value) → Runs (match_in ar d name path v)
unfolding match_in
match_in-Runs ar d name path v = match_unwind-Runs d path true false _ (in_test-Runs ar name v)

pub match_nin-Runs :
    (ar : Numerics) (d : Fields) (name path : Text) (v : Value) → Runs (match_nin ar d name path v)
unfolding match_nin
match_nin-Runs ar d name path v = match_negate-Runs _ (match_in-Runs ar d name path v)

pub match_all-Runs :
    (ar : Numerics) (d : Fields) (name path : Text) (v : Value) → Runs (match_all ar d name path v)
unfolding match_all
match_all-Runs ar d name path v = match_unwind-Runs d path false true _ (all_test-Runs ar name v)

pub match_size-Runs :
    (ar : Numerics) (d : Fields) (name path : Text) (v : Value) → Runs (match_size ar d name path v)
unfolding match_size
match_size-Runs ar d name path v = match_unwind-Runs d path false false _ (size_test-Runs ar name v)

pub match_exists-Runs : (d : Fields) (path : Text) (v : Value) → Runs (match_exists d path v)
unfolding match_exists
match_exists-Runs d path (boolean false) = verdict-Runs _
match_exists-Runs d path _ = verdict-Runs _

same_type-Runs :
    (o : Option (Option BsonType)) (t : BsonType) (e : Failure)
    → e ≢ out_of_fuel
    → Runs (elim o [ none ↦ fail e | some s ↦ verdict (same_type s t) ])
same_type-Runs none t e h = λ k. h (ground arith)
same_type-Runs (some s) t e h = verdict-Runs _

pub match_type-Runs :
    (ar : Numerics) (d : Fields) (name path : Text) (v : Value) → Runs (match_type ar d name path v)
unfolding match_type
match_type-Runs ar d name path (string s) =
    if_both Runs _ (verdict-Runs _) (same_type-Runs (type_of_alias s) _ _ (λ e. cc))
match_type-Runs ar d name path (int32 z) = same_type-Runs (type_of_number _) _ _ (λ e. cc)
match_type-Runs ar d name path (int64 z) = same_type-Runs (type_of_number _) _ _ (λ e. cc)
match_type-Runs ar d name path (double b) = same_type-Runs (type_of_number _) _ _ (λ e. cc)
match_type-Runs ar d name path _ = λ e. cc
