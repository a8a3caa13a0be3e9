-- ===== src/Tests/Group.antt =====
-- A group of two instances at concrete inputs, with room for four.
use lambda_objectstore.Base.{
  ℕ, zero, suc, ◌-◌, ◌≡◌, refl, sym, ap, Option, none, some, List, [], ◌∷◌, arith,
}
use mathlib.Core.Option.{some-injective}
use lambda_objectstore.Group.{
  Group, Resizing, expanding, expiring, resize_group, expand, expire, check_capacity, element,
  set_instance, swap, swapping, sub_group, all_instances, new_group,
}
use lambda_objectstore.Group.Resize.{IsGroup, Keeps, resize_group-Keeps}
use lambda_objectstore.Group.Indexed.{IsIndexed, element_range, Arranged, arrange-IsIndexed}

-- Instances 1, 2 and 3 have the indexes 0, 1 and 2.
abbrev pair : Group
pair = record {
  all = record { items = some 1 ∷ some 2 ∷ none ∷ none ∷ []; len = 2 };
  buff = record { items = none ∷ none ∷ none ∷ none ∷ []; len = 0 };
  idx_base = 0;
  idx = λ ins. ins - 1;
}

pair-IsGroup : IsGroup pair
pair-IsGroup = (omega arith, omega arith, omega arith, omega arith)

pair-IsIndexed : IsIndexed pair
unfolding element
pair-IsIndexed = (pair-IsGroup, own)
  where
    own : (i ins : ℕ) → element i pair ≡ some (some ins) → ins - 1 ≡ i
    own zero ins there = ap (λ n. n - 1) (sym (some-injective _ _ (some-injective _ _ there)))
    own (suc zero) ins there = ap (λ n. n - 1) (sym (some-injective _ _ (some-injective _ _ there)))
    own (suc (suc i)) ins there = absurd (omega (arith, (element_range (suc (suc i)) pair there).1))

abbrev then_do : Option Group → Resizing → Option Group
then_do none r = none
then_do (some g) r = resize_group r g

abbrev listed : Option Group → List (Option ℕ)
listed none = []
listed (some g) = all_instances g

-- Once all have expired, new entries hold the expired instances again until they are set.
test_stale :
    listed (then_do (then_do (then_do (some pair) (expiring 1)) (expiring 1)) (expanding 2))
    ≡ some 1 ∷ some 2 ∷ []
unfolding resize_group expand expire check_capacity
test_stale = refl

test_grown : listed (resize_group (expanding 3) pair) ≡ some 1 ∷ some 2 ∷ none ∷ none ∷ none ∷ []
unfolding resize_group expand check_capacity
test_grown = refl

test_sub_group : sub_group 1 3 pair ≡ some (some 2 ∷ none ∷ [])
unfolding sub_group
test_sub_group = refl

test_swap : listed (swap 1 2 pair) ≡ some 2 ∷ some 1 ∷ []
unfolding swap
test_swap = refl

test_new : listed (new_group 1 2 (λ ins. ins)) ≡ none ∷ []
unfolding new_group
test_new = refl

test_set : set_instance 3 pair ≡ none
unfolding set_instance
test_set = refl

resize_group-Keeps_example : Keeps (expiring 1) pair
resize_group-Keeps_example = resize_group-Keeps (expiring 1) pair pair-IsGroup

arrange-IsIndexed_example : Arranged (swapping 1 2) pair
arrange-IsIndexed_example = arrange-IsIndexed (swapping 1 2) pair pair-IsIndexed
