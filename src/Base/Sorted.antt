-- ===== src/Base/Sorted.antt =====
-- Python's `sorted(set(xs))` of texts.
use Prim.Native.Nat.{Ordering}
use Prim.Native.String.{String, compare}
use mathlib.Core.Path.{◌≡◌, refl}
use mathlib.Core.List.{List, [], ◌∷◌}
use native.Mathlib.Omega.{arith}
use paperless_assistant.Base.Tests.{if◌then◌else◌}
use paperless_assistant.Base.Equality.{◌==◌, string_eq}
use paperless_assistant.Base.Membership.{contains}

-- the next smallest text goes to its place, a text that is there is not added again
unfoldable pub insert_sorted : String → List String → List String
insert_sorted k [] = k ∷ []
insert_sorted k (x ∷ xs) =
    let rest = insert_sorted k xs in
    if x == k then x ∷ xs else elim (compare k x) [ Ordering.lt ↦ k ∷ x ∷ xs | _ ↦ x ∷ rest ]

unfoldable pub sorted_set : List String → List String
unfolding insert_sorted
sorted_set [] = []
sorted_set (x ∷ xs) = insert_sorted x (sorted_set xs)

contains-insert_sorted :
    (k j : String) (xs : List String) → contains j (insert_sorted k xs) ≡ contains j (k ∷ xs)
unfolding insert_sorted
contains-insert_sorted k j [] = refl
contains-insert_sorted k j (x ∷ xs) = ground (
  arith,
  contains-insert_sorted k j xs,
  string_eq.test_iff x k,
  string_eq.test_iff x j,
  string_eq.test_iff k j,
)

pub contains-sorted_set :
    (j : String) (xs : List String) → contains j (sorted_set xs) ≡ contains j xs
unfolding sorted_set
contains-sorted_set j [] = refl
contains-sorted_set j (x ∷ xs) =
    ground (arith, contains-insert_sorted x j (sorted_set xs), contains-sorted_set j xs)
