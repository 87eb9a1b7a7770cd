-- ===== src/Base/Dict.antt =====
-- Python's `dict` as an association list in insertion order: an assignment to a key that is there
-- keeps its place, a new key goes to the end.
use paperless_assistant.Base.Tests.{if◌then◌else◌}
use paperless_assistant.Base.Lists.{length}
use paperless_assistant.Base.Equality.{Eq, ◌==◌}
use Prim.Native.Nat.{◌≤◌}
use mathlib.Core.Path.{◌≡◌, refl}
use mathlib.Core.Logic.{◌≢◌, ◌⊎◌}
use mathlib.Core.Option.{Option, none, some}
use mathlib.Core.List.{List, [], ◌∷◌}
use native.Mathlib.Omega.{arith}

abbrev pub Dict : Type 0 → Type 0 → Type 0
Dict K V = List (K × V)

module _ {K V : Type 0} ⦃e : Eq K⦄ where
  -- `d.get(k)`
  unfoldable pub lookup : K → Dict K V → Option V
  lookup k [] = none
  lookup k ((j, v) ∷ d) = if j == k then some v else lookup k d

  -- `d[k] = v`
  unfoldable pub insert : K → V → Dict K V → Dict K V
  insert k v [] = (k, v) ∷ []
  insert k v ((j, w) ∷ d) = if j == k then (j, v) ∷ d else (j, w) ∷ insert k v d

  -- `d.pop(k, None)`
  unfoldable pub erase : K → Dict K V → Dict K V
  erase k [] = []
  erase k ((j, v) ∷ d) = let rest = erase k d in if j == k then rest else (j, v) ∷ rest

  -- `d.setdefault(k, v)`, which returns nothing here
  unfoldable pub set_default : K → V → Dict K V → Dict K V
  set_default k v d = elim (lookup k d) [ none ↦ insert k v d | some w ↦ d ]

  -- `d.get(k, v)`
  unfoldable pub get_or : K → V → Dict K V → V
  get_or k v d = elim (lookup k d) [ none ↦ v | some w ↦ w ]

  pub lookup-insert :
      (k j : K) (v : V) (d : Dict K V)
      → lookup j (insert k v d) ≡ (if k == j then some v else lookup j d)
  unfolding lookup insert
  lookup-insert k j v [] = refl
  lookup-insert k j v ((i, held) ∷ d) =
      ground (arith, e.test_iff k j, e.test_iff i k, e.test_iff i j, lookup-insert k j v d)

  pub lookup-erase :
      (k j : K) (d : Dict K V) → lookup j (erase k d) ≡ (if k == j then none else lookup j d)
  unfolding lookup erase
  lookup-erase k j [] = ground arith
  lookup-erase k j ((i, w) ∷ d) =
      ground (arith, e.test_iff k j, e.test_iff i k, e.test_iff i j, lookup-erase k j d)

  pub length-erase-le : (k : K) (d : Dict K V) → length (erase k d) ≤ length d
  unfolding erase
  length-erase-le k [] = omega arith
  length-erase-le k ((j, v) ∷ d) = ground (arith, length-erase-le k d)

  pub get_or-insert :
      (k j : K) (v w : V) (d : Dict K V)
      → get_or j w (insert k v d) ≡ (if k == j then v else get_or j w d)
  unfolding get_or
  get_or-insert k j v w d = ground (arith, lookup-insert k j v d)

  pub get_or-insert_self : (k : K) (v w : V) (d : Dict K V) → get_or k w (insert k v d) ≡ v
  get_or-insert_self k v w d = ground (arith, get_or-insert k k v w d, e.test_iff k k)

  pub lookup-insert_self : (k : K) (v : V) (d : Dict K V) → lookup k (insert k v d) ≡ some v
  lookup-insert_self k v d = ground (arith, lookup-insert k k v d, e.test_iff k k)

  pub lookup-insert_ne :
      (k j : K) (v : V) (d : Dict K V) → k ≢ j → lookup j (insert k v d) ≡ lookup j d
  lookup-insert_ne k j v d h = ground (arith, lookup-insert k j v d, e.test_iff k j)

  pub lookup-erase_self : (k : K) (d : Dict K V) → lookup k (erase k d) ≡ none
  lookup-erase_self k d = ground (arith, lookup-erase k k d, e.test_iff k k)

  pub get_or-insert_ne :
      (k j : K) (v w : V) (d : Dict K V) → k ≢ j → get_or j w (insert k v d) ≡ get_or j w d
  get_or-insert_ne k j v w d h = ground (arith, get_or-insert k j v w d, e.test_iff k j)

  -- what is found behind a write: the value that was written, or what was there
  pub lookup-insert_cases :
      (k j : K) (v w : V) (d : Dict K V)
      → lookup j (insert k v d) ≡ some w
      → ((k ≡ j) × (v ≡ w)) ⊎ ((k ≢ j) × (lookup j d ≡ some w))
  lookup-insert_cases k j v w d found = ground (arith, lookup-insert k j v d, e.test_iff k j)

  -- what is found behind an erasure was there
  pub lookup-erase_cases :
      (k j : K) (w : V) (d : Dict K V) → lookup j (erase k d) ≡ some w → lookup j d ≡ some w
  lookup-erase_cases k j w d found = ground (arith, lookup-erase k j d, e.test_iff k j)
