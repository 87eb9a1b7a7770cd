-- ===== src/Base/Membership.antt =====
-- Membership by an equality test, and lists without repetition.
use Prim.Native.Nat.{ℕ, zero, suc}
use mathlib.Core.Path.{◌≡◌, refl}
use mathlib.Core.Bool.{Bool, true, false, not, ◌||◌}
use mathlib.Core.List.{List, [], ◌∷◌, ◌++◌}
use native.Mathlib.Omega.{arith}
use paperless_assistant.Base.Tests.{if◌then◌else◌}
use paperless_assistant.Base.Equality.{Eq, ◌==◌}
use paperless_assistant.Base.Lists.{take, filter}

module _ {A : Type 0} ⦃e : Eq A⦄ where
  -- `k in xs`
  abbrev pub contains : A → List A → Bool
  contains k [] = false
  contains k (x ∷ xs) = let rest = contains k xs in if x == k then true else rest

  -- `[x for x in xs if x != k]`
  abbrev pub without : A → List A → List A
  without k xs = filter (λ x. not (x == k)) xs

  abbrev pub Distinct : List A → Type 0
  Distinct [] = Unit
  Distinct (x ∷ xs) = (contains x xs ≡ false) × Distinct xs

  pub contains-append :
      (k : A) (xs ys : List A) → contains k (xs ++ ys) ≡ contains k xs || contains k ys
  contains-append k [] ys = refl
  contains-append k (x ∷ xs) ys = ground (arith, contains-append k xs ys)

  pub contains-without :
      (k j : A) (xs : List A)
      → contains j (without k xs) ≡ (if k == j then false else contains j xs)
  contains-without k j [] = ground arith
  contains-without k j (x ∷ xs) =
      ground (arith, contains-without k j xs, e.test_iff x k, e.test_iff x j, e.test_iff k j)

  pub Distinct-without : (k : A) (xs : List A) → Distinct xs → Distinct (without k xs)
  Distinct-without k [] h = tt
  Distinct-without k (x ∷ xs) h = ground (arith, Distinct-without k xs h.1, contains-without k x xs)

  pub Distinct-append_one :
      (xs : List A) (k : A) → Distinct xs → contains k xs ≡ false → Distinct (xs ++ k ∷ [])
  Distinct-append_one [] k h n = (refl, tt)
  Distinct-append_one (x ∷ xs) k h n = ground (
    arith,
    Distinct-append_one xs k h.1,
    contains-append x xs (k ∷ []),
    e.test_iff x k,
    e.test_iff k x,
  )

  pub without_absent : (k : A) (xs : List A) → contains k xs ≡ false → without k xs ≡ xs
  without_absent k [] h = refl
  without_absent k (x ∷ xs) h = ground (arith, without_absent k xs)

  pub contains-take :
      (n : ℕ) (k : A) (xs : List A) → contains k xs ≡ false → contains k (take n xs) ≡ false
  contains-take zero k xs h = refl
  contains-take (suc n) k [] h = refl
  contains-take (suc n) k (x ∷ xs) h = ground (arith, contains-take n k xs)

  pub Distinct-take : (n : ℕ) (xs : List A) → Distinct xs → Distinct (take n xs)
  Distinct-take zero xs h = tt
  Distinct-take (suc n) [] h = tt
  Distinct-take (suc n) (x ∷ xs) h = (contains-take n x xs h.0, Distinct-take n xs h.1)
