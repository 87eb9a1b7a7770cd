-- ===== src/ControlPlane/Store/Results/Ids.antt =====
-- The ids in the result cache: what popping, sorting and taking do to them.
use paperless_assistant.Base.{
  ℕ, zero, suc, ◌+◌, ◌≤◌, ◌≡◌, refl, ap, ◌∙◌, true, false, String, List, [], ◌∷◌, arith, All,
  length, take, ◌==◌, nat_eq, string_eq, pair_eq, if◌then◌else◌, contains, Distinct,
}
use paperless_assistant.Base.Dict.{Dict, lookup, erase, lookup-erase, length-erase-le}
use paperless_assistant.ControlPlane.Store.{ResultEntry}
use paperless_assistant.ControlPlane.Store.Results.{pop_all, ids, insert_by_ack, sort_by_ack}

pub contains-ids-erase :
    (k j : String) (d : Dict String ResultEntry)
    → contains j (ids (erase k d)) ≡ (if k == j then false else contains j (ids d))
unfolding erase
contains-ids-erase k j [] = ground arith
contains-ids-erase k j ((i, v) ∷ d) = ground (
  arith,
  contains-ids-erase k j d,
  string_eq.test_iff i k,
  string_eq.test_iff i j,
  string_eq.test_iff k j,
)

Distinct-ids-erase :
    (k : String) (d : Dict String ResultEntry) → Distinct (ids d) → Distinct (ids (erase k d))
unfolding erase
Distinct-ids-erase k [] h = tt
Distinct-ids-erase k ((i, v) ∷ d) h =
    ground (arith, Distinct-ids-erase k d h.1, contains-ids-erase k i d)

length-erase :
    (k : String) (d : Dict String ResultEntry)
    → contains k (ids d) ≡ true
    → length (erase k d) + 1 ≤ length d
unfolding erase
length-erase k [] h = cc
length-erase k ((i, v) ∷ d) h = ground (arith, length-erase k d, length-erase-le k d)

-- Every id of `ks` is in `d`.
abbrev pub AllIn : List String → Dict String ResultEntry → Type 0
AllIn ks d = All (λ k. contains k (ids d) ≡ true) ks

AllIn-erase :
    (k : String) (ks : List String) (d : Dict String ResultEntry)
    → contains k ks ≡ false
    → AllIn ks d
    → AllIn ks (erase k d)
AllIn-erase k [] d n h = tt
AllIn-erase k (j ∷ ks) d n h = (
  ground (arith, contains-ids-erase k j d, string_eq.test_iff k j, string_eq.test_iff j k),
  AllIn-erase k ks d (ground arith) h.1,
)

-- Popping distinct ids that are there shortens the cache by their number.
pub length-pop_all :
    (ks : List String) (d : Dict String ResultEntry)
    → Distinct ks
    → AllIn ks d
    → length (pop_all ks d) + length ks ≤ length d
unfolding pop_all
length-pop_all [] d h a = omega arith
length-pop_all (k ∷ ks) d h a =
    omega
      (arith, length-erase k d a.0, length-pop_all ks (erase k d) h.1 (AllIn-erase k ks d h.0 a.1))

pub length-pop_all-le :
    (ks : List String) (d : Dict String ResultEntry) → length (pop_all ks d) ≤ length d
unfolding pop_all
length-pop_all-le [] d = omega arith
length-pop_all-le (k ∷ ks) d = omega (arith, length-erase-le k d, length-pop_all-le ks (erase k d))

pub Distinct-ids-pop_all :
    (ks : List String) (d : Dict String ResultEntry)
    → Distinct (ids d)
    → Distinct (ids (pop_all ks d))
unfolding pop_all
Distinct-ids-pop_all [] d h = h
Distinct-ids-pop_all (k ∷ ks) d h = Distinct-ids-pop_all ks (erase k d) (Distinct-ids-erase k d h)

pub lookup-pop_all :
    (ks : List String) (j : String) (d : Dict String ResultEntry)
    → contains j ks ≡ false
    → lookup j (pop_all ks d) ≡ lookup j d
unfolding pop_all
lookup-pop_all [] j d h = refl
lookup-pop_all (k ∷ ks) j d h =
    lookup-pop_all ks j (erase k d) (ground arith) ∙ ground (arith, lookup-erase k j d)

contains-ids-insert_by_ack :
    (j : String) (x : String × ResultEntry) (d : Dict String ResultEntry)
    → contains j (ids (insert_by_ack x d)) ≡ contains j (ids (x ∷ d))
unfolding insert_by_ack
contains-ids-insert_by_ack j x [] = refl
contains-ids-insert_by_ack j x (y ∷ d) = ground (arith, contains-ids-insert_by_ack j x d)

Distinct-ids-insert_by_ack :
    (x : String × ResultEntry) (d : Dict String ResultEntry)
    → Distinct (ids (x ∷ d))
    → Distinct (ids (insert_by_ack x d))
unfolding insert_by_ack
Distinct-ids-insert_by_ack x [] h = h
Distinct-ids-insert_by_ack x (y ∷ d) h = ground (
  arith,
  Distinct-ids-insert_by_ack x d,
  contains-ids-insert_by_ack y.0 x d,
  string_eq.test_iff x.0 y.0,
  string_eq.test_iff y.0 x.0,
)

pub contains-ids-sort_by_ack :
    (j : String) (d : Dict String ResultEntry)
    → contains j (ids (sort_by_ack d)) ≡ contains j (ids d)
unfolding sort_by_ack
contains-ids-sort_by_ack j [] = refl
contains-ids-sort_by_ack j (x ∷ d) =
    contains-ids-insert_by_ack j x (sort_by_ack d) ∙ ground (arith, contains-ids-sort_by_ack j d)

pub Distinct-ids-sort_by_ack :
    (d : Dict String ResultEntry) → Distinct (ids d) → Distinct (ids (sort_by_ack d))
unfolding sort_by_ack
Distinct-ids-sort_by_ack [] h = tt
Distinct-ids-sort_by_ack (x ∷ d) h =
    Distinct-ids-insert_by_ack x (sort_by_ack d)
      (rw contains-ids-sort_by_ack h.0, Distinct-ids-sort_by_ack d h.1)

length-insert_by_ack :
    (x : String × ResultEntry) (d : Dict String ResultEntry)
    → length (insert_by_ack x d) ≡ length d + 1
unfolding insert_by_ack
length-insert_by_ack x [] = omega arith
length-insert_by_ack x (y ∷ d) = ground (arith, length-insert_by_ack x d)

pub length-sort_by_ack : (d : Dict String ResultEntry) → length (sort_by_ack d) ≡ length d
unfolding sort_by_ack
length-sort_by_ack [] = refl
length-sort_by_ack (x ∷ d) =
    omega (arith, length-insert_by_ack x (sort_by_ack d), length-sort_by_ack d)

pub ids-take : (n : ℕ) (d : Dict String ResultEntry) → ids (take n d) ≡ take n (ids d)
ids-take zero d = refl
ids-take (suc n) [] = refl
ids-take (suc n) (x ∷ d) = ap (λ ks. x.0 ∷ ks) (ids-take n d)

pub length-ids : (d : Dict String ResultEntry) → length (ids d) ≡ length d
length-ids [] = refl
length-ids (x ∷ d) = ap suc (length-ids d)
