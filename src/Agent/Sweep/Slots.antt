-- ===== src/Agent/Sweep/Slots.antt =====
-- How many of the documents that the workers of sweep.py have in hand may still spend.
use paperless_assistant.Base.{
  ℕ, suc, ◌+◌, ◌≤◌, ◌≡◌, refl, ap, inl, inr, some, [], ◌∷◌, arith, Bool-cases, All, length, ◌==◌,
  nat_eq, string_eq, pair_eq,
}
use paperless_assistant.Base.Dict.{Dict, lookup, insert, erase}
use mathlib.Core.Path.{subst}
use paperless_assistant.Base.Money.{Usd}
use paperless_assistant.Agent.Sweep.{Outcome, finished, raised, Phase, taken, allowed, worked}

-- past the test of the caps, and not yet in the ledger
abbrev pub weight_of : Phase → ℕ
weight_of taken = 0
weight_of allowed = 1
weight_of (worked outcome) = 1

abbrev pub weight : Dict ℕ Phase → ℕ
weight [] = 0
weight ((doc_id, phase) ∷ running) = weight_of phase + weight running

-- what a document may cost at most, with half a unit of the sixth decimal place for the rounding
abbrev pub CostsAtMost : Usd → Outcome → Type 0
CostsAtMost limit (finished status cost) = cost + 50 ≤ limit
CostsAtMost limit (raised reason) = Unit

abbrev pub Cheap : Usd → Phase → Type 0
Cheap limit (worked outcome) = CostsAtMost limit outcome
Cheap limit _ = Unit

abbrev pub AllCheap : Usd → Dict ℕ Phase → Type 0
AllCheap limit running = All (λ (x : ℕ × Phase). Cheap limit x.1) running

weight_of-le : (p : Phase) → weight_of p ≤ 1
weight_of-le taken = omega arith
weight_of-le allowed = omega arith
weight_of-le (worked outcome) = omega arith

-- a new document in hand, which may not spend yet
pub insert-taken :
    (doc_id : ℕ) (running : Dict ℕ Phase)
    → (length (insert doc_id taken running) ≤ suc (length running))
      × (weight (insert doc_id taken running) ≤ weight running)
unfolding insert
insert-taken doc_id [] = ground arith
insert-taken doc_id ((other, phase) ∷ running) = ground (arith, insert-taken doc_id running)

-- a document that is in hand and goes on
pub insert-phase :
    (doc_id : ℕ) (old new : Phase) (running : Dict ℕ Phase)
    → lookup doc_id running ≡ some old
    → (length (insert doc_id new running) ≡ length running)
      × (weight (insert doc_id new running) + weight_of old ≡ weight running + weight_of new)
unfolding insert lookup
insert-phase doc_id old new [] h = absurd (ground (arith, h))
insert-phase doc_id old new ((other, phase) ∷ running) h = elim (Bool-cases (other == doc_id)) [
  | inl same ↦
      let e : phase ≡ old = ground (arith, h, same) in
      rw same (refl, ground (arith, ap weight_of e))
  | inr different ↦
      let rest = insert-phase doc_id old new running (ground (arith, h, different)) in
      rw different (ground (arith, rest), ground (arith, rest))
]

pub weight-le : (running : Dict ℕ Phase) → weight running ≤ length running
weight-le [] = omega arith
weight-le ((other, phase) ∷ running) = omega (arith, weight_of-le phase, weight-le running)

-- while one is in hand that may not spend, fewer may spend than are in hand
pub weight-lt :
    (doc_id : ℕ) (running : Dict ℕ Phase)
    → lookup doc_id running ≡ some taken
    → weight running + 1 ≤ length running
unfolding lookup
weight-lt doc_id [] h = absurd (ground (arith, h))
weight-lt doc_id ((other, phase) ∷ running) h = elim (Bool-cases (other == doc_id)) [
  | inl same ↦
      let e : phase ≡ taken = ground (arith, h, same) in
      omega (arith, ap weight_of e, weight-le running)
  | inr different ↦
      let rest = weight-lt doc_id running (ground (arith, h, different)) in
      omega (arith, rest, weight_of-le phase)
]

weight-erase-le :
    (doc_id : ℕ) (running : Dict ℕ Phase)
    → (length (erase doc_id running) ≤ length running)
      × (weight (erase doc_id running) ≤ weight running)
unfolding erase
weight-erase-le doc_id [] = ground arith
weight-erase-le doc_id ((other, phase) ∷ running) = ground (arith, weight-erase-le doc_id running)

pub weight-erase :
    (doc_id : ℕ) (old : Phase) (running : Dict ℕ Phase)
    → lookup doc_id running ≡ some old
    → (length (erase doc_id running) ≤ length running)
      × (weight (erase doc_id running) + weight_of old ≤ weight running)
unfolding erase lookup
weight-erase doc_id old [] h = absurd (ground (arith, h))
weight-erase doc_id old ((other, phase) ∷ running) h = elim (Bool-cases (other == doc_id)) [
  | inl same ↦
      let e : phase ≡ old = ground (arith, h, same) in
      let rest = weight-erase-le doc_id running in
      rw same (omega (arith, rest.0), omega (arith, rest.1, ap weight_of e))
  | inr different ↦
      let rest = weight-erase doc_id old running (ground (arith, h, different)) in
      rw different (omega (arith, rest.0), omega (arith, rest.1))
]

pub AllCheap-insert :
    (limit : Usd) (doc_id : ℕ) (phase : Phase) (running : Dict ℕ Phase)
    → Cheap limit phase
    → AllCheap limit running
    → AllCheap limit (insert doc_id phase running)
unfolding insert
AllCheap-insert limit doc_id phase [] c h = (c, tt)
AllCheap-insert limit doc_id phase ((other, old) ∷ running) c (first, h) =
    elim (Bool-cases (other == doc_id)) [
      | inl same ↦ rw same (c, h)
      | inr different ↦ rw different (first, AllCheap-insert limit doc_id phase running c h)
    ]

pub AllCheap-erase :
    (limit : Usd) (doc_id : ℕ) (running : Dict ℕ Phase)
    → AllCheap limit running
    → AllCheap limit (erase doc_id running)
unfolding erase
AllCheap-erase limit doc_id [] h = tt
AllCheap-erase limit doc_id ((other, old) ∷ running) (first, h) =
    elim (Bool-cases (other == doc_id)) [
      | inl same ↦ rw same (AllCheap-erase limit doc_id running h)
      | inr different ↦ rw different (first, AllCheap-erase limit doc_id running h)
    ]

pub lookup-Cheap :
    (limit : Usd) (doc_id : ℕ) (phase : Phase) (running : Dict ℕ Phase)
    → AllCheap limit running
    → lookup doc_id running ≡ some phase
    → Cheap limit phase
unfolding lookup
lookup-Cheap limit doc_id phase [] h e = absurd (ground (arith, e))
lookup-Cheap limit doc_id phase ((other, old) ∷ running) (first, h) e =
    elim (Bool-cases (other == doc_id)) [
      | inl same ↦ subst (Cheap limit) (ground (arith, e, same)) first
      | inr different ↦ lookup-Cheap limit doc_id phase running h (ground (arith, e, different))
    ]
