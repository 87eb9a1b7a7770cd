-- ===== src/ControlPlane/Store/Results/Bound.antt =====
-- The bound on the result cache of store.py, and what it keeps.
use mathlib.Core.Path.{subst}
use paperless_assistant.Base.{
  ℕ, ◌-◌, ◌≤◌, ◌≡◌, refl, sym, ◌∙◌, inl, inr, true, String, Option, none, some, List, [], ◌∷◌,
  arith, Bool-cases, length, take, filter, length-take, ltb, ◌==◌, nat_eq, string_eq, pair_eq,
  if◌then◌else◌, contains, Distinct, contains-take, Distinct-take,
}
use paperless_assistant.Base.Dict.{Dict, insert}
use paperless_assistant.Base.Json.{Json}
use paperless_assistant.ControlPlane.Store.{ResultEntry, Store}
use paperless_assistant.ControlPlane.Store.Results.{
  ids, is_stale, sort_by_ack, drop_stale, evict_oldest, store_result, ack, results_count,
}
use paperless_assistant.ControlPlane.Store.Results.Ids.{
  AllIn, length-pop_all, Distinct-ids-pop_all, contains-ids-sort_by_ack, Distinct-ids-sort_by_ack,
  length-sort_by_ack, ids-take, length-ids,
}

contains-take-true :
    (n : ℕ) (k : String) (xs : List String) → contains k (take n xs) ≡ true → contains k xs ≡ true
contains-take-true n k xs h = elim (Bool-cases (contains k xs)) [
  | inl there ↦ there
  | inr gone ↦ cc (contains-take n k xs gone)
]

AllIn-sub :
    (ks : List String) (d : Dict String ResultEntry)
    → ((k : String) → contains k ks ≡ true → contains k (ids d) ≡ true)
    → AllIn ks d
AllIn-sub [] d h = tt
AllIn-sub (k ∷ ks) d h =
    (h k (ground (arith, string_eq.test_iff k k)), AllIn-sub ks d (λ j there. h j (ground arith)))

module _ (d : Dict String ResultEntry) (distinct : Distinct (ids d)) where
  -- the ids that `evict_oldest` pops
  evicted-Distinct : (n : ℕ) → Distinct (ids (take n (sort_by_ack d)))
  evicted-Distinct n =
      rw ids-take (Distinct-take n (ids (sort_by_ack d)) (Distinct-ids-sort_by_ack d distinct))

  evicted-AllIn : (n : ℕ) → AllIn (ids (take n (sort_by_ack d))) d
  evicted-AllIn n = AllIn-sub (ids (take n (sort_by_ack d))) d λ k there.
      sym (contains-ids-sort_by_ack k d)
      ∙ contains-take-true n k (ids (sort_by_ack d)) (rw ids-take at there)

  pub length-evict_oldest : (max : ℕ) → length (evict_oldest max d) ≤ max
  unfolding evict_oldest
  length-evict_oldest max =
      let over = length d - max in
      ground (
        arith,
        length-pop_all (ids (take over (sort_by_ack d))) d (evicted-Distinct over)
            (evicted-AllIn over),
        length-ids (take over (sort_by_ack d)),
        length-take over (sort_by_ack d),
        length-sort_by_ack d,
      )

Distinct-evict_oldest :
    (max : ℕ) (d : Dict String ResultEntry) → Distinct (ids d) → Distinct (ids (evict_oldest max d))
unfolding evict_oldest
Distinct-evict_oldest max d h = elim (Bool-cases (ltb 0 (length d - max))) [
  | inl over ↦ rw over (Distinct-ids-pop_all (ids (take (length d - max) (sort_by_ack d))) d h)
  | inr fits ↦ rw fits h
]

Distinct-drop_stale :
    (ttl now : ℕ) (d : Dict String ResultEntry)
    → Distinct (ids d)
    → Distinct (ids (drop_stale ttl now d))
unfolding drop_stale
Distinct-drop_stale ttl now d h = elim (Bool-cases (ltb 0 ttl)) [
  | inl limited ↦ rw limited (Distinct-ids-pop_all (ids (filter (is_stale ttl now) d)) d h)
  | inr forever ↦ rw forever h
]

pub contains-ids-insert :
    (k j : String) (v : ResultEntry) (d : Dict String ResultEntry)
    → contains j (ids (insert k v d)) ≡ (if k == j then true else contains j (ids d))
unfolding insert
contains-ids-insert k j v [] = ground arith
contains-ids-insert k j v ((i, w) ∷ d) = ground (
  arith,
  contains-ids-insert k j v d,
  string_eq.test_iff i k,
  string_eq.test_iff i j,
  string_eq.test_iff k j,
)

pub Distinct-ids-insert :
    (k : String) (v : ResultEntry) (d : Dict String ResultEntry)
    → Distinct (ids d)
    → Distinct (ids (insert k v d))
unfolding insert
Distinct-ids-insert k v [] h = (refl, tt)
Distinct-ids-insert k v ((i, w) ∷ d) h = ground (
  arith,
  Distinct-ids-insert k v d h.1,
  contains-ids-insert k i v d,
  string_eq.test_iff i k,
  string_eq.test_iff k i,
)

-- The ids of the cache are distinct, and there are at most `results_max` of them.
pub record ResultsValid (s : Store) : Type 0 where
  pub distinct : Distinct (ids s.results)
  pub bounded : results_count s ≤ s.results_max

-- The cache of results stays within `results_max` entries under distinct ids, whatever is
-- acknowledged, at whatever readings of the clock.
pub ack-ResultsValid :
    (now now' : ℕ) (tenant agent_id job_id : String) (result : Option Json) (s : Store)
    → ResultsValid s
    → ResultsValid (ack now now' tenant agent_id job_id result s).1
unfolding ack store_result results_count
ack-ResultsValid now now' tenant agent_id job_id none s h = record {
  distinct = h.distinct;
  bounded = h.bounded;
}
ack-ResultsValid now now' tenant agent_id job_id (some result) s h =
    let d = insert job_id (record { result = result; acked_at = now }) s.results in
    let fresh = drop_stale s.results_ttl now' d in
    let distinct =
      Distinct-drop_stale s.results_ttl now' d
        (Distinct-ids-insert job_id _ s.results h.distinct) in
    record {
      distinct = Distinct-evict_oldest s.results_max fresh distinct;
      bounded = length-evict_oldest fresh distinct s.results_max;
    }

pub ResultsValid-same :
    (s s' : Store)
    → s'.results ≡ s.results
    → s'.results_max ≡ s.results_max
    → ResultsValid s
    → ResultsValid s'
unfolding results_count
ResultsValid-same s s' r m h = record {
  distinct = subst (λ d. Distinct (ids d)) (sym r) h.distinct;
  bounded =
      subst (λ max. length s'.results ≤ max) (sym m)
        (subst (λ d. length d ≤ s.results_max) (sym r) h.bounded);
}
