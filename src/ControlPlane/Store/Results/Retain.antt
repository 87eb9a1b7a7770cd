-- ===== src/ControlPlane/Store/Results/Retain.antt =====
-- The result that was just acknowledged stays in the cache of store.py.
use paperless_assistant.Base.{
  ℕ, ◌≤◌, ◌<◌, ◌≡◌, ap, ◌∙◌, inl, inr, true, false, String, some, [], ◌∷◌, arith, Bool-cases,
  length, filter, ltb, ltb→lt, nat_eq, string_eq, pair_eq, contains, Distinct,
}
use paperless_assistant.Base.Dict.{Dict, lookup, insert, lookup-insert_self}
use paperless_assistant.Base.Json.{Json}
use paperless_assistant.ControlPlane.Store.{ResultEntry, Store}
use paperless_assistant.ControlPlane.Store.Results.{
  ids, is_stale, drop_stale, evict_oldest, store_result, ack, result_for, results_count,
}
use paperless_assistant.ControlPlane.Store.Results.Ids.{lookup-pop_all, length-pop_all-le}
use paperless_assistant.ControlPlane.Store.Results.Bound.{ResultsValid, Distinct-ids-insert}
use paperless_assistant.ControlPlane.Store.Results.Newest.{
  NotAfter, lookup-evict_oldest, evict_oldest-fits, contains-ids-filter, IsYoung, drop_stale-append,
  NotAfter-drop_stale, absent-drop_stale, insert-absent, lookup-append_last,
}

-- A result under a new id.
retains_new :
    (now now' : ℕ) (id : String) (entry : ResultEntry) (s : Store)
    → contains id (ids s.results) ≡ false
    → 0 < s.results_max
    → NotAfter entry.acked_at s.results
    → IsYoung s.results_ttl now' entry.acked_at
    → lookup id
        (evict_oldest s.results_max (drop_stale s.results_ttl now' (insert id entry s.results)))
      ≡ some entry
retains_new now now' id entry s absent pos newest young =
    let fresh = drop_stale s.results_ttl now' s.results in
    let gone = absent-drop_stale s.results_ttl now' id s.results absent in
    ap (λ d. lookup id (evict_oldest s.results_max (drop_stale s.results_ttl now' d)))
      (insert-absent id entry s.results absent)
    ∙ ap (λ d. lookup id (evict_oldest s.results_max d))
        (drop_stale-append s.results_ttl now' id entry s.results absent young)
    ∙ lookup-evict_oldest s.results_max id entry fresh pos gone
        (NotAfter-drop_stale entry.acked_at s.results_ttl now' s.results newest)
    ∙ lookup-append_last id entry fresh gone

length-insert_present :
    (id : String) (v : ResultEntry) (d : Dict String ResultEntry)
    → contains id (ids d) ≡ true
    → length (insert id v d) ≡ length d
unfolding insert
length-insert_present id v [] h = cc
length-insert_present id v ((j, w) ∷ d) h = ground (arith, length-insert_present id v d)

-- Only an entry itself can bring its id among the stale ones.
young-filter :
    (ttl now : ℕ) (id : String) (entry : ResultEntry) (d : Dict String ResultEntry)
    → Distinct (ids d)
    → lookup id d ≡ some entry
    → is_stale ttl now (id, entry) ≡ false
    → contains id (ids (filter (is_stale ttl now) d)) ≡ false
unfolding lookup is_stale
young-filter ttl now id entry [] distinct found young = cc
young-filter ttl now id entry ((j, w) ∷ d) distinct found young = ground (
  arith,
  string_eq.test_iff j id,
  contains-ids-filter (is_stale ttl now) j d distinct.0,
  young-filter ttl now id entry d distinct.1,
)

lookup-drop_stale :
    (ttl now : ℕ) (id : String) (entry : ResultEntry) (d : Dict String ResultEntry)
    → Distinct (ids d)
    → lookup id d ≡ some entry
    → IsYoung ttl now entry.acked_at
    → lookup id (drop_stale ttl now d) ≡ some entry
unfolding drop_stale
lookup-drop_stale ttl now id entry d distinct found young = elim (Bool-cases (ltb 0 ttl)) [
  | inl limited ↦
      let stays : is_stale ttl now (id, entry) ≡ false =
        unfold is_stale in ground (arith, young (ltb→lt 0 ttl limited)) in
      rw limited (
        lookup-pop_all (ids (filter (is_stale ttl now) d)) id d
          (young-filter ttl now id entry d distinct found stays)
        ∙ found)
  | inr forever ↦ rw forever found
]

length-drop_stale-le :
    (ttl now : ℕ) (d : Dict String ResultEntry) → length (drop_stale ttl now d) ≤ length d
unfolding drop_stale
length-drop_stale-le ttl now d =
    ground (arith, length-pop_all-le (ids (filter (is_stale ttl now) d)) d)

-- A result under an id that is there already.
retains_old :
    (now' : ℕ) (id : String) (entry : ResultEntry) (s : Store)
    → ResultsValid s
    → contains id (ids s.results) ≡ true
    → IsYoung s.results_ttl now' entry.acked_at
    → lookup id
        (evict_oldest s.results_max (drop_stale s.results_ttl now' (insert id entry s.results)))
      ≡ some entry
unfolding results_count
retains_old now' id entry s valid there young =
    let d = insert id entry s.results in
    ap (lookup id) (
      evict_oldest-fits s.results_max (drop_stale s.results_ttl now' d) (
        omega (
          arith,
          length-drop_stale-le s.results_ttl now' d,
          length-insert_present id entry s.results there,
          valid.bounded,
        )))
    ∙ lookup-drop_stale s.results_ttl now' id entry d
        (Distinct-ids-insert id entry s.results valid.distinct)
        (lookup-insert_self id entry s.results) young

result_for-lookup :
    (id : String) (entry : ResultEntry) (s : Store)
    → lookup id s.results ≡ some entry
    → result_for id s ≡ some entry.result
unfolding result_for
result_for-lookup id entry s h = rw (h, result_for)

-- In a valid cache that may hold an entry, a result that is acknowledged is there to be queried
-- directly afterwards, if no earlier result bears a later time and the second reading of the clock
-- is within the time limit of the first.
pub ack_retains :
    (now now' : ℕ) (tenant agent_id job_id : String) (result : Json) (s : Store)
    → ResultsValid s
    → 0 < s.results_max
    → NotAfter now s.results
    → IsYoung s.results_ttl now' now
    → result_for job_id (ack now now' tenant agent_id job_id (some result) s).1 ≡ some result
unfolding ack store_result
ack_retains now now' tenant agent_id job_id result s valid pos newest young =
    let entry : ResultEntry = record { result = result; acked_at = now } in
    let kept : lookup job_id (
          evict_oldest s.results_max
            (drop_stale s.results_ttl now' (insert job_id entry s.results)))
        ≡ some entry =
      elim (Bool-cases (contains job_id (ids s.results))) [
        | inl there ↦ retains_old now' job_id entry s valid there young
        | inr absent ↦ retains_new now now' job_id entry s absent pos newest young
      ] in
    result_for-lookup job_id entry (ack now now' tenant agent_id job_id (some result) s).1 kept
