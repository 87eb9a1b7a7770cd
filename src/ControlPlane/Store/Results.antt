-- ===== src/ControlPlane/Store/Results.antt =====
-- The result cache of store.py, `_prune_results`, and `ack`, which writes both it and the queue.
pub mod Ack
pub mod Ids
pub mod Bound
pub mod Newest
pub mod Retain
use paperless_assistant.Base.{
  ℕ, ◌+◌, ◌-◌, Bool, not, String, Option, none, some, List, [], ◌∷◌, map, ltb, leb, if◌then◌else◌,
  length, take, filter, ◌==◌, string_eq, pair_eq,
}
use paperless_assistant.Base.Dict.{Dict, lookup, insert, erase}
use paperless_assistant.Base.Json.{Json}
use paperless_assistant.ControlPlane.Store.{Job, ResultEntry, Store, queue_of}

-- `for jid in ids: self._results.pop(jid, None)`
unfoldable pub pop_all : List String → Dict String ResultEntry → Dict String ResultEntry
pop_all [] d = d
pop_all (id ∷ ids) d = pop_all ids (erase id d)

abbrev pub ids : Dict String ResultEntry → List String
ids d = map (λ (entry : String × ResultEntry). entry.0) d

-- `now - acked_at > ttl`
unfoldable pub is_stale : ℕ → ℕ → String × ResultEntry → Bool
is_stale ttl now (id, entry) = ltb (entry.acked_at + ttl) now

unfoldable pub insert_by_ack :
    String × ResultEntry → Dict String ResultEntry → Dict String ResultEntry
insert_by_ack entry [] = entry ∷ []
insert_by_ack entry (x ∷ xs) =
    let rest = insert_by_ack entry xs in
    if leb (entry.1).acked_at (x.1).acked_at then entry ∷ x ∷ xs else x ∷ rest

-- `sorted(items, key=acked_at)`, which is stable
unfoldable pub sort_by_ack : Dict String ResultEntry → Dict String ResultEntry
unfolding insert_by_ack
sort_by_ack [] = []
sort_by_ack (x ∷ xs) = insert_by_ack x (sort_by_ack xs)

unfoldable pub drop_stale : ℕ → ℕ → Dict String ResultEntry → Dict String ResultEntry
unfolding pop_all is_stale
drop_stale ttl now d = if ltb 0 ttl then pop_all (ids (filter (is_stale ttl now) d)) d else d

unfoldable pub evict_oldest : ℕ → Dict String ResultEntry → Dict String ResultEntry
unfolding pop_all sort_by_ack
evict_oldest max d =
    let over = length d - max in
    if ltb 0 over then pop_all (ids (take over (sort_by_ack d))) d else d

-- `_prune_results`; on an empty cache both steps do nothing
unfoldable pub prune_results : ℕ → Store → Store
unfolding drop_stale evict_oldest
prune_results now s = record s {
  results = evict_oldest s.results_max (drop_stale s.results_ttl now s.results);
}

unfoldable pub store_result : ℕ → ℕ → String → Option Json → Store → Store
unfolding prune_results
store_result now now' job_id none s = s
store_result now now' job_id (some result) s =
    let entry : ResultEntry = record { result = result; acked_at = now } in
    prune_results now' (record s { results = insert job_id entry s.results })

abbrev pub has_other_id : String → Job → Bool
has_other_id job_id job = not (job.job_id == job_id)

-- The clock is read for `acked_at` and again in `_prune_results`.
unfoldable pub ack : ℕ → ℕ → String → String → String → Option Json → Store → Bool × Store
unfolding store_result
ack now now' tenant agent_id job_id result s =
    let s' = store_result now now' job_id result s in
    let queue = queue_of tenant agent_id s' in
    let kept = filter (has_other_id job_id) queue in
    (
      ltb (length kept) (length queue),
      record s' { queues = insert (tenant, agent_id) kept s'.queues },
    )

unfoldable pub result_for : String → Store → Option Json
result_for job_id s = elim (lookup job_id s.results) [
  | none ↦ none
  | some entry ↦ some entry.result
]

unfoldable pub results_count : Store → ℕ
results_count s = length s.results
