-- ===== src/Agent/HostedState/Results.antt =====
-- The queue of results of hosted_state.py: one entry for each job at most.
use paperless_assistant.Base.{
  ◌≡◌, refl, ap, ◌∙◌, true, String, List, [], ◌∷◌, ◌++◌, arith, ◌==◌, nat_eq, string_eq, pair_eq,
  if◌then◌else◌, contains, without, Distinct, contains-append, contains-without, Distinct-without,
  Distinct-append_one,
}
use paperless_assistant.Base.Json.{Json}
use paperless_assistant.Agent.HostedState.{QueuedResult, ResultQueue, remove, enqueue}

abbrev pub queued_ids : ResultQueue → List String
queued_ids [] = []
queued_ids (it ∷ items) = it.job_id ∷ queued_ids items

pub queued_ids-remove :
    (job_id : String) (items : ResultQueue)
    → queued_ids (remove job_id items) ≡ without job_id (queued_ids items)
unfolding remove
queued_ids-remove job_id [] = refl
queued_ids-remove job_id (it ∷ items) = ground (arith, queued_ids-remove job_id items)

queued_ids-append :
    (xs : ResultQueue) (it : QueuedResult)
    → queued_ids (xs ++ it ∷ []) ≡ queued_ids xs ++ it.job_id ∷ []
queued_ids-append [] it = refl
queued_ids-append (x ∷ xs) it = ap (λ rest. x.job_id ∷ rest) (queued_ids-append xs it)

pub Distinct-remove :
    (job_id : String) (items : ResultQueue)
    → Distinct (queued_ids items)
    → Distinct (queued_ids (remove job_id items))
Distinct-remove job_id items h = rw queued_ids-remove (Distinct-without job_id (queued_ids items) h)

pub queued_ids-enqueue :
    (job_id : String) (result : Json) (items : ResultQueue)
    → queued_ids (enqueue job_id result items) ≡ without job_id (queued_ids items) ++ job_id ∷ []
unfolding enqueue
queued_ids-enqueue job_id result items =
    queued_ids-append (remove job_id items) (record { job_id = job_id; result = result })
    ∙ ap (λ xs. xs ++ job_id ∷ []) (queued_ids-remove job_id items)

pub Distinct-enqueue :
    (job_id : String) (result : Json) (items : ResultQueue)
    → Distinct (queued_ids items)
    → Distinct (queued_ids (enqueue job_id result items))
Distinct-enqueue job_id result items h = rw queued_ids-enqueue (
    Distinct-append_one (without job_id (queued_ids items)) job_id
      (Distinct-without job_id (queued_ids items) h)
      (ground (
        arith,
        contains-without job_id job_id (queued_ids items),
        string_eq.test_iff job_id job_id,
      )))

pub contains-enqueue :
    (job_id other : String) (result : Json) (items : ResultQueue)
    → contains other (queued_ids (enqueue job_id result items))
      ≡ (if job_id == other then true else contains other (queued_ids items))
contains-enqueue job_id other result items = rw queued_ids-enqueue (
    contains-append other (without job_id (queued_ids items)) (job_id ∷ [])
    ∙ ground
        (arith, contains-without job_id other (queued_ids items), string_eq.test_iff job_id other))
