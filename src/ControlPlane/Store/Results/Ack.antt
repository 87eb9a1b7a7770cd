-- ===== src/ControlPlane/Store/Results/Ack.antt =====
-- What `ack` of store.py does to the queue.
use paperless_assistant.Base.{
  ℕ, ◌≡◌, refl, sym, ap, ◌∙◌, ◌≢◌, false, String, Option, List, [], ◌∷◌, arith, length, filter,
  length-filter-le, filter_idem, ltb, nat_eq, string_eq, pair_eq, contains, without,
  contains-without,
}
use paperless_assistant.Base.Dict.{lookup, get_or, get_or-insert_self, lookup-insert_ne}
use paperless_assistant.Base.Json.{Json}
use paperless_assistant.ControlPlane.Store.{Job, QueueKey, Store, queue_of}
use paperless_assistant.ControlPlane.Store.Results.{ids, store_result, has_other_id, ack}
use paperless_assistant.ControlPlane.Store.Queue.Lease.{job_ids}

job_ids-filter :
    (id : String) (queue : List Job)
    → job_ids (filter (has_other_id id) queue) ≡ without id (job_ids queue)
job_ids-filter id [] = refl
job_ids-filter id (job ∷ queue) = ground (arith, job_ids-filter id queue)

-- A filter by id is shorter exactly if the id is there.
shorter-filter :
    (id : String) (queue : List Job)
    → ltb (length (filter (has_other_id id) queue)) (length queue) ≡ contains id (job_ids queue)
shorter-filter id [] = refl
shorter-filter id (job ∷ queue) =
    ground (arith, shorter-filter id queue, length-filter-le (has_other_id id) queue)

module _ (now now' : ℕ) (tenant agent_id job_id : String) (result : Option Json) (s : Store) where
  queues-store_result : (store_result now now' job_id result s).queues ≡ s.queues
  unfolding store_result
  queues-store_result = ground arith

  abbrev before : List Job
  before = queue_of tenant agent_id s

  queue-store_result : queue_of tenant agent_id (store_result now now' job_id result s) ≡ before
  queue-store_result = ap (λ qs. get_or (tenant, agent_id) [] qs) queues-store_result

  queue-ack :
      queue_of tenant agent_id (ack now now' tenant agent_id job_id result s).1
      ≡ filter (has_other_id job_id) before
  unfolding ack
  queue-ack = rw get_or-insert_self (ap (filter (has_other_id job_id)) queue-store_result)

  removed-ack : (ack now now' tenant agent_id job_id result s).0 ≡ contains job_id (job_ids before)
  unfolding ack
  removed-ack = rw queue-store_result (shorter-filter job_id before)

  -- `ack` takes exactly the jobs with the given id out of the agent's queue, in order, and returns
  -- true exactly if there was one.
  pub ack_removes :
      let (removed, s') = ack now now' tenant agent_id job_id result s in
      (job_ids (queue_of tenant agent_id s')
        ≡ without job_id (job_ids (queue_of tenant agent_id s)))
      × (removed ≡ contains job_id (job_ids (queue_of tenant agent_id s)))
  ack_removes = (ap job_ids queue-ack ∙ job_ids-filter job_id before, removed-ack)

  -- `ack` for one agent leaves each other queue, the agents and the tokens as they are.
  pub ack_frame :
      let (removed, s') = ack now now' tenant agent_id job_id result s in
      ((k : QueueKey) → (tenant, agent_id) ≢ k → lookup k s'.queues ≡ lookup k s.queues)
      × (s'.agents ≡ s.agents)
      × (s'.enrollment_tokens ≡ s.enrollment_tokens)
  unfolding ack
  ack_frame = (
    λ k h. lookup-insert_ne _ k _ _ h ∙ ap (lookup k) queues-store_result,
    unfold store_result in ground arith,
    unfold store_result in ground arith,
  )

contains-without_self : (id : String) (ids : List String) → contains id (without id ids) ≡ false
contains-without_self id ids = ground (arith, contains-without id id ids, string_eq.test_iff id id)

-- The agent may send an acknowledgement again: the second returns false and leaves the queue as the
-- first left it.
pub ack_again :
    (now now' later later' : ℕ) (tenant agent_id job_id : String) (result again : Option Json)
    (s : Store)
    → let (removed, s') = ack now now' tenant agent_id job_id result s in
      let (removed', s'') = ack later later' tenant agent_id job_id again s' in
      (removed' ≡ false) × (queue_of tenant agent_id s'' ≡ queue_of tenant agent_id s')
ack_again now now' later later' tenant agent_id job_id result again s =
    let s' = (ack now now' tenant agent_id job_id result s).1 in
    let first = queue-ack now now' tenant agent_id job_id result s in
    (
      removed-ack later later' tenant agent_id job_id again s'
          ∙ ap (contains job_id) (ack_removes now now' tenant agent_id job_id result s).0
          ∙ contains-without_self job_id (job_ids (queue_of tenant agent_id s)),
      queue-ack later later' tenant agent_id job_id again s'
          ∙ ap (filter (has_other_id job_id)) first
          ∙ filter_idem (has_other_id job_id) (queue_of tenant agent_id s)
          ∙ sym first,
    )
