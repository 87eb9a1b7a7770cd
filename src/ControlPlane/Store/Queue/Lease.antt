-- ===== src/ControlPlane/Store/Queue/Lease.antt =====
-- What `lease_next` of store.py hands out, and what it does to the queue.
use paperless_assistant.Base.{
  ℕ, ◌≡◌, refl, ◌∙◌, ◌≢◌, inl, inr, Bool, true, false, ◌||◌, String, Option, none, some, List, [],
  ◌∷◌, ◌++◌, map, arith, Bool-cases, any, nat_eq, string_eq, pair_eq,
}
use paperless_assistant.Base.Dict.{lookup, get_or-insert_self, lookup-insert_ne}
use paperless_assistant.ControlPlane.Store.{Job, Store, QueueKey, queue_of}
use paperless_assistant.ControlPlane.Store.Queue.{
  is_queued, is_expired, reclaim_job, reclaim_expired, dispatch, lease_first, lease_next,
}

-- What the agent may be handed at `now`: a queued job, or one whose visibility timeout is over.
abbrev pub deliverable : ℕ → ℕ → Job → Bool
deliverable timeout now job = is_queued job || is_expired timeout now job

module _ (timeout now : ℕ) where
  reclaim_job-deliverable :
      (job : Job)
      → deliverable timeout now job ≡ true
      → is_queued (reclaim_job timeout now job) ≡ true
  unfolding reclaim_job
  reclaim_job-deliverable job h = ground arith

  reclaim_job-in_flight :
      (job : Job)
      → deliverable timeout now job ≡ false
      → (reclaim_job timeout now job ≡ job) × (is_queued job ≡ false)
  unfolding reclaim_job
  reclaim_job-in_flight job h = ground arith

  dispatch-reclaim_job :
      (now' : ℕ) (job : Job) → dispatch now' (reclaim_job timeout now job) ≡ dispatch now' job
  unfolding dispatch reclaim_job
  dispatch-reclaim_job now' job = ground arith

-- The first deliverable job of a queue is handed out, and the jobs before it stay as they are.
pub record IsFirst (timeout now now' : ℕ) (queue queue' : List Job) (leased : Job) : Type 0 where
  pub before : List Job
  pub job : Job
  pub after : List Job
  pub split : queue ≡ before ++ job ∷ after
  pub skipped : any (deliverable timeout now) before ≡ false
  pub due : deliverable timeout now job ≡ true
  pub marked : leased ≡ dispatch now' job
  pub kept : queue' ≡ before ++ leased ∷ reclaim_expired timeout now after

-- A lease that hands out nothing found nothing deliverable, and left the queue as it was.
abbrev pub LeaseSpec : ℕ → ℕ → ℕ → List Job → Option Job × List Job → Type 0
LeaseSpec timeout now now' queue (none, queue') =
    (any (deliverable timeout now) queue ≡ false) × (queue' ≡ queue)
LeaseSpec timeout now now' queue (some leased, queue') =
    IsFirst timeout now now' queue queue' leased

LeaseSpec-cons :
    (timeout now now' : ℕ) (job : Job) (queue : List Job) (r : Option Job × List Job)
    → deliverable timeout now job ≡ false
    → LeaseSpec timeout now now' queue r
    → LeaseSpec timeout now now' (job ∷ queue) (r.0, job ∷ r.1)
LeaseSpec-cons timeout now now' job queue (none, queue') h (nothing, same) = (rw h nothing, cc)
LeaseSpec-cons timeout now now' job queue (some leased, queue') h first = record {
  before = job ∷ first.before;
  job = first.job;
  after = first.after;
  split = cc (first.split);
  skipped = rw h first.skipped;
  due = first.due;
  marked = first.marked;
  kept = cc (first.kept);
}

-- The call of `lease_next`'s loop on a queue with `job` at its head, either way.
lease_first-due :
    (timeout now now' : ℕ) (job : Job) (queue : List Job)
    → deliverable timeout now job ≡ true
    → lease_first now' (reclaim_expired timeout now (job ∷ queue))
      ≡ (some (dispatch now' job), dispatch now' job ∷ reclaim_expired timeout now queue)
unfolding lease_first reclaim_expired
lease_first-due timeout now now' job queue due = rw (
  reclaim_job-deliverable timeout now job due,
  lease_first,
  dispatch-reclaim_job timeout now now' job,
)

lease_first-in_flight :
    (timeout now now' : ℕ) (job : Job) (queue : List Job)
    → deliverable timeout now job ≡ false
    → let (leased, rest) = lease_first now' (reclaim_expired timeout now queue) in
      lease_first now' (reclaim_expired timeout now (job ∷ queue)) ≡ (leased, job ∷ rest)
unfolding lease_first reclaim_expired
lease_first-in_flight timeout now now' job queue h =
    let (same, waits) = reclaim_job-in_flight timeout now job h in
    rw (same, waits, lease_first) (rw same)

lease_first-LeaseSpec :
    (timeout now now' : ℕ) (queue : List Job)
    → LeaseSpec timeout now now' queue (lease_first now' (reclaim_expired timeout now queue))
lease_first-LeaseSpec timeout now now' [] = unfold lease_first reclaim_expired in (refl, refl)
lease_first-LeaseSpec timeout now now' (job ∷ queue) =
    elim (Bool-cases (deliverable timeout now job)) [
      | inl due ↦ rw (lease_first-due timeout now now' job queue due) (record {
        before = [];
        job = job;
        after = queue;
        split = refl;
        skipped = refl;
        due = due;
        marked = refl;
        kept = refl;
      })
      | inr in_flight ↦ rw (lease_first-in_flight timeout now now' job queue in_flight) (
          LeaseSpec-cons timeout now now' job queue _ in_flight
            (lease_first-LeaseSpec timeout now now' queue))
    ]

-- The whole queue after a lease, and the queues of the others.
module _ (now now' : ℕ) (tenant agent_id : String) (s : Store) where
  abbrev leased : Option Job
  leased = (lease_next now now' tenant agent_id s).0

  abbrev after : Store
  after = (lease_next now now' tenant agent_id s).1

  -- For every store and clock, `lease_next` hands out the first job of the agent's queue that is
  -- queued or whose visibility timeout has run out, marked as dispatched at the second reading of
  -- the clock with one delivery more; the jobs before it stay as they were. It hands out nothing
  -- exactly if the queue holds no such job, and then the queue stays as it was.
  pub lease_next-LeaseSpec :
      LeaseSpec s.visibility_timeout now now'
        (queue_of tenant agent_id s)
        (leased, queue_of tenant agent_id after)
  unfolding lease_next
  lease_next-LeaseSpec =
      rw get_or-insert_self
        (lease_first-LeaseSpec s.visibility_timeout now now' (queue_of tenant agent_id s))

  -- `lease_next` for one agent changes nothing else: each other queue, the agents, the tokens and
  -- the results are as before.
  pub lease_next_frame :
      ((k : QueueKey) → (tenant, agent_id) ≢ k → lookup k after.queues ≡ lookup k s.queues)
      × (after.agents ≡ s.agents)
      × (after.enrollment_tokens ≡ s.enrollment_tokens)
      × (after.results ≡ s.results)
  unfolding lease_next
  lease_next_frame = (λ k h. lookup-insert_ne _ k _ s.queues h, refl, refl, refl)

abbrev pub job_ids : List Job → List String
job_ids queue = map (λ (job : Job). job.job_id) queue

job_ids-reclaim_expired :
    (timeout now : ℕ) (queue : List Job)
    → job_ids (reclaim_expired timeout now queue) ≡ job_ids queue
unfolding reclaim_expired
job_ids-reclaim_expired timeout now [] = refl
job_ids-reclaim_expired timeout now (job ∷ queue) =
    ground (arith, job_ids-reclaim_expired timeout now queue)

job_ids-lease_first :
    (now : ℕ) (queue : List Job) → job_ids (lease_first now queue).1 ≡ job_ids queue
unfolding lease_first
job_ids-lease_first now [] = refl
job_ids-lease_first now (job ∷ queue) = ground (arith, job_ids-lease_first now queue)

-- A lease neither loses nor adds nor reorders a job: the ids of the agent's queue, in their order,
-- are the ids that it had.
pub lease_next_keeps_jobs :
    (now now' : ℕ) (tenant agent_id : String) (s : Store)
    → job_ids (queue_of tenant agent_id (lease_next now now' tenant agent_id s).1)
      ≡ job_ids (queue_of tenant agent_id s)
unfolding lease_next
lease_next_keeps_jobs now now' tenant agent_id s = rw get_or-insert_self (
    job_ids-lease_first now' (reclaim_expired s.visibility_timeout now (queue_of tenant agent_id s))
    ∙ job_ids-reclaim_expired s.visibility_timeout now (queue_of tenant agent_id s))
