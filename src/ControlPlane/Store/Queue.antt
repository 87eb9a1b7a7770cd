-- ===== src/ControlPlane/Store/Queue.antt =====
-- The job queue of store.py: `enqueue`, `_reclaim_expired`, `lease_next`, `queue_depth`.
pub mod Lease
pub mod Delivery
use paperless_assistant.Base.{
  ℕ, ◌+◌, Bool, true, false, String, Option, none, some, List, [], ◌∷◌, ◌++◌, map, leb,
  if◌then◌else◌, length, filter, ◌==◌, string_eq, pair_eq,
}
use paperless_assistant.Base.Dict.{insert}
use paperless_assistant.Base.Json.{Json}
use paperless_assistant.ControlPlane.Store.{queued, dispatched, Job, Store, queue_of}

-- `job_id or ("job_" + uuid)`
unfoldable pub or_fresh : Option String → String → String
or_fresh none fresh = fresh
or_fresh (some id) fresh = if id == "" then fresh else id

unfoldable pub enqueue :
    ℕ → String → String → String → String → Json → Option String → Store → Job × Store
unfolding or_fresh
enqueue now fresh tenant agent_id job_type payload job_id s =
    let job : Job = record {
      job_id = or_fresh job_id fresh;
      tenant = tenant;
      agent_id = agent_id;
      job_type = job_type;
      payload = payload;
      state = queued;
      enqueued_at = now;
      dispatched_at = none;
      deliveries = 0;
    } in
    (
      job,
      record s {
        queues = insert (tenant, agent_id) (queue_of tenant agent_id s ++ job ∷ []) s.queues;
      },
    )

abbrev pub is_queued : Job → Bool
is_queued job = elim job.state [ queued ↦ true | dispatched ↦ false ]

-- dispatched, and `now - dispatched_at >= visibility_timeout`
unfoldable pub is_expired : ℕ → ℕ → Job → Bool
is_expired timeout now job = elim job.state [
  | queued ↦ false
  | dispatched ↦ elim job.dispatched_at [ none ↦ false | some at ↦ leb (at + timeout) now ]
]

unfoldable pub reclaim_job : ℕ → ℕ → Job → Job
unfolding is_expired
reclaim_job timeout now job =
    if is_expired timeout now job then record job { state = queued } else job

-- `_reclaim_expired`
unfoldable pub reclaim_expired : ℕ → ℕ → List Job → List Job
unfolding reclaim_job
reclaim_expired timeout now queue = map (reclaim_job timeout now) queue

unfoldable pub dispatch : ℕ → Job → Job
dispatch now job = record job {
  state = dispatched;
  dispatched_at = some now;
  deliveries = job.deliveries + 1;
}

-- the loop of `lease_next`: the first queued job is handed out
unfoldable pub lease_first : ℕ → List Job → Option Job × List Job
unfolding dispatch
lease_first now [] = (none, [])
lease_first now (job ∷ queue) = elim (is_queued job) [
  | true ↦ (some (dispatch now job), dispatch now job ∷ queue)
  | false ↦ let (leased, rest) = lease_first now queue in (leased, job ∷ rest)
]

-- The clock is read in `_reclaim_expired` and again when the job is marked.
unfoldable pub lease_next : ℕ → ℕ → String → String → Store → Option Job × Store
unfolding reclaim_expired lease_first
lease_next now now' tenant agent_id s =
    let queue = reclaim_expired s.visibility_timeout now (queue_of tenant agent_id s) in
    let (leased, queue') = lease_first now' queue in
    (leased, record s { queues = insert (tenant, agent_id) queue' s.queues })

-- Every state of a job counts.
unfoldable pub queue_depth : String → String → Store → ℕ
queue_depth tenant agent_id s = length (
    filter (λ job. elim job.state [ queued ↦ true | dispatched ↦ true ])
      (queue_of tenant agent_id s))
