-- ===== src/ControlPlane/Store/Queue/Delivery.antt =====
-- A job that was handed out is not handed out again inside its visibility timeout.
use paperless_assistant.Base.{
  ℕ, ◌+◌, ◌<◌, ◌≡◌, refl, sym, ap, ◌∙◌, ◌≢◌, true, false, String, some, List, [], ◌∷◌, ◌++◌, arith,
  All, nat_eq, string_eq, pair_eq, contains, Distinct,
}
use paperless_assistant.ControlPlane.Store.{Job, Store, queue_of}
use mathlib.Core.Path.{subst}
use paperless_assistant.ControlPlane.Store.Queue.{is_expired, reclaim_expired, dispatch, lease_next}
use paperless_assistant.ControlPlane.Store.Queue.Lease.{
  deliverable, LeaseSpec, lease_next-LeaseSpec, job_ids, lease_next_keeps_jobs,
}

All-split {ℓ κ} :
    {A : Type ℓ} (P : A → Type κ) (xs : List A) (y : A) (ys : List A) → All P (xs ++ y ∷ ys) → P y
All-split P [] y ys h = h.0
All-split P (x ∷ xs) y ys h = All-split P xs y ys h.1

contains-split :
    (id : String) (held : Job) (before after : List Job)
    → id ≡ held.job_id
    → contains id (job_ids (before ++ held ∷ after)) ≡ true
contains-split id held [] after same = ground (arith, string_eq.test_iff held.job_id id)
contains-split id held (job ∷ before) after same =
    ground (arith, contains-split id held before after same)

-- No job under the id of `held` is deliverable.
abbrev Holds : ℕ → ℕ → Job → Job → Type 0
Holds timeout now held job = job.job_id ≡ held.job_id → deliverable timeout now job ≡ false

Holds-absent :
    (timeout now : ℕ) (held : Job) (queue : List Job)
    → contains held.job_id (job_ids queue) ≡ false
    → All (Holds timeout now held) queue
Holds-absent timeout now held [] h = tt
Holds-absent timeout now held (job ∷ queue) h = (
  (λ same. ground (arith, string_eq.test_iff job.job_id held.job_id)),
  Holds-absent timeout now held queue (ground arith),
)

Holds-split :
    (timeout now : ℕ) (held : Job) (before after : List Job)
    → Distinct (job_ids (before ++ held ∷ after))
    → deliverable timeout now held ≡ false
    → All (Holds timeout now held) (before ++ held ∷ after)
Holds-split timeout now held [] after d h = ((λ same. h), Holds-absent timeout now held after d.0)
Holds-split timeout now held (job ∷ before) after d h = (
  (λ same. cc (contains-split job.job_id held before after same, d.0)),
  Holds-split timeout now held before after d.1 h,
)

dispatch-in_flight :
    (timeout now now' : ℕ) (job : Job)
    → now < now' + timeout
    → deliverable timeout now (dispatch now' job) ≡ false
unfolding dispatch is_expired
dispatch-in_flight timeout now now' job h = ground arith

-- After a lease that hands out `held`, nothing under its id is deliverable inside the timeout.
held_after_lease :
    (timeout now now' later : ℕ) (queue queue' : List Job) (held : Job)
    → LeaseSpec timeout now now' queue (some held, queue')
    → Distinct (job_ids queue')
    → later < now' + timeout
    → All (Holds timeout later held) queue'
held_after_lease timeout now now' later queue queue' held first d h =
    subst (λ q. All (Holds timeout later held) q) (sym first.kept)
      (Holds-split timeout later held first.before (reclaim_expired timeout now first.after)
        (subst (λ q. Distinct (job_ids q)) first.kept d)
        (rw first.marked (dispatch-in_flight timeout later now' first.job h)))

-- Nothing that is leased from such a queue has the id of `held`.
not_held :
    (timeout now now' : ℕ) (queue queue' : List Job) (held leased : Job)
    → All (Holds timeout now held) queue
    → LeaseSpec timeout now now' queue (some leased, queue')
    → leased.job_id ≢ held.job_id
unfolding dispatch
not_held timeout now now' queue queue' held leased h first same =
    let at : Holds timeout now held first.job =
      All-split (Holds timeout now held) first.before first.job first.after
        (subst (All (Holds timeout now held)) first.split h) in
    cc (at (sym (ap (λ (j : Job). j.job_id) first.marked) ∙ same), first.due)

-- What a lease that handed out `job` has done.
lease_next-some :
    (now now' : ℕ) (tenant agent_id : String) (s : Store) (job : Job)
    → (lease_next now now' tenant agent_id s).0 ≡ some job
    → LeaseSpec s.visibility_timeout now now'
        (queue_of tenant agent_id s)
        (some job, queue_of tenant agent_id (lease_next now now' tenant agent_id s).1)
lease_next-some now now' tenant agent_id s job h =
    let (leased, s') = lease_next now now' tenant agent_id s in
    subst
      (λ r.
        LeaseSpec s.visibility_timeout now now' (queue_of tenant agent_id s)
          (r, queue_of tenant agent_id s'))
      h (lease_next-LeaseSpec now now' tenant agent_id s)

timeout-lease_next :
    (now now' : ℕ) (tenant agent_id : String) (s : Store)
    → (lease_next now now' tenant agent_id s).1.visibility_timeout ≡ s.visibility_timeout
unfolding lease_next
timeout-lease_next now now' tenant agent_id s = refl

-- Where the ids in an agent's queue are distinct, a job that a lease handed out at `now'` is not
-- handed out by the agent's next lease before `now' + visibility_timeout`.
pub lease_next_no_redelivery :
    (now now' later later' : ℕ) (tenant agent_id : String) (s : Store) (held again : Job)
    → Distinct (job_ids (queue_of tenant agent_id s))
    → (lease_next now now' tenant agent_id s).0 ≡ some held
    → later < now' + s.visibility_timeout
    → (lease_next later later' tenant agent_id (lease_next now now' tenant agent_id s).1).0
      ≡ some again
    → again.job_id ≢ held.job_id
lease_next_no_redelivery now now' later later' tenant agent_id s held again d first soon second =
    let s' = (lease_next now now' tenant agent_id s).1 in
    let queue' = queue_of tenant agent_id s' in
    let holds =
      held_after_lease s.visibility_timeout now now' later (queue_of tenant agent_id s) queue' held
        (lease_next-some now now' tenant agent_id s held first)
        (subst (λ ids. Distinct ids) (sym (lease_next_keeps_jobs now now' tenant agent_id s)) d)
        soon in
    not_held s.visibility_timeout later later' queue'
      (queue_of tenant agent_id (lease_next later later' tenant agent_id s').1) held again holds
      (subst
        (λ timeout.
          LeaseSpec timeout later later' queue'
            (some again, queue_of tenant agent_id (lease_next later later' tenant agent_id s').1))
        (timeout-lease_next now now' tenant agent_id s)
        (lease_next-some later later' tenant agent_id s' again second))
