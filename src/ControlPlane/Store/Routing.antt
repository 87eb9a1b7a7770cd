-- ===== src/ControlPlane/Store/Routing.antt =====
-- The jobs of a queue of store.py are those of its tenant and its agent.
use paperless_assistant.Base.{
  ℕ, ◌≡◌, refl, sym, ◌∙◌, inl, inr, String, Option, none, some, List, [], ◌∷◌, ◌++◌, arith,
  Bool-cases, Option-cases, All, All-append, All-filter, filter, ◌==◌, nat_eq, string_eq, pair_eq,
  pair_beq_iff,
}
use paperless_assistant.Base.Dict.{lookup, insert, set_default, get_or, get_or-insert}
use paperless_assistant.Base.Json.{Json}
use paperless_assistant.ControlPlane.Store.{Job, QueueKey, Store, queue_of}
use mathlib.Core.Path.{subst}
use paperless_assistant.ControlPlane.Store.Queue.{reclaim_expired, lease_first, lease_next, enqueue}
use paperless_assistant.ControlPlane.Store.Results.{ack, has_other_id, store_result}

-- A job is addressed to the tenant and the agent of `k`.
abbrev pub IsFor : QueueKey → Job → Type 0
IsFor k job = (job.tenant ≡ k.0) × (job.agent_id ≡ k.1)

-- Every queue holds only jobs that are addressed to its key.
pub record Routed (s : Store) : Type 0 where
  pub all_for : (k : QueueKey) → All (IsFor k) (get_or k [] s.queues)

pub Routed-queues : (s s' : Store) → s'.queues ≡ s.queues → Routed s → Routed s'
Routed-queues s s' same h = record {
  all_for = λ k. subst (λ qs. All (IsFor k) (get_or k [] qs)) (sym same) (h.all_for k);
}

-- One queue is replaced by another that is addressed to its key.
Routed-insert :
    (key : QueueKey) (queue : List Job) (s s' : Store)
    → s'.queues ≡ insert key queue s.queues
    → All (IsFor key) queue
    → Routed s
    → Routed s'
Routed-insert key queue s s' same new h = record {
  all_for = λ k. subst (λ qs. All (IsFor k) (get_or k [] qs)) (sym same) (at k);
}
  where
    at : (k : QueueKey) → All (IsFor k) (get_or k [] (insert key queue s.queues))
    at k = rw get_or-insert (elim (Bool-cases (key == k)) [
      | inl eq ↦ rw eq (subst (λ j. All (IsFor j) queue) ((pair_beq_iff key k).0 eq) new)
      | inr ne ↦ rw ne (h.all_for k)
    ])

IsFor-reclaim_expired :
    (timeout now : ℕ) (k : QueueKey) (queue : List Job)
    → All (IsFor k) queue
    → All (IsFor k) (reclaim_expired timeout now queue)
unfolding reclaim_expired
IsFor-reclaim_expired timeout now k [] h = tt
IsFor-reclaim_expired timeout now k (job ∷ queue) h =
    (ground arith, IsFor-reclaim_expired timeout now k queue h.1)

IsFor-lease_first :
    (now : ℕ) (k : QueueKey) (queue : List Job)
    → All (IsFor k) queue
    → All (IsFor k) (lease_first now queue).1
unfolding lease_first
IsFor-lease_first now k [] h = tt
IsFor-lease_first now k (job ∷ queue) h = ground (arith, IsFor-lease_first now k queue h.1)

leased_IsFor :
    (now : ℕ) (k : QueueKey) (queue : List Job) (leased : Job)
    → All (IsFor k) queue
    → (lease_first now queue).0 ≡ some leased
    → IsFor k leased
unfolding lease_first
leased_IsFor now k [] leased h e = cc
leased_IsFor now k (job ∷ queue) leased h e = ground (arith, leased_IsFor now k queue leased h.1)

-- A leased job is addressed to the tenant and the agent that asked for it.
pub lease_next-IsFor :
    (now now' : ℕ) (tenant agent_id : String) (s : Store) (leased : Job)
    → Routed s
    → (lease_next now now' tenant agent_id s).0 ≡ some leased
    → IsFor (tenant, agent_id) leased
unfolding lease_next
lease_next-IsFor now now' tenant agent_id s leased h e =
    leased_IsFor now' (tenant, agent_id)
      (reclaim_expired s.visibility_timeout now (queue_of tenant agent_id s)) leased
      (IsFor-reclaim_expired s.visibility_timeout now (tenant, agent_id)
        (queue_of tenant agent_id s) (h.all_for (tenant, agent_id)))
      e

module _ (tenant agent_id : String) (s : Store) (h : Routed s) where
  pub lease_next-Routed : (now now' : ℕ) → Routed (lease_next now now' tenant agent_id s).1
  unfolding lease_next
  lease_next-Routed now now' =
      let queue = reclaim_expired s.visibility_timeout now (queue_of tenant agent_id s) in
      Routed-insert (tenant, agent_id) (lease_first now' queue).1 s
        (record s { queues = insert (tenant, agent_id) (lease_first now' queue).1 s.queues }) refl
        (IsFor-lease_first now' (tenant, agent_id) queue
          (IsFor-reclaim_expired s.visibility_timeout now (tenant, agent_id)
            (queue_of tenant agent_id s) (h.all_for (tenant, agent_id))))
        h

  pub enqueue-Routed :
      (now : ℕ) (fresh job_type : String) (payload : Json) (job_id : Option String)
      → Routed (enqueue now fresh tenant agent_id job_type payload job_id s).1
  unfolding enqueue
  enqueue-Routed now fresh job_type payload job_id =
      let (job, s') = enqueue now fresh tenant agent_id job_type payload job_id s in
      Routed-insert (tenant, agent_id) (queue_of tenant agent_id s ++ job ∷ []) s s' refl
        (All-append (IsFor (tenant, agent_id)) (queue_of tenant agent_id s) (job ∷ [])
          (h.all_for (tenant, agent_id)) ((refl, refl), tt))
        h

  pub ack-Routed :
      (now now' : ℕ) (job_id : String) (result : Option Json)
      → Routed (ack now now' tenant agent_id job_id result s).1
  unfolding ack
  ack-Routed now now' job_id result =
      let s' = store_result now now' job_id result s in
      let same : s'.queues ≡ s.queues = queues-store_result now now' job_id result in
      Routed-insert (tenant, agent_id) (filter (has_other_id job_id) (queue_of tenant agent_id s'))
        s' (ack now now' tenant agent_id job_id result s).1 refl
        (All-filter (IsFor (tenant, agent_id)) (has_other_id job_id) (queue_of tenant agent_id s')
          ((Routed-queues s s' same h).all_for (tenant, agent_id)))
        (Routed-queues s s' same h)
    where
      queues-store_result :
          (now now' : ℕ) (job_id : String) (result : Option Json)
          → (store_result now now' job_id result s).queues ≡ s.queues
      queues-store_result now now' job_id none = unfold store_result in refl
      queues-store_result now now' job_id (some r) = unfold store_result in refl

pub set_default-Routed :
    (key : QueueKey) (s s' : Store) → s'.queues ≡ set_default key [] s.queues → Routed s → Routed s'
unfolding set_default
set_default-Routed key s s' same h = elim (Option-cases (lookup key s.queues)) [
  | inl missing ↦ Routed-insert key [] s s' (same ∙ rw (missing, set_default)) tt h
  | inr (queue, there) ↦ Routed-queues s s' (same ∙ rw (there, set_default)) h
]
