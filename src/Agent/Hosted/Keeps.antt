-- ===== src/Agent/Hosted/Keeps.antt =====
-- What every method of hosted.py keeps: a property of the cursor, the queued results and the engine
-- that the four changes of them keep is kept by the whole loop.
use paperless_assistant.Base.{
  ℕ, ◌+◌, ◌≡◌, refl, ◌≢◌, ◌⊎◌, inl, inr, true, false, not, ◌&&◌, String, some, List, [], ◌∷◌,
  Bool-cases, Option-cases, nat_beq, nat_eq, string_eq, pair_eq, contains,
}
use paperless_assistant.Base.Json.{Json}
use paperless_assistant.Agent.HostedState.{
  JobCursor, ResultQueue, QueuedResult, pulled, executing, executed, acked, is_at_least, advance,
  remove, enqueue,
}
use paperless_assistant.Agent.Hosted.{
  HostedJob, Report, WireRequest, post_results, WireReply, Sent, unreachable, answered, HostedError,
  Ended, ok, raised, HostedAgent, build_result, dedup_result, on_revoked, flushed_one, flush_loop,
  flush_results, flush_last, push_again, execute, execute_and_push,
}
use paperless_assistant.Agent.HostedState.Results.{queued_ids}

-- the cursor once a job is being run
abbrev pub started : HostedJob → JobCursor → JobCursor
started job c =
    advance job.job_id executing [] (advance job.job_id pulled (("type", job.type) ∷ []) c)

pub record Kept {E : Type 0} (runner : HostedJob → E → Ended Report × E)
    (P : JobCursor → ResultQueue → E → Type 0) : Type 0 where
  pub flushed :
      (job_id : String) (c : JobCursor) (q : ResultQueue) (e : E)
      → P c q e
      → P (advance job_id acked [] c) (remove job_id q) e
  pub requeued :
      (job_id : String) (result : Json) (c : JobCursor) (q : ResultQueue) (e : E)
      → is_at_least job_id executed c ≡ true
      → P c q e
      → P c (enqueue job_id result q) e
  pub failed :
      (job : HostedJob) (c : JobCursor) (q : ResultQueue) (e : E)
      → is_at_least job.job_id executed c ≡ false
      → ((report : Report) (result : Json)
          → (runner job e).0 ≡ ok report
          → build_result job report ≢ some result)
      → P c q e
      → P (started job c) q (runner job e).1
  pub completed :
      (job : HostedJob) (report : Report) (result : Json) (c : JobCursor) (q : ResultQueue) (e : E)
      → is_at_least job.job_id executed c ≡ false
      → (runner job e).0 ≡ ok report
      → build_result job report ≡ some result
      → P c q e
      → P
          (advance job.job_id executed [] (started job c))
          (enqueue job.job_id result q)
          (runner job e).1

pub Sent-cases : (s : Sent) → (s ≡ unreachable) ⊎ ((reply : WireReply) × (s ≡ answered reply))
Sent-cases unreachable = inl refl
Sent-cases (answered reply) = inr (reply, refl)

pub Ended-cases :
    {A : Type 0} (e : Ended A)
    → ((a : A) × (e ≡ ok a)) ⊎ ((error : HostedError) × (e ≡ raised error))
Ended-cases (ok a) = inl (a, refl)
Ended-cases (raised error) = inr (error, refl)

module _ {N E : Type 0} (request : WireRequest → N → Sent × N)
    (runner : HostedJob → E → Ended Report × E) (P : JobCursor → ResultQueue → E → Type 0)
    (kept : Kept runner P) where
  abbrev pub Holds : HostedAgent N E → Type 0
  Holds a = P a.cursor a.results a.engine

  flush_loop-Holds :
      (items : List QueuedResult) (n : ℕ) (a : HostedAgent N E)
      → Holds a
      → Holds (flush_loop request items n a).1
  unfolding flush_loop on_revoked flushed_one
  flush_loop-Holds [] n a h = h
  flush_loop-Holds (it ∷ items) n a h = elim (Option-cases a.identity) [
    | inl missing ↦ rw (missing, flush_loop) h
    | inr (identity, there) ↦
        let sent = request (post_results identity it.job_id it.result) a.network in
        let next = flushed_one it (record a { network = sent.1 }) in
        let rest =
          flush_loop-Holds items (n + 1) next
            (kept.flushed it.job_id a.cursor a.results a.engine h) in
        rw (there, flush_loop)
          (elim (Sent-cases sent.0) [
            | inl down ↦ rw down h
            | inr (reply, up) ↦ rw up (elim (Bool-cases (nat_beq reply.status 401)) [
              | inl rejected ↦ rw rejected h
              | inr accepted ↦ elim (Bool-cases (nat_beq reply.status 200)) [
                | inl taken ↦ rw (accepted, taken) rest
                | inr refused ↦ rw (accepted, refused) h
              ]
            ])
          ])
  ]

  pub flush_results-Holds : (a : HostedAgent N E) → Holds a → Holds (flush_results request a).1
  unfolding flush_results
  flush_results-Holds a h = flush_loop-Holds a.results 0 a h

  flush_last-Holds : (a : HostedAgent N E) → Holds a → Holds (flush_last request a).1
  unfolding flush_last
  flush_last-Holds a h = flush_results-Holds a h

  push_again-Holds :
      (job : HostedJob) (a : HostedAgent N E)
      → is_at_least job.job_id executed a.cursor ≡ true
      → Holds a
      → Holds (push_again request runner job a).1
  unfolding push_again
  push_again-Holds job a done h =
      elim (Bool-cases (
        not (contains job.job_id (queued_ids a.results))
        && not (is_at_least job.job_id acked a.cursor))) [
          | inl lost ↦ elim (Option-cases (dedup_result job)) [
            | inl unsafe ↦ rw (lost, unsafe, push_again) h
            | inr (result, safe) ↦
                rw (lost, safe, push_again)
                  (flush_last-Holds (record a { results = enqueue job.job_id result a.results })
                    (kept.requeued job.job_id result a.cursor a.results a.engine done h))
          ]
          | inr there ↦ rw (there, push_again) (flush_last-Holds a h)
        ]

  execute-Holds :
      (job : HostedJob) (a : HostedAgent N E)
      → is_at_least job.job_id executed a.cursor ≡ false
      → Holds a
      → Holds (execute request runner job a).1
  unfolding execute
  execute-Holds job a new h = elim (Ended-cases (runner job a.engine).0) [
    | inr (error, crash) ↦
        rw (crash, execute)
          (kept.failed job a.cursor a.results a.engine new (λ report result e. cc) h)
    | inl (report, ran) ↦ elim (Option-cases (build_result job report)) [
      | inl unsafe ↦
          rw (ran, unsafe, execute)
            (kept.failed job a.cursor a.results a.engine new (λ report result e built. cc) h)
      | inr (result, safe) ↦
          rw (ran, safe, execute)
            (flush_last-Holds _
              (kept.completed job report result a.cursor a.results a.engine new ran safe h))
    ]
  ]

  pub execute_and_push-Holds :
      (job : HostedJob) (a : HostedAgent N E)
      → Holds a
      → Holds (execute_and_push request runner job a).1
  unfolding execute_and_push
  execute_and_push-Holds job a h = elim (Bool-cases (is_at_least job.job_id executed a.cursor)) [
    | inl done ↦ rw (done, execute_and_push) (push_again-Holds job a done h)
    | inr new ↦ rw (new, execute_and_push) (execute-Holds job a new h)
  ]
