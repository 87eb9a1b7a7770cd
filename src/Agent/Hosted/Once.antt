-- ===== src/Agent/Hosted/Once.antt =====
-- What the loop of hosted.py promises for a job that the control plane delivers more than once.
use paperless_assistant.Base.{
  ◌≤◌, ◌≡◌, refl, ◌≢◌, inl, inr, Bool, true, false, String, some, List, [], ◌∷◌, ◌++◌, arith,
  Option-cases, is_some, ◌==◌, nat_eq, string_eq, pair_eq, if◌then◌else◌, contains, Distinct,
  contains-append, Distinct-append_one,
}
use paperless_assistant.Base.Json.{Json}
use paperless_assistant.Agent.HostedState.{
  JobCursor, ResultQueue, pulled, executing, executed, acked, rank, is_at_least, advance,
}
use paperless_assistant.Agent.HostedState.Cursor.{rank-advance}
use paperless_assistant.Agent.HostedState.Results.{queued_ids}
use paperless_assistant.Agent.Hosted.{
  HostedJob, Report, WireRequest, Sent, Ended, ok, raised, HostedAgent, HostedConfig, build_result,
}
use paperless_assistant.Agent.Hosted.Loop.{Tick, run}
use paperless_assistant.Agent.Hosted.Keeps.{Kept, started}
use paperless_assistant.Agent.Hosted.Runs.{run-Holds}

-- whether a run of the engine gives a result that may be pushed
abbrev pub has_result : HostedJob → Ended Report → Bool
has_result job (raised error) = false
has_result job (ok report) = is_some (build_result job report)

-- The engine with a log of the jobs that it has run to a result.
abbrev pub logged :
    {E : Type 0}
    → (HostedJob → E → Ended Report × E)
    → HostedJob
    → E × List String
    → Ended Report × (E × List String)
logged runner job (e, log) =
    let (outcome, e') = runner job e in
    (outcome, (e', if has_result job outcome then log ++ job.job_id ∷ [] else log))

-- No job is in the log twice, and each of them is recorded as executed.
abbrev pub RunOnce : {E : Type 0} → JobCursor → ResultQueue → E × List String → Type 0
RunOnce c q (e, log) =
    Distinct log × ((job_id : String) → contains job_id log ≡ true → 3 ≤ rank job_id c)

rank-started :
    (job : HostedJob) (other : String) (c : JobCursor) → rank other c ≤ rank other (started job c)
rank-started job other c = ground (
  arith,
  rank-advance job.job_id other executing []
      (advance job.job_id pulled (("type", job.type) ∷ []) c),
  rank-advance job.job_id other pulled (("type", job.type) ∷ []) c,
  string_eq.test_iff job.job_id other,
)

rank-executed :
    (job : HostedJob) (other : String) (c : JobCursor)
    → is_at_least job.job_id executed c ≡ false
    → rank other (advance job.job_id executed [] (started job c))
      ≡ (if job.job_id == other then 3 else rank other c)
unfolding is_at_least
rank-executed job other c new = ground (
  arith,
  rank-advance job.job_id other executed [] (started job c),
  rank-advance job.job_id other executing []
      (advance job.job_id pulled (("type", job.type) ∷ []) c),
  rank-advance job.job_id other pulled (("type", job.type) ∷ []) c,
  rank-advance job.job_id job.job_id executing []
      (advance job.job_id pulled (("type", job.type) ∷ []) c),
  rank-advance job.job_id job.job_id pulled (("type", job.type) ∷ []) c,
  string_eq.test_iff job.job_id other,
  string_eq.test_iff job.job_id job.job_id,
)

RunOnce-completed :
    (job : HostedJob) (c : JobCursor) (log : List String)
    → is_at_least job.job_id executed c ≡ false
    → Distinct log
    → ((job_id : String) → contains job_id log ≡ true → 3 ≤ rank job_id c)
    → Distinct (log ++ job.job_id ∷ [])
      × ((job_id : String)
          → contains job_id (log ++ job.job_id ∷ []) ≡ true
          → 3 ≤ rank job_id (advance job.job_id executed [] (started job c)))
unfolding is_at_least
RunOnce-completed job c log new once recorded = (
  Distinct-append_one log job.job_id once (ground (arith, recorded job.job_id)),
  λ other ran. ground (
    arith,
    rank-executed job other c new,
    contains-append other log (job.job_id ∷ []),
    recorded other,
    string_eq.test_iff job.job_id other,
  ),
)

no_result :
    (job : HostedJob) (outcome : Ended Report)
    → ((report : Report) (result : Json)
        → outcome ≡ ok report
        → build_result job report ≢ some result)
    → has_result job outcome ≡ false
no_result job (raised error) h = refl
no_result job (ok report) h = elim (Option-cases (build_result job report)) [
  | inl unsafe ↦ rw unsafe refl
  | inr (result, safe) ↦ absurd (h report result refl safe)
]

module _ {E : Type 0} (runner : HostedJob → E → Ended Report × E) where
  RunOnce-Kept : Kept (logged runner) RunOnce
  unfolding is_at_least
  RunOnce-Kept = record {
    flushed = λ job_id c q e h. (
      h.0,
      λ other ran. ground (
        arith,
        rank-advance job_id other acked [] c,
        h.1 other ran,
        string_eq.test_iff job_id other,
      ),
    );
    requeued = λ job_id result c q e done h. h;
    failed = λ job c q e new no h.
        rw (no_result job (runner job e.0).0 no)
          (h.0, λ other ran. omega (arith, h.1 other ran, rank-started job other c));
    completed = λ job report result c q e new ran built h.
        rw (ran, built) (RunOnce-completed job c e.1 new h.0 h.1);
  }

-- Whatever the control plane answers, and however often it delivers a job, the loop of the agent
-- runs each job to a result once at most: an agent that starts with an empty cursor has no job
-- twice in the log of the runs that gave a result.
pub run-executes_once :
    {N E : Type 0} (request : WireRequest → N → Sent × N)
    (runner : HostedJob → E → Ended Report × E) (config : HostedConfig) (ticks : List Tick)
    (a : HostedAgent N (E × List String))
    → a.cursor ≡ []
    → a.engine.1 ≡ []
    → Distinct (run request (logged runner) config ticks a).1.engine.1
run-executes_once request runner config ticks a fresh idle =
    (run-Holds request (logged runner) RunOnce (RunOnce-Kept runner) config ticks a
      (rw idle tt, λ job_id. rw idle (λ ran. absurd (ground arith)))).0

-- The ids in the queue are distinct, and a job that is executed and not acked has a result there.
abbrev pub Owed : {E : Type 0} → JobCursor → ResultQueue → E → Type 0
Owed c q e =
    Distinct (queued_ids q)
    × ((job_id : String) → rank job_id c ≡ 3 → contains job_id (queued_ids q) ≡ true)
