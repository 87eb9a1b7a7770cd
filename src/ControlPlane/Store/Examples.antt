-- ===== src/ControlPlane/Store/Examples.antt =====
-- A store with one agent, one token and two jobs, and what the theorems on store.py say of it.
use paperless_assistant.Base.{
  ◌≡◌, refl, ◌≢◌, false, String, none, some, [], ◌∷◌, arith, ◌==◌, nat_eq, string_eq, pair_eq,
}
use paperless_assistant.Base.Dict.{lookup, insert, get_or}
use paperless_assistant.ControlPlane.Store.{
  TokenInfo, Agent, queued, Job, Store, queue_of, empty_store,
}
use paperless_assistant.ControlPlane.Store.Agents.{enroll, authenticate, revoke}
use paperless_assistant.ControlPlane.Store.Agents.Credentials.{
  enroll_once, authenticate-enroll, revoke_rejects,
}
use paperless_assistant.ControlPlane.Store.Queue.{
  enqueue, reclaim_expired, reclaim_job, is_expired, lease_first, lease_next, dispatch,
}
use paperless_assistant.ControlPlane.Store.Queue.Lease.{LeaseSpec, lease_next-LeaseSpec}
use paperless_assistant.ControlPlane.Store.Queue.Delivery.{lease_next_no_redelivery}
use paperless_assistant.ControlPlane.Store.Results.{ack, result_for, results_count}
use paperless_assistant.ControlPlane.Store.Results.Bound.{ResultsValid}
use paperless_assistant.ControlPlane.Store.Results.Retain.{ack_retains}
use paperless_assistant.ControlPlane.Store.Steps.{
  here, next, enqueued, leased, StoreValid, empty_store-StoreValid, Reach-StoreValid,
}
use paperless_assistant.Base.Json.{null}

abbrev hash : String → String → String
hash credential salt = credential

abbrev new_job : String → Job
new_job id = record {
  job_id = id;
  tenant = "t";
  agent_id = "a";
  job_type = "run_sweep";
  payload = null;
  state = queued;
  enqueued_at = 5;
  dispatched_at = none;
  deliveries = 0;
}

abbrev known_agent : Agent
known_agent = record {
  agent_id = "a";
  tenant = "t";
  credential_salt = "s";
  credential_hash = "c";
  revoked = false;
  enrolled_at = 1;
  last_heartbeat = none;
  last_status = none;
}

abbrev new_secret : String
new_secret = "d"

abbrev other_id : String
other_id = "b"

-- a text that is not empty
filled : (s : String) → (s == "") ≡ false → s ≢ ""
filled s h e = ground (arith, h, (string_eq.test_iff s "").1 e)

abbrev token_info : TokenInfo
token_info = record { tenant = "t"; agent_hint = none; minted_at = 0 }

abbrev two_jobs : Store
two_jobs = record (empty_store 30 2 100) {
  agents = ("a", known_agent) ∷ [];
  enrollment_tokens = ("token", token_info) ∷ [];
  queues = (("t", "a"), new_job "j1" ∷ new_job "j2" ∷ []) ∷ [];
}

-- what a lease at 10, marked at 11, hands out
held : (lease_next 10 11 "t" "a" two_jobs).0 ≡ some (dispatch 11 (new_job "j1"))
unfolding lease_next reclaim_expired lease_first lookup get_or
held = refl

held_again :
    (lease_next 12 13 "t" "a" (lease_next 10 11 "t" "a" two_jobs).1).0
    ≡ some (dispatch 13 (new_job "j2"))
unfolding lease_next reclaim_expired lease_first lookup get_or insert reclaim_job is_expired
    dispatch
held_again = refl

two_jobs-ResultsValid : ResultsValid two_jobs
unfolding results_count
two_jobs-ResultsValid = record { distinct = tt; bounded = ground arith }

lease_next-LeaseSpec_example :
    LeaseSpec 30 10 11 (queue_of "t" "a" two_jobs) (
      (lease_next 10 11 "t" "a" two_jobs).0,
      queue_of "t" "a" (lease_next 10 11 "t" "a" two_jobs).1,
    )
lease_next-LeaseSpec_example = lease_next-LeaseSpec 10 11 "t" "a" two_jobs

lease_next_no_redelivery_example :
    (dispatch 13 (new_job "j2")).job_id ≢ (dispatch 11 (new_job "j1")).job_id
unfolding dispatch lookup get_or
lease_next_no_redelivery_example =
    lease_next_no_redelivery 10 11 12 13 "t" "a" two_jobs (dispatch 11 (new_job "j1"))
      (dispatch 13 (new_job "j2")) (refl, (refl, tt)) held (omega arith) held_again

ack_retains_example : result_for "j1" (ack 20 21 "t" "a" "j1" (some null) two_jobs).1 ≡ some null
ack_retains_example =
    ack_retains 20 21 "t" "a" "j1" null two_jobs two_jobs-ResultsValid (omega arith) tt
      (λ limited. omega arith)

enroll_once_example :
    enroll hash 3 "c" "x" "y" "token" (enroll hash 2 "b" "u" "v" "token" two_jobs).1
    ≡ (none, (enroll hash 2 "b" "u" "v" "token" two_jobs).1)
enroll_once_example = enroll_once hash 2 3 "b" "u" "v" "c" "x" "y" "token" two_jobs

authenticate-enroll_example :
    let (given, s') = enroll hash 2 "b" "u" "v" "token" two_jobs in
    (given ≡ some (record { tenant = "t"; agent_id = "b"; agent_credential = "u" }))
    × ((a : Agent) × (authenticate hash "b" "u" s' ≡ some a)
        × (a.tenant ≡ "t")
        × (a.agent_id ≡ "b"))
unfolding lookup
authenticate-enroll_example =
    authenticate-enroll hash 2 "b" "u" "v" "token" token_info two_jobs refl (filled "v" refl)
      (filled "u" refl)

revoke_rejects_example :
    (authenticate hash "a" "c" (revoke "a" two_jobs).1 ≡ none)
    × (known_agent.agent_id ≢ other_id
        → authenticate hash "b" "c" (revoke "a" two_jobs).1 ≡ authenticate hash "b" "c" two_jobs)
revoke_rejects_example = revoke_rejects hash "a" "c" "b" two_jobs

-- two jobs are queued, and one is leased
abbrev run_of_two : Store
run_of_two =
    (lease_next 10 11 "t" "a"
      (enqueue 6 "id2" "t" "a" "run_sweep" null none
        (enqueue 5 "id1" "t" "a" "run_sweep" null none (empty_store 30 2 100)).1).1).1

Reach-StoreValid_example : StoreValid run_of_two
Reach-StoreValid_example =
    Reach-StoreValid hash
      (next
        (next (next here (enqueued 5 "id1" "t" "a" "run_sweep" null none))
          (enqueued 6 "id2" "t" "a" "run_sweep" null none))
        (leased 10 11 "t" "a"))
      (empty_store-StoreValid 30 2 100)
