-- ===== src/Agent/Hosted.antt =====
-- src/paperless_assistant/hosted.py: the agent in hosted mode, which pulls jobs of the control
-- plane, runs them and pushes their results. The transport and the engine that runs a job, to a
-- report or an exception, are parameters with a state of their own; the log and the sleeping between two polls are not
-- modelled.
pub mod Loop
pub mod Keeps
pub mod Runs
pub mod Once
pub mod Backoff
use paperless_assistant.Base.{
  ℕ, zero, suc, ◌+◌, refl, inl, inr, Bool, true, false, not, ◌&&◌, String, Option, none, some, List,
  [], ◌∷◌, arith, any, nat_beq, nat_eq, string_eq, pair_eq, if◌then◌else◌, contains,
}
use paperless_assistant.Base.Dict.{Dict}
use paperless_assistant.Base.Json.{Json}
use paperless_assistant.Base.Json.{num, text, arr, obj, Items, nil, cons, Fields, end, field}
use paperless_assistant.Base.Text.{same_letters}
use paperless_assistant.Base.Money.{Usd, round6}
use paperless_assistant.Agent.HostedState.{
  Identity, JobCursor, ResultQueue, QueuedResult, pulled, executing, executed, acked, is_at_least,
  advance, remove, enqueue,
}
use paperless_assistant.Agent.HostedState.Results.{queued_ids}

-- a job as the control plane sends it
pub record HostedJob : Type 0 where
  pub job_id : String
  pub type : Json
  pub payload : Json

-- What `build_result` reads of the engine's report: `merged_counts()` and `total_spend()`.
pub record Report : Type 0 where
  pub counts : Dict String ℕ
  pub total_spend : Usd

-- A request by its method, path, headers and body; the identity stands for `_auth_headers()`.
pub data WireRequest : Type 0 where
  post_enroll : String → WireRequest
  get_work : Identity → WireRequest
  post_results : Identity → String → Json → WireRequest
  post_heartbeat : Identity → ℕ → ℕ → WireRequest

-- what the agent reads of an answer: its status, a job, an identity
pub record WireReply : Type 0 where
  pub status : ℕ
  pub job : Option HostedJob
  pub enrolled : Option Identity

-- `transport.request`: a `TransportError` or an answer
pub data Sent : Type 0 where
  unreachable : Sent
  answered : WireReply → Sent

pub data HostedError : Type 0 where
  transport_error revoked enrollment_error other_error : HostedError

-- how a method ends: it returns or raises
pub data Ended (A : Type 0) : Type 0 where
  ok : A → Ended A
  raised : HostedError → Ended A

-- `HostedAgent`: the stored credential, the one in memory, the state under /data, and the states of
-- the control plane and of the engine
pub record HostedAgent (N E : Type 0) : Type 0 where
  pub creds : Option Identity
  pub identity : Option Identity
  pub cursor : JobCursor
  pub results : ResultQueue
  pub last_heartbeat : ℕ
  pub network : N
  pub engine : E

-- `settings.hosted`
pub record HostedConfig : Type 0 where
  pub enrollment_token : String
  pub heartbeat_interval_seconds : ℕ
  pub reconnect_backoff_min : ℕ
  pub reconnect_backoff_max : ℕ

abbrev pub forbidden_result_keys : List String
forbidden_result_keys =
    "paperless_token" ∷ "token" ∷ "anthropic_api_key" ∷ "openai_api_key" ∷ "api_key"
    ∷ "agent_credential" ∷ "secret" ∷ []

unfoldable mutual
  -- `_assert_no_secrets`: whether it passes
  pub no_secrets : Json → Bool
  no_secrets (obj fields) = no_secrets_fields fields
  no_secrets (arr items) = no_secrets_items items
  no_secrets _ = true

  pub no_secrets_fields : Fields → Bool
  no_secrets_fields end = true
  no_secrets_fields (field k v fields) =
      not (any (same_letters k) forbidden_result_keys) && no_secrets v && no_secrets_fields fields

  pub no_secrets_items : Items → Bool
  no_secrets_items nil = true
  no_secrets_items (cons v items) = no_secrets v && no_secrets_items items

unfoldable pub counts_fields : Dict String ℕ → Fields
counts_fields [] = end
counts_fields ((k, n) ∷ counts) = field k (num n) (counts_fields counts)

-- the body that both results have
abbrev pub result_body : HostedJob → String → Fields → Usd → Json
result_body job outcome counts spend = obj (
    field "job_id" (text job.job_id) (
      field "type" job.type (
        field "outcome" (text outcome) (
          field "counts" (obj counts)
            (field "usage" (obj (field "spend_usd" (num spend) end)) end)))))

-- `none`: the assertion of `_assert_no_secrets` fails
unfoldable pub checked : Json → Option Json
unfolding no_secrets
checked body = if no_secrets body then some body else none

unfoldable pub build_result : HostedJob → Report → Option Json
unfolding checked counts_fields
build_result job report =
    checked (result_body job "completed" (counts_fields report.counts) (round6 report.total_spend))

unfoldable pub dedup_result : HostedJob → Option Json
unfolding checked
dedup_result job = checked (result_body job "already_done" end 0)

-- `_on_revoked`
unfoldable pub on_revoked : {N E A : Type 0} → HostedAgent N E → Ended A × HostedAgent N E
on_revoked a = (raised revoked, record a { creds = none; identity = none })

-- one result that the control plane took
unfoldable pub flushed_one : {N E : Type 0} → QueuedResult → HostedAgent N E → HostedAgent N E
flushed_one it a = record a {
  results = remove it.job_id a.results;
  cursor = advance it.job_id acked [] a.cursor;
}

module _ {N E : Type 0} (request : WireRequest → N → Sent × N) where
  -- the loop of `flush_results`, with its counter; `_auth_headers` fails where there is no identity
  unfoldable pub flush_loop : List QueuedResult → ℕ → HostedAgent N E → Ended ℕ × HostedAgent N E
  unfolding on_revoked flushed_one
  flush_loop [] flushed a = (ok flushed, a)
  flush_loop (it ∷ items) flushed a = elim a.identity [
    | none ↦ (raised other_error, a)
    | some identity ↦
        let (sent, network) = request (post_results identity it.job_id it.result) a.network in
        let a' = record a { network = network } in
        let rest = flush_loop items (flushed + 1) (flushed_one it a') in
        elim sent [
          | unreachable ↦ (ok flushed, a')
          | answered reply ↦
              if nat_beq reply.status 401
              then on_revoked a'
              else if nat_beq reply.status 200
              then rest
              else (ok flushed, a')
        ]
  ]

  unfoldable pub flush_results : HostedAgent N E → Ended ℕ × HostedAgent N E
  unfolding flush_loop
  flush_results a = flush_loop a.results 0 a

  -- a method that ends by `flush_results` and returns nothing of it
  unfoldable pub flush_last : HostedAgent N E → Ended Unit × HostedAgent N E
  unfolding flush_results
  flush_last a =
      let (ended, a') = flush_results a in
      (elim ended [ ok n ↦ ok tt | raised error ↦ raised error ], a')

module _ {N E : Type 0} (request : WireRequest → N → Sent × N)
    (runner : HostedJob → E → Ended Report × E) where
  -- the first branch of `_execute_and_push`: a job that has been executed
  unfoldable pub push_again : HostedJob → HostedAgent N E → Ended Unit × HostedAgent N E
  unfolding flush_last
  push_again job a =
      if not (contains job.job_id (queued_ids a.results))
        && not (is_at_least job.job_id acked a.cursor)
      then elim (dedup_result job) [
        | none ↦ (raised other_error, a)
        | some result ↦
            flush_last request (record a { results = enqueue job.job_id result a.results })
      ]
      else flush_last request a

  -- its rest: the job is run, and its result is queued and pushed
  unfoldable pub execute : HostedJob → HostedAgent N E → Ended Unit × HostedAgent N E
  unfolding flush_last
  execute job a =
      let pulled_at = advance job.job_id pulled (("type", job.type) ∷ []) a.cursor in
      let started = advance job.job_id executing [] pulled_at in
      let (outcome, engine) = runner job a.engine in
      let a' = record a { cursor = started; engine = engine } in
      elim outcome [
        | raised error ↦ (raised error, a')
        | ok report ↦ elim (build_result job report) [
          | none ↦ (raised other_error, a')
          | some result ↦ flush_last request (record a' {
            cursor = advance job.job_id executed [] started;
            results = enqueue job.job_id result a.results;
          })
        ]
      ]

  unfoldable pub execute_and_push : HostedJob → HostedAgent N E → Ended Unit × HostedAgent N E
  unfolding push_again execute
  execute_and_push job a =
      if is_at_least job.job_id executed a.cursor then push_again job a else execute job a
