-- ===== src/ControlPlane/App.antt =====
-- src/paperless_control_plane/app.py: the handlers of the agent protocol, over the store and the
-- billing. A request draws the readings of the clock, the uuid and the random texts that it may
-- need from `Draws`. A parked `GET /agent/work` is a list of rounds: the readings of the clock in
-- each, and what other threads do while it waits. What a dashboard shows is not modelled, only that
-- it is served.
pub mod Routes
pub mod Guards
pub mod Hosted
pub mod Overshoot
pub mod Threads
pub mod Flight
pub mod Spent
use paperless_assistant.Base.{
  ℕ, zero, suc, ◌+◌, refl, inl, inr, Bool, true, false, not, ◌||◌, ◌&&◌, String, Option, none, some,
  List, [], ◌∷◌, arith, leb, ◌==◌, nat_eq, string_eq, pair_eq, if◌then◌else◌,
}
use paperless_assistant.Base.Dict.{Dict, lookup}
use paperless_assistant.Base.Json.{Json}
use paperless_assistant.Base.Text.{after_prefix, strip}
use paperless_assistant.ControlPlane.Store.{Agent, Job, Store}
use paperless_assistant.ControlPlane.Store.Agents.{Enrolled, enroll, authenticate, record_heartbeat}
use paperless_assistant.ControlPlane.Store.Queue.{enqueue, lease_next}
use paperless_assistant.ControlPlane.Store.Results.{ack}
use paperless_assistant.ControlPlane.Billing.{Billing, check_entitled, check_spend_cap}
use paperless_assistant.ControlPlane.Inference.{
  Proxy, Request, Vendor, InferenceResult, RunResult, done, unpriced_model, inference_error,
  other_error, run, or_else,
}

abbrev pub Headers : Type 0
Headers = Dict String String

-- the fields of a request's JSON body that some handler reads
pub record Body : Type 0 where
  pub enrollment_token : Option String
  pub job_id : Option String
  pub result : Option Json
  pub status : Json
  pub tenant : Option String
  pub agent_id : Option String
  pub job_type : Option String
  pub payload : Json
  pub request : Request

pub data Answer : Type 0 where
  empty : Answer
  error : String → Answer
  credentials : Enrolled → Answer
  job : Job → Answer
  acked : String → Answer
  beat : Answer
  inferred : InferenceResult → Answer
  enqueued : Job → Answer
  view : String → Answer

pub record Response : Type 0 where
  pub status : ℕ
  pub answer : Answer

abbrev pub response : ℕ → Answer → Response
response status answer = record { status = status; answer = answer }

-- the control plane: its store, its billing and the calls of the vendor's model
pub record World : Type 0 where
  pub store : Store
  pub vendor : Vendor

pub record Config : Type 0 where
  pub poll_timeout : ℕ
  pub admin_token : String
  pub inference_proxy : Option Proxy
  pub dashboard : Bool

pub record Draws : Type 0 where
  pub now : ℕ
  pub now' : ℕ
  pub uuid : String
  pub credential : String
  pub salt : String

pub record Round : Type 0 where
  pub now : ℕ
  pub now' : ℕ
  pub checked : ℕ
  pub others : World → World

-- `headers.get(name) or headers.get(other)`, "" where both are missing or empty
unfoldable pub header : String → String → Headers → String
unfolding or_else
header name other headers = or_else (lookup name headers) (or_else (lookup other headers) "")

-- `_bearer`; `none` and an empty credential are both refused by the callers
unfoldable pub bearer : Headers → Option String
unfolding header
bearer headers = elim (after_prefix "bearer " (header "Authorization" "authorization" headers)) [
  | none ↦ none
  | some rest ↦ some (strip rest)
]

-- entitlement, then the spend cap
unfoldable pub refusal_of : String → Billing → Option Response
refusal_of tenant b = elim (check_entitled tenant b) [
  | some refused ↦ some (response 402 (error "unentitled"))
  | none ↦ elim (check_spend_cap tenant b) [
    | some refused ↦ some (response 429 (error "spend_cap"))
    | none ↦ none
  ]
]

-- `none`: an exception that the handler does not catch
abbrev pub run_response : RunResult → Option Response
run_response (done result) = some (response 200 (inferred result))
run_response unpriced_model = some (response 500 (error "unpriced_model"))
run_response inference_error = some (response 400 (error "inference_error"))
run_response other_error = none

-- `_inference` of a tenant that is authenticated, with no other request between its checks and its
-- metering; Threads has the two as steps
unfoldable pub infer : Proxy → Draws → String → Request → Vendor → Option Response × Vendor
unfolding refusal_of
infer proxy draws tenant request v =
    let (result, v') = run proxy draws.now tenant request v in
    elim (refusal_of tenant v.billing) [
      | some refused ↦ (some refused, v)
      | none ↦ (run_response result, v')
    ]

module _ (scrypt : String → String → String) where
  unfoldable pub authed_agent : Headers → Store → Option Agent
  unfolding bearer header or_else
  authed_agent headers s =
      let agent_id = header "X-Agent-Id" "x-agent-id" headers in
      let credential = or_else (bearer headers) "" in
      if agent_id == "" || credential == "" then none else authenticate scrypt agent_id credential s

  unfoldable pub enroll_handler : Draws → Body → World → Response × World
  unfolding or_else
  enroll_handler draws body w =
      let token = or_else body.enrollment_token "" in
      let (given, s) =
        enroll scrypt draws.now draws.uuid draws.credential draws.salt token w.store in
      if token == "" then (response 400 (error "missing enrollment_token"), w) else elim given [
        | none ↦ (
          response 401 (error "invalid or already-used enrollment token"),
          record w { store = s },
        )
        | some creds ↦ (response 200 (credentials creds), record w { store = s })
      ]

  -- the loop of `_work`; `none` while the poll is still parked
  unfoldable pub work_loop : ℕ → String → String → List Round → World → Option Response × World
  work_loop deadline tenant agent_id [] w = (none, w)
  work_loop deadline tenant agent_id (r ∷ rounds) w =
      let (leased, s) = lease_next r.now r.now' tenant agent_id w.store in
      let w' = record w { store = s } in
      let parked = work_loop deadline tenant agent_id rounds (r.others w') in
      elim leased [
        | some j ↦ (some (response 200 (job j)), w')
        | none ↦ if leb deadline r.checked then (some (response 204 empty), w') else parked
      ]

  unfoldable pub work_handler :
      Config → Draws → Headers → List Round → World → Option Response × World
  unfolding authed_agent work_loop
  work_handler config draws headers rounds w = elim (authed_agent headers w.store) [
    | none ↦ (some (response 401 (error "unauthenticated")), w)
    | some agent ↦ work_loop (draws.now + config.poll_timeout) agent.tenant agent.agent_id rounds w
  ]

  unfoldable pub results_handler : Draws → Headers → Body → World → Response × World
  unfolding authed_agent or_else
  results_handler draws headers body w = elim (authed_agent headers w.store) [
    | none ↦ (response 401 (error "unauthenticated"), w)
    | some agent ↦
        let job_id = or_else body.job_id "" in
        let s =
          (ack draws.now draws.now' agent.tenant agent.agent_id job_id body.result w.store).1 in
        if job_id == ""
        then (response 400 (error "missing job_id"), w)
        else (response 200 (acked job_id), record w { store = s })
  ]

  unfoldable pub heartbeat_handler : Draws → Headers → Body → World → Response × World
  unfolding authed_agent
  heartbeat_handler draws headers body w = elim (authed_agent headers w.store) [
    | none ↦ (response 401 (error "unauthenticated"), w)
    | some agent ↦ (
      response 200 beat,
      record w { store = record_heartbeat draws.now agent.agent_id body.status w.store },
    )
  ]

  unfoldable pub inference_handler :
      Config → Draws → Headers → Body → World → Option Response × World
  unfolding authed_agent infer
  inference_handler config draws headers body w = elim (authed_agent headers w.store) [
    | none ↦ (some (response 401 (error "unauthenticated")), w)
    | some agent ↦ elim config.inference_proxy [
      | none ↦ (some (response 501 (error "not_configured")), w)
      | some proxy ↦
          let (answer, v) = infer proxy draws agent.tenant body.request w.vendor in
          (answer, record w { vendor = v })
    ]
  ]

-- The admin's bearer, else the header X-Admin-Token.
unfoldable pub admin_allowed : Config → Headers → Bool
unfolding bearer header or_else
admin_allowed config headers =
    let provided = or_else (bearer headers) (or_else (lookup "X-Admin-Token" headers) "") in
    config.admin_token == "" || (not (provided == "") && provided == config.admin_token)

unfoldable pub admin_enqueue_handler : Config → Draws → Headers → Body → World → Response × World
unfolding admin_allowed or_else
admin_enqueue_handler config draws headers body w =
    let tenant = or_else body.tenant "t-default" in
    let agent_id = or_else body.agent_id "" in
    let job_type = or_else body.job_type "" in
    let (queued, s) =
      enqueue draws.now draws.uuid tenant agent_id job_type body.payload body.job_id w.store in
    if not (admin_allowed config headers)
    then (response 401 (error "admin unauthenticated"), w)
    else if agent_id == "" || job_type == ""
    then (response 400 (error "require agent_id and type"), w)
    else (response 200 (enqueued queued), record w { store = s })
