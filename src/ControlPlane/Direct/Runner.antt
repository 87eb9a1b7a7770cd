-- ===== src/ControlPlane/Direct/Runner.antt =====
-- src/paperless_control_plane/direct.py: the session with its allow-list, the transport of the AI
-- step, and DirectRunner. The engine is a program that dials through the session and asks the model
-- through the transport: a tree of its calls, each with what it does on either reply.
use paperless_assistant.Base.{
  ℕ, Bool, true, false, not, ◌||◌, String, Option, none, some, List, [], ◌∷◌, ◌++◌, length, ◌==◌,
  nat_eq, string_eq, pair_eq, if◌then◌else◌, contains,
}
use paperless_assistant.Base.Json.{Json}
use paperless_assistant.Base.Text.{rstrip_slash, same_letters}
use paperless_assistant.Base.Money.{Usd, round6}
use paperless_assistant.ControlPlane.Billing.{Billing, check_entitled, check_spend_cap}
use paperless_assistant.ControlPlane.Inference.{
  Proxy, Request, Vendor, InferenceResult, RunResult, done, unpriced_model, inference_error,
  other_error, run,
}
use paperless_assistant.ControlPlane.Direct.{
  Target, TargetStore, lower_all, host_of, get_target, record_review,
}

-- a request that the session is given; `allow_redirects` where the caller passes it
pub record Dial : Type 0 where
  pub method : String
  pub url : String
  pub allow_redirects : Option Bool

-- a reply of the remote server: its status and its body
pub record Reply : Type 0 where
  pub status : ℕ
  pub body : Json

-- the bodies of the transport's answers, by their `reason`
pub data TransportBody : Type 0 where
  failed : String → TransportBody
  result : InferenceResult → TransportBody

-- `kw.setdefault("allow_redirects", False)`
abbrev pub no_redirects : Dial → Dial
no_redirects d = elim d.allow_redirects [
  | none ↦ record d { allow_redirects = some false }
  | some given ↦ d
]

-- the redirects that the session below follows: all that it meets where it is asked to, else none
abbrev pub followed : Option Bool → List Dial → List Dial
followed (some true) redirects = redirects
followed _ redirects = []

-- what a sweep reports, as far as the runner reads it
pub record EngineReport : Type 0 where
  pub dry_run : Bool
  pub counts : List (String × ℕ)
  pub spend : Usd
  pub superseded : List ℕ
  pub new_taxonomy : List String

-- A program of the engine. It goes on with the reply, with `none` where the session refused, which it
-- may catch; it ends with a report or with an exception.
pub data Program : Type 0 where
  finish : Option EngineReport → Program
  dial : Dial → (Option Reply → Program) → Program
  ask : Request → (Option (ℕ × TransportBody) → Program) → Program

-- the summary that a run returns
pub record Summary : Type 0 where
  pub target_id : ℕ
  pub tenant : String
  pub paperless_host : String
  pub dry_run : Bool
  pub counts : List (String × ℕ)
  pub spend_usd : Usd
  pub review : ℕ × ℕ

-- the two `DirectTargetError`s of `run`, an exception of the engine, or the summary
pub data RunOutcome : Type 0 where
  no_such_target target_disabled raised : RunOutcome
  ran : Summary → RunOutcome

-- what the outside sees of a run: the requests that were dialled, and the vendor's model
pub record RunState : Type 0 where
  pub dialled : List Dial
  pub vendor : Vendor

-- `AllowListSession.__init__`
abbrev pub session_hosts : List String → List String
session_hosts allowed_hosts = lower_all allowed_hosts

abbrev pub path_inference : String
path_inference = "/agent/inference"

-- a refusal of the transport, the entitlement before the cap
unfoldable pub direct_refusal : String → Billing → Option (ℕ × TransportBody)
direct_refusal tenant b = elim (check_entitled tenant b) [
  | some refused ↦ some (402, failed "unentitled")
  | none ↦ elim (check_spend_cap tenant b) [
    | some reached ↦ some (429, failed "spend_cap")
    | none ↦ none
  ]
]

-- `none`: an exception that the transport does not catch
abbrev pub proxy_reply : RunResult → Option (ℕ × TransportBody)
proxy_reply (done r) = some (200, result r)
proxy_reply unpriced_model = some (500, failed "unpriced_model")
proxy_reply inference_error = some (400, failed "inference_error")
proxy_reply other_error = none

-- `_InProcessInferenceTransport.request`
unfoldable pub transport_request :
    Proxy → ℕ → String → String → String → Request → Vendor → Option (ℕ × TransportBody) × Vendor
unfolding direct_refusal
transport_request proxy now tenant method path request v =
    let (outcome, v') = run proxy now tenant request v in
    if not (same_letters method "POST") || not (rstrip_slash path == path_inference)
    then (some (404, failed "not found"), v)
    else elim (direct_refusal tenant v.billing) [
      | some answer ↦ (some answer, v)
      | none ↦ (proxy_reply outcome, v')
    ]

module _ (hostname : String → Option String) where
  -- `AllowListSession._check`
  unfoldable pub is_allowed : List String → String → Bool
  is_allowed allowed_hosts url = contains (host_of hostname url) (session_hosts allowed_hosts)

  -- `rec.get("allowed_hosts") or [_host_of(url)]`
  unfoldable pub allowed_of : Target → List String
  allowed_of t = elim t.allowed_hosts [
    | [] ↦ host_of hostname t.paperless_url ∷ []
    | h ∷ hosts ↦ h ∷ hosts
  ]

  -- behind the sweep: the review counts go to the target, the summary to the caller
  unfoldable pub run_outcome :
      ℕ → ℕ → Target → Option EngineReport → TargetStore → RunOutcome × TargetStore
  unfolding round6
  run_outcome now target_id t none targets = (raised, targets)
  run_outcome now target_id t (some report) targets =
      let superseded = length report.superseded in
      let ai_new_taxonomy = length report.new_taxonomy in
      (
        ran (record {
          target_id = target_id;
          tenant = t.tenant;
          paperless_host = host_of hostname t.paperless_url;
          dry_run = report.dry_run;
          counts = report.counts;
          spend_usd = round6 report.spend;
          review = (superseded, ai_new_taxonomy);
        }),
        (record_review now target_id superseded ai_new_taxonomy targets).1,
      )

  -- the session below: its reply behind the last redirect, and the redirects that it meets
  module _ (remote : List Dial → Dial → Reply × List Dial) where
    -- `AllowListSession.request` and `post`; no redirect is checked against the hosts
    unfoldable pub session_request : List String → Dial → List Dial → Option Reply × List Dial
    unfolding is_allowed
    session_request allowed_hosts d dialled =
        let d' = no_redirects d in
        let (reply, redirects) = remote dialled d' in
        if is_allowed allowed_hosts d.url
        then (some reply, dialled ++ d' ∷ followed d'.allow_redirects redirects)
        else (none, dialled)

    module _ (proxy : Proxy) (clock : List Dial → Vendor → ℕ) where
      -- The engine runs: `_build_client` gives it the session, `_build_cfg` the transport.
      unfoldable pub run_program :
          List String → String → Program → RunState → Option EngineReport × RunState
      unfolding session_request transport_request
      run_program allowed_hosts tenant (finish report) s = (report, s)
      run_program allowed_hosts tenant (dial d next) s =
          let (reply, dialled) = session_request allowed_hosts d s.dialled in
          run_program allowed_hosts tenant (next reply) (record s { dialled = dialled })
      run_program allowed_hosts tenant (ask request next) s =
          let (reply, v) =
            transport_request proxy (clock s.dialled s.vendor) tenant "POST" path_inference request
              s.vendor in
          run_program allowed_hosts tenant (next reply) (record s { vendor = v })

      module _ (engine : String → String → String → Option ℕ → Option Bool → Program) where
        -- `DirectRunner.run`, with what it leaves of the registry and of the run
        unfoldable pub run_target :
            ℕ
            → ℕ
            → Option ℕ
            → Option Bool
            → TargetStore
            → RunState
            → RunOutcome × TargetStore × RunState
        unfolding run_program allowed_of run_outcome get_target
        run_target now target_id limit dry_run targets s = elim (get_target target_id targets) [
          | none ↦ (no_such_target, targets, s)
          | some t ↦
              let (report, s') =
                run_program (allowed_of t) t.tenant
                  (engine t.tenant t.paperless_url t.token limit dry_run) s in
              let outcome = run_outcome now target_id t report targets in
              if t.enabled then (outcome.0, outcome.1, s') else (target_disabled, targets, s)
        ]
