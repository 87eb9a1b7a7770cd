-- ===== src/ControlPlane/Direct/Examples.antt =====
-- A registry with one target, an engine that dials and asks, and what the theorems on direct.py say of
-- them.
use paperless_assistant.Base.{
  inl, ℕ, ◌≡◌, refl, ◌≢◌, ◌⊎◌, Bool, true, false, String, Option, none, some, List, [], ◌∷◌, ◌==◌,
  nat_eq, string_eq, pair_eq, if◌then◌else◌,
}
use paperless_assistant.Base.Dict.{lookup, insert}
use paperless_assistant.Base.Json.{null}
use paperless_assistant.Base.Text.{lower_case, rstrip, rstrip_slash}
use paperless_assistant.ControlPlane.Billing.{empty_billing}
use paperless_assistant.ControlPlane.Billing.Checks.{MayInfer}
use paperless_assistant.ControlPlane.Inference.{or_else, replied, Proxy, Request, Vendor}
use paperless_assistant.ControlPlane.App.{Draws, infer}
use paperless_assistant.ControlPlane.Direct.{
  Target, TargetStore, empty_targets, lower_all, hosts_of, host_of, add_target, get_target,
  set_enabled, revoke_target,
}
use paperless_assistant.ControlPlane.Direct.Runner.{
  Dial, Reply, EngineReport, Program, finish, dial, ask, RunState, no_such_target, path_inference,
  transport_request, allowed_of, run_target,
}
use paperless_assistant.ControlPlane.Direct.Registry.{
  TargetsValid, TargetReach, here, next, adds, enables, TargetReach-TargetsValid,
}
use paperless_assistant.ControlPlane.Direct.Revoked.{run_target-revoked}
use paperless_assistant.ControlPlane.Direct.Egress.{OnlySafe, run_target-OnlySafe}
use paperless_assistant.ControlPlane.Direct.Metered.{as_pair, transport_request-infer}
use paperless_assistant.ControlPlane.Direct.Refusals.{provider_call, IsRefusal, hosted_call-checks}
use paperless_assistant.Providers.Hosted.{hosted_refused}
use mathlib.Core.Option
use paperless_assistant.Base.Sorted.{insert_sorted, sorted_set}

-- the host of the two addresses that are used here
abbrev hostname : String → Option String
hostname url =
    if url == "https://Docs.example"
    then some "Docs.example"
    else if url == "http://169.254.0.1/x"
    then some "169.254.0.1"
    else none

abbrev one_target : TargetStore
one_target =
    (add_target hostname 1 2 "t" "https://Docs.example/" "secret" none true empty_targets).1

one_target_host :
    Option.map (λ (t : Target). t.allowed_hosts) (get_target 1 one_target)
    ≡ some ("docs.example" ∷ [])
unfolding get_target add_target host_of hosts_of lower_all lower_case rstrip_slash rstrip or_else
    sorted_set insert_sorted insert lookup
one_target_host = refl

abbrev proxy : Proxy
proxy =
    let answer = replied (record { output = null; in_tokens = 500; out_tokens = 100 }) in
    record {
      backend = record {
        transcribe = λ doc model opts. answer;
        extract_structured = λ prompt schema model opts. answer;
      };
      default_model_transcribe = "claude-opus-4-8";
      default_model_extract = "claude-opus-4-8";
      pricing_provider = "anthropic";
    }

abbrev transcription : Request
transcription = record {
  task = some "transcribe";
  opts = null;
  doc_b64 = some "JVBERi0=";
  prompt = none;
  schema = none;
  model = none;
}

-- no tenant has a subscription
abbrev no_subscription : Vendor
no_subscription = record { billing = empty_billing; calls = [] }

abbrev draws : Draws
draws = record { now = 5; now' = 5; uuid = ""; credential = ""; salt = "" }

transport_request-infer_example :
    transport_request proxy 5 "t" "POST" path_inference transcription no_subscription ≡ (
      Option.map as_pair (infer proxy draws "t" transcription no_subscription).0,
      (infer proxy draws "t" transcription no_subscription).1,
    )
transport_request-infer_example =
    transport_request-infer proxy draws "t" transcription no_subscription

hosted_call-checks_example :
    let (reply, v') =
      transport_request proxy 5 "t" "POST" path_inference transcription no_subscription in
    (MayInfer "t" empty_billing
      × ((reason : String) (status : ℕ) → provider_call reply ≢ hosted_refused reason status))
    ⊎ ((¬ MayInfer "t" empty_billing) × (v' ≡ no_subscription) × IsRefusal (provider_call reply))
hosted_call-checks_example = hosted_call-checks proxy draws "t" transcription no_subscription

-- the remote server, and an engine that dials the target, then another host, and asks the model
abbrev remote : List Dial → Dial → Reply × List Dial
remote dialled d = (
  record { status = 200; body = null },
  record { method = "GET"; url = "http://other/"; allow_redirects = none } ∷ [],
)

abbrev clock : List Dial → Vendor → ℕ
clock dialled v = 5

abbrev get : String → Dial
get url = record { method = "GET"; url = url; allow_redirects = none }

abbrev report : EngineReport
report = record { dry_run = true; counts = []; spend = 0; superseded = []; new_taxonomy = [] }

abbrev engine : String → String → String → Option ℕ → Option Bool → Program
engine tenant url token limit dry_run = dial (get url) (λ first.
    dial (get "http://169.254.0.1/x")
      (λ second. ask transcription (λ answer. finish (some report))))

abbrev idle : RunState
idle = record { dialled = []; vendor = no_subscription }

run_target-OnlySafe_example :
    let (_, _, s') = run_target hostname remote proxy clock engine 9 1 none none one_target idle in
    (s'.dialled ≡ [])
    ⊎ ((t : Target) × (get_target 1 one_target ≡ some t)
        × (t.enabled ≡ true)
        × OnlySafe hostname (allowed_of hostname t) [] s'.dialled)
run_target-OnlySafe_example =
    run_target-OnlySafe hostname remote proxy clock engine 9 1 none none one_target idle
      (λ tenant url token. (inl refl, λ first. (inl refl, λ second answer. tt)))

-- the target is added, disabled, and enabled again
abbrev switched : TargetStore
switched = (set_enabled 4 1 true (set_enabled 3 1 false one_target).1).1

to_one : TargetReach hostname empty_targets one_target
to_one = next here (adds 1 2 "t" "https://Docs.example/" "secret" none true empty_targets)

TargetReach-TargetsValid_example : TargetsValid hostname switched
TargetReach-TargetsValid_example = TargetReach-TargetsValid hostname (
    next (next to_one (enables 3 1 false one_target))
      (enables 4 1 true (set_enabled 3 1 false one_target).1))

-- the target's record
abbrev stored : Target
stored = record {
  target_id = 1;
  tenant = "t";
  paperless_url = "https://Docs.example";
  allowed_hosts = "docs.example" ∷ [];
  enabled = true;
  created_at = 1;
  updated_at = 2;
  token = "secret";
  last_review = none;
}

one_target_stored : lookup 1 one_target.targets ≡ some stored
unfolding add_target host_of hosts_of lower_all lower_case rstrip_slash rstrip or_else sorted_set
    insert_sorted insert lookup
one_target_stored = refl

-- another target is added behind the revocation
run_target-revoked_example :
    let revoked = (revoke_target 1 one_target).1 in
    let later = (add_target hostname 7 8 "u" "https://Docs.example/" "other" none true revoked).1 in
    run_target hostname remote proxy clock engine 9 1 none none later idle
    ≡ (no_such_target, later, idle)
run_target-revoked_example =
    let revoked = (revoke_target 1 one_target).1 in
    run_target-revoked hostname remote proxy clock engine 9 1 none none stored one_target
      (add_target hostname 7 8 "u" "https://Docs.example/" "other" none true revoked).1 idle
      (TargetReach-TargetsValid hostname to_one) one_target_stored
      (next here (adds 7 8 "u" "https://Docs.example/" "other" none true revoked))
