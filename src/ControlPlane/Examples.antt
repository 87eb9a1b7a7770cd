-- ===== src/ControlPlane/Examples.antt =====
-- A tenant with a cap and an agent, and what the theorems on billing.py, inference.py and app.py say
-- of them.
use paperless_assistant.Base.{
  ◌<◌, ◌*◌, ◌+◌, ◌≤◌, ◌≡◌, refl, ◌⊎◌, true, String, none, some, List, [], ◌∷◌, arith, nat_eq,
  string_eq, pair_eq,
}
use paperless_assistant.Base.Dict.{lookup, insert, get_or}
use mathlib.Core.Path.{subst}
use paperless_assistant.Base.Json.{null}
use paperless_assistant.Base.Money.{round6}
use paperless_assistant.Base.Text.{same_letters, after_prefix, starts_with, rstrip, before_mark}
use paperless_assistant.Providers.Pricing.{cost_of}
use paperless_assistant.ControlPlane.Store.{Job, Store, empty_store}
use paperless_assistant.ControlPlane.Store.Queue.{enqueue}
use paperless_assistant.ControlPlane.Store.Routing.{Routed, enqueue-Routed}
use paperless_assistant.ControlPlane.Store.Steps.{empty_store-StoreValid}
use paperless_assistant.ControlPlane.Billing.{
  Billing, empty_billing, record_usage, spend_total, cap_of, check_entitled, check_spend_cap,
  subscription,
}
use paperless_assistant.ControlPlane.Billing.Ledger.{Rounded, record_usage-Rounded}
use paperless_assistant.ControlPlane.Billing.Checks.{MayInfer}
use paperless_assistant.ControlPlane.Inference.{
  Reply, replied, Proxy, Request, Vendor, run, or_else,
}
use paperless_assistant.ControlPlane.Inference.Metering.{RunSpec, run-RunSpec, CostBounded}
use paperless_assistant.ControlPlane.App.{
  header, bearer, Body, World, Config, Draws, Round, authed_agent, admin_allowed, run_response,
  infer, refusal_of,
}
use paperless_assistant.ControlPlane.App.Routes.{normal_path, route, handle}
use paperless_assistant.ControlPlane.App.Guards.{handle_guarded}
use paperless_assistant.ControlPlane.App.Hosted.{IsRefused, infer_checks}
use paperless_assistant.ControlPlane.App.Threads.{
  ServingEvent, arrives, answers, AtMost, serve_events, serving_step, arrive, answer, take_out,
}
use paperless_assistant.ControlPlane.App.Overshoot.{serve_events_overshoot}

abbrev hash : String → String → String
hash credential salt = credential

abbrev tenant_t : String
tenant_t = "t"

-- a tenant with an active subscription and a cap of one cent
abbrev capped : Billing
capped = record empty_billing {
  subs =
      (
        "t",
        record {
          tenant = "t";
          status = "active";
          spend_cap = 1000000;
          created_at = 1;
          updated_at = 1;
        },
      )
      ∷ [];
}

-- the same tenant after a call of 0.005 dollar
abbrev used : Billing
used = (record_usage 5 "t" "transcribe" "claude-opus-4-8" 500 100 500000 capped).1

capped-Rounded : Rounded capped
unfolding get_or lookup
capped-Rounded = record { at = λ tenant. tt }

used-Rounded : Rounded used
used-Rounded =
    record_usage-Rounded 5 "t" "transcribe" "claude-opus-4-8" 500 100 500000 capped capped-Rounded

abbrev small_reply : Reply
small_reply = record { output = null; in_tokens = 0; out_tokens = 0 }

-- a model that always gives an empty reply
abbrev proxy : Proxy
proxy = record {
  backend = record {
    transcribe = λ doc model opts. replied small_reply;
    extract_structured = λ prompt schema model opts. replied small_reply;
  };
  default_model_transcribe = "claude-opus-4-8";
  default_model_extract = "claude-opus-4-8";
  pricing_provider = "anthropic";
}

abbrev transcribe_request : Request
transcribe_request = record {
  task = some "transcribe";
  opts = null;
  doc_b64 = some "AA==";
  prompt = none;
  schema = none;
  model = none;
}

abbrev vendor : Vendor
vendor = record { billing = used; calls = [] }

abbrev draws : Draws
draws = record { now = 7; now' = 8; uuid = "u"; credential = "c"; salt = "s" }

run-RunSpec_example :
    RunSpec proxy 7 "t" vendor transcribe_request (run proxy 7 "t" transcribe_request vendor)
run-RunSpec_example = run-RunSpec proxy 7 "t" vendor transcribe_request

infer_checks_example :
    (MayInfer "t" used
      × (infer proxy draws "t" transcribe_request vendor ≡ (
        run_response (run proxy 7 "t" transcribe_request vendor).0,
        (run proxy 7 "t" transcribe_request vendor).1,
      )))
    ⊎ ((¬ MayInfer "t" used) × IsRefused vendor (infer proxy draws "t" transcribe_request vendor))
infer_checks_example = infer_checks proxy draws "t" transcribe_request vendor

small_reply-cost : (model : String) → round6 (cost_of "anthropic" model 0 0) ≤ 100
unfolding cost_of round6
small_reply-cost model = ground arith

proxy-CostBounded : CostBounded proxy 100
proxy-CostBounded = record {
  transcribe_bounded = λ doc model opts reply e.
      subst (λ (r : Reply). round6 (cost_of "anthropic" model r.in_tokens r.out_tokens) ≤ 100)
        {x = small_reply} {y = reply} (ground arith) (small_reply-cost model);
  extract_bounded = λ prompt schema model opts reply e.
      subst (λ (r : Reply). round6 (cost_of "anthropic" model r.in_tokens r.out_tokens) ≤ 100)
        {x = small_reply} {y = reply} (ground arith) (small_reply-cost model);
}

-- two requests of one tenant, whose checks come before either is answered
abbrev two_threads : List ServingEvent
two_threads =
    arrives (draws, "t", transcribe_request)
    ∷ arrives (draws, "t", transcribe_request)
    ∷ answers 1
    ∷ answers 0
    ∷ []

two-AtMost : AtMost proxy "t" 2 two_threads (record { vendor = vendor; flight = [] })
unfolding serving_step arrive answer take_out refusal_of check_entitled check_spend_cap subscription
    spend_total cap_of lookup get_or record_usage insert
two-AtMost = (omega arith, (omega arith, (omega arith, (omega arith, omega arith))))

one_capped : 0 < cap_of "t" vendor.billing
unfolding cap_of lookup record_usage
one_capped = omega arith

spent_within : spend_total "t" vendor.billing ≤ cap_of "t" vendor.billing + 2 * 100
unfolding cap_of spend_total record_usage round6 lookup insert get_or
spent_within = omega arith

serve_events_overshoot_example :
    spend_total "t"
      (serve_events proxy two_threads (record { vendor = vendor; flight = [] })).vendor.billing
    ≤ cap_of "t" vendor.billing + 2 * 100
serve_events_overshoot_example =
    serve_events_overshoot proxy 100 "t" 2 two_threads vendor proxy-CostBounded one_capped
      used-Rounded spent_within two-AtMost

-- a store with one queued job
abbrev one_job : Store
one_job = (enqueue 5 "j1" "t" "a" "run_sweep" null none (empty_store 30 2 100)).1

abbrev queued_job : Job
queued_job = (enqueue 5 "j1" "t" "a" "run_sweep" null none (empty_store 30 2 100)).0

one_job-Routed : Routed one_job
one_job-Routed =
    enqueue-Routed "t" "a" (empty_store 30 2 100) (empty_store-StoreValid 30 2 100).routed 5 "j1"
      "run_sweep" null none

abbrev world : World
world = record { store = one_job; vendor = vendor }

abbrev config : Config
config = record {
  poll_timeout = 25;
  admin_token = "admin";
  inference_proxy = some proxy;
  dashboard = true;
}

abbrev body : Body
body = record {
  enrollment_token = none;
  job_id = some "j1";
  result = none;
  status = null;
  tenant = none;
  agent_id = none;
  job_type = none;
  payload = null;
  request = transcribe_request;
}

abbrev idle_round : Round
idle_round = record { now = 10; now' = 11; checked = 40; others = λ w. w }

handle_guarded_example :
    (handle hash config draws "POST" "/agent/results" [] body [] world).1 ≡ world
unfolding route normal_path authed_agent admin_allowed bearer header or_else same_letters
    starts_with rstrip before_mark lookup after_prefix
handle_guarded_example =
    handle_guarded hash config draws "POST" "/agent/results" [] body [] world (λ e. ground arith)
      refl refl
