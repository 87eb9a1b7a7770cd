-- ===== src/ControlPlane/Direct/Refusals.antt =====
-- The hosted provider of providers/hosted_provider.py over the in-process transport of direct.py.
use paperless_assistant.Base.{
  ℕ, ◌≡◌, refl, ◌≢◌, ◌⊎◌, inl, inr, String, Option, none, some, nat_eq, string_eq, pair_eq,
}
use paperless_assistant.ControlPlane.Billing.Checks.{MayInfer}
use paperless_assistant.ControlPlane.Inference.{
  Proxy, Request, Vendor, InferenceResult, RunResult, done, unpriced_model, inference_error,
  other_error, run,
}
use paperless_assistant.ControlPlane.App.{Draws, run_response}
use paperless_assistant.ControlPlane.App.Hosted.{infer_checks}
use paperless_assistant.ControlPlane.Direct.Runner.{
  TransportBody, failed, result, path_inference, transport_request,
}
use paperless_assistant.ControlPlane.Direct.Metered.{as_pair, transport_request-infer}
use paperless_assistant.Providers.Hosted.{ProxyBody, HostedCall, hosted_refused, hosted_call}
use mathlib.Core.Option

-- the body of a transport's answer, with the keys that `_call` reads
abbrev pub keys_of : TransportBody → ProxyBody InferenceResult
keys_of (failed reason) = record { result = none; reason = some reason }
keys_of (result r) = record { result = some r; reason = none }

abbrev pub seen : ℕ × TransportBody → ℕ × ProxyBody InferenceResult
seen (status, body) = (status, keys_of body)

-- what the provider makes of the answer
abbrev pub provider_call : Option (ℕ × TransportBody) → HostedCall InferenceResult
provider_call reply = hosted_call (Option.map seen reply)

abbrev pub IsRefusal : HostedCall InferenceResult → Type 0
IsRefusal c = (c ≡ hosted_refused "unentitled" 402) ⊎ (c ≡ hosted_refused "spend_cap" 429)

-- No answer of the model's run is taken for a refusal.
run_response-not_refused :
    (r : RunResult) (reason : String) (status : ℕ)
    → provider_call (Option.map as_pair (run_response r)) ≢ hosted_refused reason status
unfolding hosted_call
run_response-not_refused (done r) reason status = λ e. cc
run_response-not_refused unpriced_model reason status = λ e. cc
run_response-not_refused inference_error reason status = λ e. cc
run_response-not_refused other_error reason status = λ e. cc

-- A model call of a direct run is refused for what the tenant may not do and for nothing else: if the
-- tenant has an active subscription and room below its cap, the provider never raises
-- HostedInferenceRefused; else it raises it, with "unentitled" and 402 or with "spend_cap" and 429,
-- and the ledger and the calls of the vendor's model are as before.
pub hosted_call-checks :
    (proxy : Proxy) (draws : Draws) (tenant : String) (request : Request) (v : Vendor)
    → let (reply, v') = transport_request proxy draws.now tenant "POST" path_inference request v in
      (MayInfer tenant v.billing
        × ((reason : String) (status : ℕ) → provider_call reply ≢ hosted_refused reason status))
      ⊎ ((¬ MayInfer tenant v.billing) × (v' ≡ v) × IsRefusal (provider_call reply))
unfolding hosted_call
hosted_call-checks proxy draws tenant request v =
    rw (transport_request-infer proxy draws tenant request v)
      (elim (infer_checks proxy draws tenant request v) [
        | inl (may, runs) ↦ inl (
          may,
          λ reason status.
              rw runs
                (run_response-not_refused (run proxy draws.now tenant request v).0 reason status),
        )
        | inr (may_not, (same, which)) ↦ inr (
          may_not,
          same,
          elim which [ inl unpaid ↦ inl (rw unpaid refl) | inr capped ↦ inr (rw capped refl) ],
        )
      ])
