-- ===== src/ControlPlane/Direct/Metered.antt =====
-- The AI step of a direct run in direct.py goes through the same checks and the same metering as
-- that of a hosted agent in app.py.
use paperless_assistant.Base.{
  ℕ, ◌≡◌, refl, ap, inl, inr, String, Option, Option-cases, nat_eq, string_eq, pair_eq,
}
use mathlib.Core.Option
use paperless_assistant.Base.Text.{same_letters, rstrip_slash, rstrip}
use paperless_assistant.ControlPlane.Billing.{Billing, check_entitled, check_spend_cap}
use paperless_assistant.ControlPlane.Inference.{
  Proxy, Request, Vendor, RunResult, done, unpriced_model, inference_error, other_error, run,
}
use paperless_assistant.ControlPlane.App.{
  Answer, Response, Draws, error, inferred, refusal_of, run_response, infer,
}
use paperless_assistant.ControlPlane.Direct.Runner.{
  TransportBody, failed, result, path_inference, direct_refusal, proxy_reply, transport_request,
}

abbrev body_of : Answer → TransportBody
body_of (error reason) = failed reason
body_of (inferred r) = result r
body_of other = failed ""

-- the handler's response as the pair that a transport returns
abbrev pub as_pair : Response → ℕ × TransportBody
as_pair r = (r.status, body_of r.answer)

direct_refusal-refusal_of :
    (tenant : String) (b : Billing)
    → direct_refusal tenant b ≡ Option.map as_pair (refusal_of tenant b)
unfolding direct_refusal refusal_of
direct_refusal-refusal_of tenant b = elim (Option-cases (check_entitled tenant b)) [
  | inl entitled ↦ elim (Option-cases (check_spend_cap tenant b)) [
    | inl room ↦ rw (entitled, direct_refusal, refusal_of) (rw (room, direct_refusal) refl)
    | inr (reached, full) ↦
        rw (entitled, direct_refusal, refusal_of) (rw (full, direct_refusal) refl)
  ]
  | inr (refused, not_entitled) ↦ rw (not_entitled, direct_refusal, refusal_of) refl
]

proxy_reply-run_response : (r : RunResult) → proxy_reply r ≡ Option.map as_pair (run_response r)
proxy_reply-run_response (done r) = refl
proxy_reply-run_response unpriced_model = refl
proxy_reply-run_response inference_error = refl
proxy_reply-run_response other_error = refl

-- A call of the in-process transport gives the status and the body that a hosted agent of the tenant
-- gets for the same request from `_inference`, and leaves the same ledger and the same calls of the
-- vendor's model.
pub transport_request-infer :
    (proxy : Proxy) (draws : Draws) (tenant : String) (request : Request) (v : Vendor)
    → let (answer, v') = infer proxy draws tenant request v in
      transport_request proxy draws.now tenant "POST" path_inference request v
      ≡ (Option.map as_pair answer, v')
unfolding transport_request infer same_letters rstrip_slash rstrip
transport_request-infer proxy draws tenant request v =
    elim (Option-cases (check_entitled tenant v.billing)) [
      | inl entitled ↦ elim (Option-cases (check_spend_cap tenant v.billing)) [
        | inl room ↦
            let (outcome, v') = run proxy draws.now tenant request v in
            rw (entitled, transport_request, infer)
              (rw (room, transport_request, infer)
                (ap (λ (o : Option (ℕ × TransportBody)). (o, v'))
                  (proxy_reply-run_response outcome)))
        | inr (reached, full) ↦
            rw (entitled, transport_request, infer) (rw (full, transport_request, infer) refl)
      ]
      | inr (refused, not_entitled) ↦ rw (not_entitled, transport_request, infer) refl
    ]
