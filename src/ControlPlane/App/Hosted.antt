-- ===== src/ControlPlane/App/Hosted.antt =====
-- Hosted inference as `_inference` of app.py admits it: the checks, and what they bound.
use paperless_assistant.Base.{
  ◌≡◌, refl, ap, ◌≢◌, ◌⊎◌, inl, inr, String, Option, none, some, arith, Option-cases, nat_eq,
  string_eq, pair_eq,
}
use paperless_assistant.ControlPlane.Billing.Checks.{admission, MayInfer, admission_iff}
use paperless_assistant.ControlPlane.Billing.{Billing}
use paperless_assistant.ControlPlane.Inference.{Proxy, Request, Vendor, run}
use paperless_assistant.ControlPlane.App.{
  error, Response, response, Draws, refusal_of, run_response, infer,
}

-- The two refusals of `_inference`, with nothing done.
abbrev pub IsRefused : Vendor → Option Response × Vendor → Type 0
IsRefused v r =
    (r.1 ≡ v)
    × ((r.0 ≡ some (response 402 (error "unentitled")))
        ⊎ (r.0 ≡ some (response 429 (error "spend_cap"))))

refusal_of-none :
    (tenant : String) (b : Billing) → refusal_of tenant b ≡ none → admission tenant b ≡ none
unfolding refusal_of admission
refusal_of-none tenant b h = ground arith

-- a request that passes the checks may infer
pub refusal_of-MayInfer :
    (tenant : String) (b : Billing) → refusal_of tenant b ≡ none → MayInfer tenant b
refusal_of-MayInfer tenant b passed = (admission_iff tenant b).0 (refusal_of-none tenant b passed)

module _ (proxy : Proxy) (draws : Draws) (tenant : String) (request : Request) (v : Vendor) where
  refusal_of-some :
      (answer : Response)
      → refusal_of tenant v.billing ≡ some answer
      → (admission tenant v.billing ≢ none)
        × ((answer ≡ response 402 (error "unentitled"))
            ⊎ (answer ≡ response 429 (error "spend_cap")))
  unfolding refusal_of admission
  refusal_of-some answer h = ((λ e. ground arith), ground arith)

  -- The vendor's model is run for a tenant exactly if it has an active subscription and its spend
  -- has not reached its cap; else the request is answered 402 or 429, the model is not called and
  -- nothing is metered.
  pub infer_checks :
      let (result, v') = run proxy draws.now tenant request v in
      (MayInfer tenant v.billing × (infer proxy draws tenant request v ≡ (run_response result, v')))
      ⊎ ((¬ MayInfer tenant v.billing) × IsRefused v (infer proxy draws tenant request v))
  unfolding infer
  infer_checks = elim (Option-cases (refusal_of tenant v.billing)) [
    | inl passed ↦ inl (refusal_of-MayInfer tenant v.billing passed, rw (passed, infer) refl)
    | inr (answer, stopped) ↦
        let (not_admitted, which) = refusal_of-some answer stopped in
        inr (
          (λ may. not_admitted ((admission_iff tenant v.billing).1 may)),
          (
            rw (stopped, infer) refl,
            rw (stopped, infer) (elim which [ inl e ↦ inl (ap some e) | inr e ↦ inr (ap some e) ]),
          ),
        )
  ]
