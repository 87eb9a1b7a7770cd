-- ===== src/ControlPlane/Inference/Metering.antt =====
-- What `InferenceProxy.run` of inference.py does to the ledger and to the vendor's model.
use paperless_assistant.Base.{
  ℕ, ◌≤◌, ◌≡◌, refl, inl, inr, true, String, Option, none, some, [], ◌∷◌, ◌++◌, ◌∙◌, ap, Bool-cases,
  ◌==◌, nat_eq, string_eq, pair_eq,
}
use paperless_assistant.Base.Json.{Json}
use paperless_assistant.Base.Money.{Usd, round6}
use paperless_assistant.Providers.Pricing.{cost_of, is_priced}
use paperless_assistant.ControlPlane.Billing.{record_usage}
use paperless_assistant.ControlPlane.Inference.{
  Reply, Outcome, replied, failed, crashed, Proxy, Request, Call, Vendor, InferenceResult,
  RunResult, done, inference_error, task_transcribe, task_extract, or_else, settle, call_priced,
  run_extract, run,
}

abbrev pub IsError : RunResult → Type 0
IsError (done result) = ⊥
IsError _ = Unit

abbrev pub NoReply : Outcome → Type 0
NoReply (replied reply) = ⊥
NoReply _ = Unit

module _ (proxy : Proxy) (now : ℕ) (tenant : String) (v : Vendor) where
  abbrev pub with_call : Call → Vendor
  with_call c = record v { calls = v.calls ++ c ∷ [] }

  -- the call of a task, with the model of the request or the default, and what the backend answers
  pub data Asks (request : Request) : Call → Outcome → Type 0 where
    asks_transcribe :
        request.task ≡ some task_transcribe
        → Asks request
            (record {
              task = task_transcribe;
              model = or_else request.model proxy.default_model_transcribe;
            })
            (proxy.backend.transcribe
              (or_else request.doc_b64 "")
              (or_else request.model proxy.default_model_transcribe)
              request.opts)
    asks_extract :
        (prompt : String) (schema : Json)
        → request.task ≡ some task_extract
        → request.prompt ≡ some prompt
        → request.schema ≡ some schema
        → Asks request
            (record {
              task = task_extract;
              model = or_else request.model proxy.default_model_extract;
            })
            (proxy.backend.extract_structured prompt schema
              (or_else request.model proxy.default_model_extract)
              request.opts)

  -- the price of a reply to a call
  abbrev pub price : Call → Reply → Usd
  price c reply = cost_of proxy.pricing_provider c.model reply.in_tokens reply.out_tokens

  -- the result of a reply: its output and its tokens, at their price
  abbrev pub result_of : Call → Reply → InferenceResult
  result_of c reply = record {
    task = c.task;
    output = reply.output;
    in_tokens = reply.in_tokens;
    out_tokens = reply.out_tokens;
    cost = price c reply;
    model = c.model;
  }

  -- the vendor's side after one call that was metered
  abbrev pub metered_vendor : Call → Reply → Vendor
  metered_vendor c reply = record {
    billing =
        (record_usage now tenant c.task c.model reply.in_tokens reply.out_tokens (price c reply)
          v.billing).1;
    calls = v.calls ++ c ∷ [];
  }

  -- Nothing happened and an error is returned; or the one call of the task was made with a priced
  -- model and got no reply; or it got a reply, which is returned, and its tokens are metered once at
  -- their price.
  pub data RunSpec (request : Request) (r : RunResult × Vendor) : Type 0 where
    refused : r.1 ≡ v → IsError r.0 → RunSpec request r
    unmetered :
        (c : Call) (outcome : Outcome)
        → Asks request c outcome
        → NoReply outcome
        → is_priced proxy.pricing_provider c.model ≡ true
        → r.1 ≡ with_call c
        → IsError r.0
        → RunSpec request r
    metered :
        (c : Call) (reply : Reply)
        → Asks request c (replied reply)
        → is_priced proxy.pricing_provider c.model ≡ true
        → r ≡ (done (result_of c reply), metered_vendor c reply)
        → RunSpec request r

  settle-RunSpec :
      (request : Request) (c : Call) (outcome : Outcome)
      → Asks request c outcome
      → is_priced proxy.pricing_provider c.model ≡ true
      → RunSpec request (settle proxy now tenant c.task c.model outcome (with_call c))
  unfolding settle
  settle-RunSpec request c (replied reply) asked priced = metered c reply asked priced refl
  settle-RunSpec request c failed asked priced = unmetered c failed asked tt priced refl tt
  settle-RunSpec request c crashed asked priced = unmetered c crashed asked tt priced refl tt

  call_priced-RunSpec :
      (request : Request) (c : Call) (outcome : Outcome)
      → Asks request c outcome
      → RunSpec request (call_priced proxy now tenant c.task c.model outcome v)
  unfolding call_priced
  call_priced-RunSpec request c outcome asked =
      elim (Bool-cases (is_priced proxy.pricing_provider c.model)) [
        | inl priced ↦ rw priced (settle-RunSpec request c outcome asked priced)
        | inr free ↦ rw free (refused refl tt)
      ]

  -- `run` ends in an `InferenceError` that it raises itself, or in a call of the backend.
  run_cases :
      (P : RunResult × Vendor → Type 0) (request : Request)
      → P (inference_error, v)
      → ((c : Call) (outcome : Outcome)
          → Asks request c outcome
          → P (call_priced proxy now tenant c.task c.model outcome v))
      → P (run proxy now tenant request v)
  unfolding run
  run_cases P request error asks = cases request.task request.prompt request.schema refl refl refl
    where
      extract :
          (prompt : Option String) (schema : Option Json)
          → request.task ≡ some task_extract
          → request.prompt ≡ prompt
          → request.schema ≡ schema
          → P (run_extract proxy now tenant request v)
      extract none schema e ep es = rw (ep, run_extract) error
      extract (some p) none e ep es = rw (ep, es, run_extract) error
      extract (some p) (some s) e ep es =
          rw (ep, es, run_extract) (asks _ _ (asks_extract p s e ep es))

      cases :
          (task prompt : Option String) (schema : Option Json)
          → request.task ≡ task
          → request.prompt ≡ prompt
          → request.schema ≡ schema
          → P (run proxy now tenant request v)
      cases none prompt schema e ep es = rw (e, run) error
      cases (some task) prompt schema e ep es = elim (Bool-cases (task == task_transcribe)) [
        | inl is_ocr ↦ elim (Bool-cases (or_else request.doc_b64 "" == "")) [
          | inl missing ↦ rw (e, run) (rw (is_ocr, missing) error)
          | inr there ↦
              rw (e, run)
                (rw (is_ocr, there)
                  (asks _ _ (
                    asks_transcribe
                      (e ∙ ap some ((string_eq.test_iff task task_transcribe).0 is_ocr)))))
        ]
        | inr other ↦ elim (Bool-cases (task == task_extract)) [
          | inl is_metadata ↦
              rw (e, run)
                (rw (other, is_metadata)
                  (extract prompt schema
                    (e ∙ ap some ((string_eq.test_iff task task_extract).0 is_metadata)) ep es))
          | inr unknown ↦ rw (e, run) (rw (other, unknown) error)
        ]
      ]

  -- `run` calls the backend once at most, hands it the model of the request or the default of its
  -- task, and only if that model has a price. A reply of the backend is returned, and its own tokens
  -- are metered by one usage record for the tenant, at the price of that model; an error leaves the
  -- ledger as it is.
  pub run-RunSpec : (request : Request) → RunSpec request (run proxy now tenant request v)
  run-RunSpec request =
      run_cases (RunSpec request) request (refused refl tt)
        (λ c outcome asked. call_priced-RunSpec request c outcome asked)

-- What every reply of the vendor's model costs at most, rounded: the model's output is limited.
pub record CostBounded (proxy : Proxy) (limit : Usd) : Type 0 where
  pub transcribe_bounded :
      (doc model : String) (opts : Json) (reply : Reply)
      → proxy.backend.transcribe doc model opts ≡ replied reply
      → round6 (cost_of proxy.pricing_provider model reply.in_tokens reply.out_tokens) ≤ limit
  pub extract_bounded :
      (prompt : String) (schema : Json) (model : String) (opts : Json) (reply : Reply)
      → proxy.backend.extract_structured prompt schema model opts ≡ replied reply
      → round6 (cost_of proxy.pricing_provider model reply.in_tokens reply.out_tokens) ≤ limit

-- what the result of a call costs at most
abbrev pub ResultBounded : Usd → RunResult → Type 0
ResultBounded limit (done res) = round6 res.cost ≤ limit
ResultBounded limit _ = Unit

module _ (proxy : Proxy) (now : ℕ) (tenant : String) (v : Vendor) (limit : Usd) where
  -- what is asked under a bound costs at most the bound
  pub asked_bounded :
      CostBounded proxy limit
      → (request : Request) (c : Call) (outcome : Outcome) (reply : Reply)
      → Asks proxy now tenant v request c outcome
      → outcome ≡ replied reply
      → round6 (cost_of proxy.pricing_provider c.model reply.in_tokens reply.out_tokens) ≤ limit
  asked_bounded bounded request c outcome reply (asks_transcribe e) h =
      bounded.transcribe_bounded _ _ request.opts reply h
  asked_bounded bounded request c outcome reply (asks_extract p s e ep es) h =
      bounded.extract_bounded p s _ request.opts reply h
