-- ===== src/ControlPlane/Inference.antt =====
-- src/paperless_control_plane/inference.py: the vendor's inference proxy. The vendor's model behind
-- the `ModelBackend` seam is a parameter; the calls made of it are kept in a list, and the log that
-- `_log_usage` writes is not modelled.
pub mod Metering
use paperless_assistant.Base.{
  ℕ, zero, suc, refl, inl, inr, true, false, String, Option, none, some, List, [], ◌∷◌, ◌++◌, arith,
  ◌==◌, nat_eq, string_eq, pair_eq, if◌then◌else◌,
}
use paperless_assistant.Base.Json.{Json}
use paperless_assistant.Base.Money.{Usd}
use paperless_assistant.Providers.Pricing.{cost_of, is_priced}
use paperless_assistant.ControlPlane.Billing.{Billing, record_usage}

-- What the backend does with a call: it replies, or raises an `InferenceError` or another exception.
pub record Reply : Type 0 where
  pub output : Json
  pub in_tokens : ℕ
  pub out_tokens : ℕ

pub data Outcome : Type 0 where
  replied : Reply → Outcome
  failed : Outcome
  crashed : Outcome

-- `ModelBackend`: `transcribe(doc_b64, model, opts)`, `extract_structured(prompt, schema, model, opts)`
pub record Backend : Type 0 where
  pub transcribe : String → String → Json → Outcome
  pub extract_structured : String → Json → String → Json → Outcome

-- `InferenceProxy`
pub record Proxy : Type 0 where
  pub backend : Backend
  pub default_model_transcribe : String
  pub default_model_extract : String
  pub pricing_provider : String

pub record Request : Type 0 where
  pub task : Option String
  pub opts : Json
  pub doc_b64 : Option String
  pub prompt : Option String
  pub schema : Option Json
  pub model : Option String

-- a call of the backend, with the model that it is handed
pub record Call : Type 0 where
  pub task : String
  pub model : String

-- The billing store, and every call that was made of the backend.
pub record Vendor : Type 0 where
  pub billing : Billing
  pub calls : List Call

pub record InferenceResult : Type 0 where
  pub task : String
  pub output : Json
  pub in_tokens : ℕ
  pub out_tokens : ℕ
  pub cost : Usd
  pub model : String

-- How `run` ends: a result, an `UnpricedModelError`, an `InferenceError` or another exception.
pub data RunResult : Type 0 where
  done : InferenceResult → RunResult
  unpriced_model : RunResult
  inference_error : RunResult
  other_error : RunResult

abbrev pub task_transcribe : String
task_transcribe = "transcribe"

abbrev pub task_extract : String
task_extract = "extract_structured"

-- `value or default`
unfoldable pub or_else : Option String → String → String
or_else none d = d
or_else (some s) d = if s == "" then d else s

-- the part of `run` behind the backend call: price, meter, return
unfoldable pub meter : Proxy → ℕ → String → String → String → Reply → Vendor → RunResult × Vendor
meter proxy now tenant task model reply v =
    let cost = cost_of proxy.pricing_provider model reply.in_tokens reply.out_tokens in
    let b =
      (record_usage now tenant task model reply.in_tokens reply.out_tokens cost v.billing).1 in
    (
      done (record {
        task = task;
        output = reply.output;
        in_tokens = reply.in_tokens;
        out_tokens = reply.out_tokens;
        cost = cost;
        model = model;
      }),
      record v { billing = b },
    )

unfoldable pub settle : Proxy → ℕ → String → String → String → Outcome → Vendor → RunResult × Vendor
unfolding meter
settle proxy now tenant task model (replied reply) v = meter proxy now tenant task model reply v
settle proxy now tenant task model failed v = (inference_error, v)
settle proxy now tenant task model crashed v = (other_error, v)

-- `_require_priced`, then the call, then the metering
unfoldable pub call_priced :
    Proxy → ℕ → String → String → String → Outcome → Vendor → RunResult × Vendor
unfolding settle
call_priced proxy now tenant task model outcome v =
    if is_priced proxy.pricing_provider model
    then settle proxy now tenant task model outcome
        (record v { calls = v.calls ++ record { task = task; model = model } ∷ [] })
    else (unpriced_model, v)

unfoldable pub run_transcribe : Proxy → ℕ → String → Request → Vendor → RunResult × Vendor
unfolding call_priced or_else
run_transcribe proxy now tenant request v =
    let doc = or_else request.doc_b64 "" in
    let model = or_else request.model proxy.default_model_transcribe in
    if doc == ""
    then (inference_error, v)
    else call_priced proxy now tenant task_transcribe model
        (proxy.backend.transcribe doc model request.opts) v

unfoldable pub run_extract : Proxy → ℕ → String → Request → Vendor → RunResult × Vendor
unfolding call_priced or_else
run_extract proxy now tenant request v =
    let model = or_else request.model proxy.default_model_extract in
    elim request.prompt [
      | none ↦ (inference_error, v)
      | some prompt ↦ elim request.schema [
        | none ↦ (inference_error, v)
        | some schema ↦
            call_priced proxy now tenant task_extract model
              (proxy.backend.extract_structured prompt schema model request.opts) v
      ]
    ]

unfoldable pub run : Proxy → ℕ → String → Request → Vendor → RunResult × Vendor
unfolding run_transcribe run_extract
run proxy now tenant request v = elim request.task [
  | none ↦ (inference_error, v)
  | some task ↦
      if task == task_transcribe
      then run_transcribe proxy now tenant request v
      else if task == task_extract
      then run_extract proxy now tenant request v
      else (inference_error, v)
]
