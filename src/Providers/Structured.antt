-- ===== src/Providers/Structured.antt =====
-- src/paperless_assistant/providers/base.py: the results of a provider, and the loop that validates a
-- structured result. `jsonschema.validate` against the engine's schema is a parameter; a provider
-- answers the n-th call of a loop with a result or with an exception.
pub mod Attempts
use paperless_assistant.Base.{
  ℕ, zero, suc, ◌+◌, refl, inl, inr, Bool, true, false, String, none, some, [], arith, nat_eq,
  string_eq, pair_eq, if◌then◌else◌,
}
use paperless_assistant.Base.Json.{Json}
use paperless_assistant.Base.Money.{Usd}

pub record Transcription : Type 0 where
  pub text : String
  pub in_tokens : ℕ
  pub out_tokens : ℕ
  pub cost : Usd

pub record StructuredResult : Type 0 where
  pub data_json : Json
  pub in_tokens : ℕ
  pub out_tokens : ℕ
  pub cost : Usd

-- how a call of `provider.extract_structured` ends
pub data Attempt : Type 0 where
  produced : StructuredResult → Attempt
  raised : Attempt

-- A validated result, a `SchemaValidationError` with its `.spent`, or the provider's exception.
pub data Extraction : Type 0 where
  validated : StructuredResult → Extraction
  never_validated : Usd → Extraction
  provider_raised : Extraction

module _ (is_valid : Json → Bool) (provider : ℕ → Attempt) where
  -- the loop over the attempts, with the number of calls that were made
  unfoldable pub extract_loop : ℕ → ℕ → Usd → ℕ → ℕ → Extraction × ℕ
  extract_loop zero n spent in_tok out_tok = (never_validated spent, n)
  extract_loop (suc rounds) n spent in_tok out_tok = elim (provider n) [
    | raised ↦ (provider_raised, n + 1)
    | produced r ↦
        let spent' = spent + r.cost in
        let in_tok' = in_tok + r.in_tokens in
        let out_tok' = out_tok + r.out_tokens in
        let again = extract_loop rounds (n + 1) spent' in_tok' out_tok' in
        if is_valid r.data_json
        then (
          validated (record {
            data_json = r.data_json;
            in_tokens = in_tok';
            out_tokens = out_tok';
            cost = spent';
          }),
          n + 1,
        )
        else again
  ]

  unfoldable pub extract_structured_validated : ℕ → Extraction × ℕ
  unfolding extract_loop
  extract_structured_validated max_attempts = extract_loop max_attempts 0 0 0 0
