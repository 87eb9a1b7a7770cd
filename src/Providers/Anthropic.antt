-- ===== src/Providers/Anthropic.antt =====
-- src/paperless_assistant/providers/anthropic.py: the calls of the Anthropic SDK with their retries.
-- The SDK answers the n-th call of a loop with a message, with an error that `_is_transient`
-- recognises, or with another exception. Delays are whole seconds.
pub mod Retries
use paperless_assistant.Base.{
  ℕ, zero, suc, ◌+◌, ◌*◌, refl, inl, inr, true, false, String, Option, none, some, List, [], ◌∷◌,
  ◌++◌, arith, nat_eq, string_eq, pair_eq,
}
use paperless_assistant.Base.Json.{Json}
use Prim.Native.Nat.{min}
use paperless_assistant.Base.Text.{concat}
use paperless_assistant.Providers.Pricing.{cost_of}
use paperless_assistant.Providers.Structured.{Transcription, StructuredResult}

pub data Block : Type 0 where
  text : String → Block
  tool_use : Json → Block
  other : Block

pub record Message : Type 0 where
  pub content : List Block
  pub input_tokens : ℕ
  pub output_tokens : ℕ

pub data SdkOutcome : Type 0 where
  message : Message → SdkOutcome
  transient : SdkOutcome
  failure : SdkOutcome

-- A result; the SDK's exception; no `tool_use` block; or six transient errors.
pub data Called {ℓ} (A : Type ℓ) : Type ℓ where
  gave : A → Called A
  sdk_raised no_tool_use retries_failed : Called A

-- `"".join(b.text for b in content if b.type == "text")`
unfoldable pub join_texts : List Block → String
unfolding concat
join_texts [] = ""
join_texts (text s ∷ blocks) = concat s (join_texts blocks)
join_texts (tool_use input ∷ blocks) = join_texts blocks
join_texts (other ∷ blocks) = join_texts blocks

-- `next(b.input for b in content if b.type == "tool_use")`
unfoldable pub first_tool_use : List Block → Option Json
first_tool_use [] = none
first_tool_use (tool_use input ∷ blocks) = some input
first_tool_use (text s ∷ blocks) = first_tool_use blocks
first_tool_use (other ∷ blocks) = first_tool_use blocks

module _ {A : Type 0} (create : ℕ → SdkOutcome) (use_message : Message → Called A) where
  -- the loop over the attempts, and the delays that it has slept
  unfoldable pub retry_loop : ℕ → ℕ → ℕ → List ℕ → Called A × List ℕ
  retry_loop zero delay n slept = (retries_failed, slept)
  retry_loop (suc rounds) delay n slept = elim (create n) [
    | message m ↦ (use_message m, slept)
    | transient ↦ retry_loop rounds (min (delay * 2) 60) (n + 1) (slept ++ delay ∷ [])
    | failure ↦ (sdk_raised, slept)
  ]

-- the end of `transcribe`
unfoldable pub transcription_of : String → Message → Called Transcription
unfolding join_texts
transcription_of ocr_model m = gave (record {
  text = join_texts m.content;
  in_tokens = m.input_tokens;
  out_tokens = m.output_tokens;
  cost = cost_of "anthropic" ocr_model m.input_tokens m.output_tokens;
})

unfoldable pub transcribe : (ℕ → SdkOutcome) → String → Called Transcription × List ℕ
unfolding retry_loop transcription_of
transcribe create ocr_model = retry_loop create (transcription_of ocr_model) 6 2 0 []

-- the end of `extract_structured`
unfoldable pub structured_of : String → Message → Called StructuredResult
unfolding first_tool_use
structured_of metadata_model m = elim (first_tool_use m.content) [
  | none ↦ no_tool_use
  | some input ↦ gave (record {
    data_json = input;
    in_tokens = m.input_tokens;
    out_tokens = m.output_tokens;
    cost = cost_of "anthropic" metadata_model m.input_tokens m.output_tokens;
  })
]

unfoldable pub extract_structured : (ℕ → SdkOutcome) → String → Called StructuredResult × List ℕ
unfolding retry_loop structured_of
extract_structured create metadata_model = retry_loop create (structured_of metadata_model) 6 2 0 []
