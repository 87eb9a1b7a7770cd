-- ===== src/Providers/Examples.antt =====
-- A provider that answers off the schema first, an SDK with one transient error, and what the
-- theorems on base.py and anthropic.py say of them.
use paperless_assistant.Base.{
  ℕ, zero, suc, ◌≡◌, refl, Bool, true, false, [], ◌∷◌, nat_eq, string_eq, pair_eq,
}
use paperless_assistant.Base.Json.{Json}
use paperless_assistant.Base.Json.{null, num}
use paperless_assistant.Providers.Structured.{
  Attempt, produced, validated, extract_loop, extract_structured_validated,
}
use paperless_assistant.Providers.Structured.Attempts.{
  ExtractSpec, extract_structured_validated-ExtractSpec,
}
use paperless_assistant.Providers.Anthropic.{
  text, SdkOutcome, message, transient, transcription_of, transcribe,
}
use paperless_assistant.Providers.Anthropic.Retries.{delays, RetrySpec, transcribe-RetrySpec}

-- the schema asks for a number
abbrev is_number : Json → Bool
is_number (num n) = true
is_number other = false

-- `null` at a cost of 3, then 7 at a cost of 4
abbrev second_try : ℕ → Attempt
second_try zero = produced (record { data_json = null; in_tokens = 10; out_tokens = 1; cost = 3 })
second_try (suc n) =
    produced (record { data_json = num 7; in_tokens = 20; out_tokens = 2; cost = 4 })

second_try_result :
    extract_structured_validated is_number second_try 3
    ≡ (validated (record { data_json = num 7; in_tokens = 30; out_tokens = 3; cost = 7 }), 2)
unfolding extract_structured_validated extract_loop
second_try_result = refl

extract_structured_validated-ExtractSpec_example :
    ExtractSpec is_number second_try 3 0 0 0 0 (extract_structured_validated is_number second_try 3)
extract_structured_validated-ExtractSpec_example =
    extract_structured_validated-ExtractSpec is_number second_try 3

abbrev busy_once : ℕ → SdkOutcome
busy_once zero = transient
busy_once (suc n) =
    message (record { content = text "total 12" ∷ []; input_tokens = 9; output_tokens = 3 })

transcribe-RetrySpec_example :
    (delays 6 2 ≡ 2 ∷ 4 ∷ 8 ∷ 16 ∷ 32 ∷ 60 ∷ [])
    × RetrySpec busy_once
        (transcription_of "claude-opus-4-8")
        6
        2
        0
        []
        (transcribe busy_once "claude-opus-4-8")
transcribe-RetrySpec_example = transcribe-RetrySpec busy_once "claude-opus-4-8"
