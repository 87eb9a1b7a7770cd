-- ===== src/Providers/Anthropic/Retries.antt =====
-- The retries of anthropic.py.
use paperless_assistant.Base.{
  ℕ, zero, suc, ◌+◌, ◌*◌, ◌<◌, ◌≡◌, refl, sym, ap, ◌∙◌, ◌⊎◌, inl, inr, String, List, [], ◌∷◌, ◌++◌,
  arith, nat_eq, string_eq, pair_eq,
}
use Prim.Native.Nat.{min}
use mathlib.Core.List.{append_assoc, append-nil}
use paperless_assistant.Providers.Anthropic.{
  Message, SdkOutcome, message, transient, failure, Called, sdk_raised, retries_failed, retry_loop,
  transcription_of, transcribe,
}

-- the delays of `rounds` transient errors in a row
abbrev pub delays : ℕ → ℕ → List ℕ
delays zero delay = []
delays (suc rounds) delay = delay ∷ delays rounds (min (delay * 2) 60)

SdkOutcome-cases :
    (o : SdkOutcome) → (o ≡ transient) ⊎ ((o ≡ failure) ⊎ ((m : Message) × (o ≡ message m)))
SdkOutcome-cases transient = inl refl
SdkOutcome-cases failure = inr (inl refl)
SdkOutcome-cases (message m) = inr (inr (m, refl))

module _ {A : Type 0} (create : ℕ → SdkOutcome) (use_message : Message → Called A) where
  -- `k` calls from the n-th on fail transiently
  abbrev pub AllTransient : ℕ → ℕ → Type 0
  AllTransient n zero = Unit
  AllTransient n (suc k) = (create n ≡ transient) × AllTransient (n + 1) k

  -- How the loop ends: behind `k` transient errors with a message or another exception, or behind
  -- `rounds` transient errors; it has slept once for each transient error.
  pub data RetrySpec (rounds delay n : ℕ) (slept : List ℕ) : Called A × List ℕ → Type 0 where
    answers :
        (k : ℕ) (m : Message) (x : Called A × List ℕ)
        → k < rounds
        → AllTransient n k
        → create (n + k) ≡ message m
        → x ≡ (use_message m, slept ++ delays k delay)
        → RetrySpec rounds delay n slept x
    fails :
        (k : ℕ) (x : Called A × List ℕ)
        → k < rounds
        → AllTransient n k
        → create (n + k) ≡ failure
        → x ≡ (sdk_raised, slept ++ delays k delay)
        → RetrySpec rounds delay n slept x
    gives_up :
        (x : Called A × List ℕ)
        → AllTransient n rounds
        → x ≡ (retries_failed, slept ++ delays rounds delay)
        → RetrySpec rounds delay n slept x

  same_pair :
      (c : Called A) {xs ys : List ℕ} → xs ≡ ys → ◌≡◌ {A = Called A × List ℕ} (c, xs) (c, ys)
  same_pair c e = cc

  moved : (n k : ℕ) → n + suc k ≡ n + 1 + k
  moved n k = omega arith

  none_slept :
      (c : Called A) (slept : List ℕ) → ◌≡◌ {A = Called A × List ℕ} (c, slept) (c, slept ++ [])
  none_slept c slept = same_pair c (sym (append-nil slept))

  extend :
      (rounds delay n : ℕ) (slept : List ℕ) (x : Called A × List ℕ)
      → create n ≡ transient
      → RetrySpec rounds (min (delay * 2) 60) (n + 1) (slept ++ delay ∷ []) x
      → RetrySpec (suc rounds) delay n slept x
  extend rounds delay n slept x e (answers k m x' lt failed is_last found) =
      answers (suc k) m x (omega arith) (e, failed) (ap create (moved n k) ∙ is_last)
        (found ∙ same_pair (use_message m) (append_assoc slept (delay ∷ []) _))
  extend rounds delay n slept x e (fails k x' lt failed is_last found) =
      fails (suc k) x (omega arith) (e, failed) (ap create (moved n k) ∙ is_last)
        (found ∙ same_pair sdk_raised (append_assoc slept (delay ∷ []) _))
  extend rounds delay n slept x e (gives_up x' failed found) =
      gives_up x (e, failed) (found ∙ same_pair retries_failed (append_assoc slept (delay ∷ []) _))

  pub retry_loop-RetrySpec :
      (rounds delay n : ℕ) (slept : List ℕ)
      → RetrySpec rounds delay n slept (retry_loop create use_message rounds delay n slept)
  unfolding retry_loop
  retry_loop-RetrySpec zero delay n slept = gives_up _ tt (none_slept retries_failed slept)
  retry_loop-RetrySpec (suc rounds) delay n slept = elim (SdkOutcome-cases (create n)) [
    | inl e ↦ extend rounds delay n slept _ e (
        rw (e, retry_loop)
          (retry_loop-RetrySpec rounds (min (delay * 2) 60) (n + 1) (slept ++ delay ∷ [])))
    | inr (inl e) ↦
        fails 0 _ (omega arith) tt (ap create (add_zero n) ∙ e)
          (rw (e, retry_loop) (none_slept sdk_raised slept))
    | inr (inr (m, e)) ↦
        answers 0 m _ (omega arith) tt (ap create (add_zero n) ∙ e)
          (rw (e, retry_loop) (none_slept (use_message m) slept))
  ]
    where
      add_zero : (m : ℕ) → m + 0 ≡ m
      add_zero m = omega arith

-- transcribe makes six calls of the SDK at most: it returns the first message that comes behind
-- transient errors only, priced by its tokens, or the first other exception, or fails behind six
-- transient errors; behind each transient error it sleeps, 2, 4, 8, 16, 32 and then 60 seconds.
pub transcribe-RetrySpec :
    (create : ℕ → SdkOutcome) (ocr_model : String)
    → (delays 6 2 ≡ 2 ∷ 4 ∷ 8 ∷ 16 ∷ 32 ∷ 60 ∷ [])
      × RetrySpec create (transcription_of ocr_model) 6 2 0 [] (transcribe create ocr_model)
unfolding transcribe
transcribe-RetrySpec create ocr_model =
    (refl, retry_loop-RetrySpec create (transcription_of ocr_model) 6 2 0 [])
