-- ===== src/Providers/Pricing.antt =====
-- src/paperless_assistant/providers/pricing.py: the price of a token by provider and model, in units
-- of 10⁻⁸ dollar.
use paperless_assistant.Base.{
  ℕ, ◌+◌, ◌*◌, ◌<◌, ◌≡◌, inl, inr, Bool, true, false, String, some, [], ◌∷◌, arith, Bool-cases,
  Option-cases, All, is_some, ◌==◌, nat_eq, string_eq, pair_eq,
}
use paperless_assistant.Base.Dict.{Dict, lookup, get_or}
use paperless_assistant.Base.Money.{Usd}

-- the price of an input and of an output token
abbrev pub Price : Type 0
Price = Usd × Usd

unfoldable pub pricing : Dict String (Dict String Price)
pricing =
    (
      "anthropic",
      ("claude-fable-5", (1000, 5000))
          ∷ ("claude-opus-4-8", (500, 2500))
          ∷ ("claude-opus-4-7", (500, 2500))
          ∷ ("claude-opus-4-6", (500, 2500))
          ∷ ("claude-sonnet-5", (300, 1500))
          ∷ ("claude-sonnet-4-6", (300, 1500))
          ∷ ("claude-haiku-4-5", (100, 500))
          ∷ [],
    )
    ∷ (
      "openai",
      ("gpt-5.4", (250, 1500))
          ∷ ("gpt-4.1", (200, 800))
          ∷ ("gpt-4.1-mini", (40, 160))
          ∷ ("gpt-4.1-nano", (10, 40))
          ∷ ("gpt-4o", (250, 1000))
          ∷ ("gpt-4o-mini", (15, 60))
          ∷ ("o4-mini", (110, 440))
          ∷ [],
    )
    ∷ ("ollama", [])
    ∷ []

unfoldable pub models_of : String → Dict String Price
models_of provider = get_or provider [] pricing

unfoldable pub price_for : String → String → Price
price_for provider model = get_or model (0, 0) (models_of provider)

unfoldable pub cost_of : String → String → ℕ → ℕ → Usd
unfolding price_for
cost_of provider model in_tokens out_tokens =
    let (price_in, price_out) = price_for provider model in
    in_tokens * price_in + out_tokens * price_out

unfoldable pub is_priced : String → String → Bool
is_priced provider model = is_some (lookup model (models_of provider))

abbrev IsPositive : Price → Type 0
IsPositive p = (0 < p.0) × (0 < p.1)

abbrev AllPositive : Dict String Price → Type 0
AllPositive d = All (λ (x : String × Price). IsPositive x.1) d

AllPositive-lookup :
    (model : String) (p : Price) (d : Dict String Price)
    → AllPositive d
    → lookup model d ≡ some p
    → IsPositive p
unfolding lookup
AllPositive-lookup model p [] h e = cc
AllPositive-lookup model p ((m, q) ∷ d) h e = ground (arith, AllPositive-lookup model p d h.1)

AllPositive-get_or :
    (provider : String) (d : Dict String (Dict String Price))
    → All (λ (x : String × Dict String Price). AllPositive x.1) d
    → AllPositive (get_or provider [] d)
unfolding get_or lookup
AllPositive-get_or provider [] h = tt
AllPositive-get_or provider ((q, prices) ∷ d) h = elim (Bool-cases (q == provider)) [
  | inl here ↦ rw (here, get_or, lookup) h.0
  | inr there ↦ rw (there, get_or, lookup) (AllPositive-get_or provider d h.1)
]

pricing-AllPositive : All (λ (x : String × Dict String Price). AllPositive x.1) pricing
unfolding pricing
pricing-AllPositive = omega arith

price-IsPositive :
    (provider model : String) (p : Price)
    → lookup model (models_of provider) ≡ some p
    → IsPositive p
unfolding models_of
price-IsPositive provider model p h =
    AllPositive-lookup model p (get_or provider [] pricing)
      (AllPositive-get_or provider pricing pricing-AllPositive) h

-- A call of a priced model that uses a token costs something: no priced call is metered at 0.
pub cost_of_pos :
    (provider model : String) (in_tokens out_tokens : ℕ)
    → is_priced provider model ≡ true
    → 0 < in_tokens + out_tokens
    → 0 < cost_of provider model in_tokens out_tokens
unfolding cost_of is_priced get_or
cost_of_pos provider model in_tokens out_tokens priced used =
    elim (Option-cases (lookup model (models_of provider))) [
      | inl missing ↦ absurd (ground arith)
      | inr (p, found) ↦
          rw (found, cost_of, price_for, get_or)
            (let pos = price-IsPositive provider model p found in grind arith)
    ]

-- A model with no entry would be metered at 0 whatever it uses.
pub cost_of_unpriced :
    (provider model : String) (in_tokens out_tokens : ℕ)
    → is_priced provider model ≡ false
    → cost_of provider model in_tokens out_tokens ≡ 0
unfolding cost_of is_priced get_or
cost_of_unpriced provider model in_tokens out_tokens unpriced =
    elim (Option-cases (lookup model (models_of provider))) [
      | inl missing ↦ rw (missing, cost_of, price_for, get_or) (omega arith)
      | inr (p, found) ↦ absurd (ground arith)
    ]
