-- ===== src/Providers/Structured/Attempts.antt =====
-- What extract_structured_validated of base.py does with the attempts of a provider.
use paperless_assistant.Base.{
  ℕ, zero, suc, ◌+◌, ◌<◌, ◌≡◌, refl, sym, ap, ◌∙◌, ◌⊎◌, inl, inr, Bool, true, false, arith,
  Bool-cases, nat_eq, string_eq, pair_eq,
}
use paperless_assistant.Base.Json.{Json}
use paperless_assistant.Base.Money.{Usd}
use paperless_assistant.Providers.Structured.{
  StructuredResult, Attempt, produced, raised, Extraction, validated, never_validated,
  provider_raised, extract_loop, extract_structured_validated,
}

module _ (is_valid : Json → Bool) (provider : ℕ → Attempt) where
  -- the costs and the tokens of `k` attempts from the n-th on
  abbrev pub sum_of : (StructuredResult → ℕ) → ℕ → ℕ → ℕ
  sum_of part n zero = 0
  sum_of part n (suc k) =
      elim (provider n) [ raised ↦ 0 | produced r ↦ part r ] + sum_of part (n + 1) k

  -- `k` attempts from the n-th on give results that do not validate
  abbrev pub AllInvalid : ℕ → ℕ → Type 0
  AllInvalid n zero = Unit
  AllInvalid n (suc k) =
      ((r : StructuredResult) × (provider n ≡ produced r) × (is_valid r.data_json ≡ false))
      × AllInvalid (n + 1) k

  -- How `rounds` attempts from the n-th on may end, `k` of them having failed before. The last of
  -- them gives a valid result, which carries the sums over all attempts; or raises; or every attempt
  -- has failed, and the error carries the sum of the costs.
  pub data ExtractSpec (rounds n spent in_tok out_tok : ℕ) : Extraction × ℕ → Type 0 where
    succeeds :
        (k : ℕ) (r : StructuredResult) (x : Extraction × ℕ)
        → k < rounds
        → AllInvalid n k
        → provider (n + k) ≡ produced r
        → is_valid r.data_json ≡ true
        → x ≡ (
          validated (record {
            data_json = r.data_json;
            in_tokens = in_tok + sum_of (λ r. r.in_tokens) n (suc k);
            out_tokens = out_tok + sum_of (λ r. r.out_tokens) n (suc k);
            cost = spent + sum_of (λ r. r.cost) n (suc k);
          }),
          n + k + 1,
        )
        → ExtractSpec rounds n spent in_tok out_tok x
    raises :
        (k : ℕ) (x : Extraction × ℕ)
        → k < rounds
        → AllInvalid n k
        → provider (n + k) ≡ raised
        → x ≡ (provider_raised, n + k + 1)
        → ExtractSpec rounds n spent in_tok out_tok x
    exhausts :
        (x : Extraction × ℕ)
        → AllInvalid n rounds
        → x ≡ (never_validated (spent + sum_of (λ r. r.cost) n rounds), n + rounds)
        → ExtractSpec rounds n spent in_tok out_tok x

  Attempt-cases : (a : Attempt) → (a ≡ raised) ⊎ ((r : StructuredResult) × (a ≡ produced r))
  Attempt-cases raised = inl refl
  Attempt-cases (produced r) = inr (r, refl)

  sum_of-produced :
      (part : StructuredResult → ℕ) (n k acc : ℕ) (r : StructuredResult)
      → provider n ≡ produced r
      → acc + part r + sum_of part (n + 1) k ≡ acc + sum_of part n (suc k)
  sum_of-produced part n k acc r e = rw e (omega arith)

  -- a success after m calls
  abbrev done_at : Json → ℕ → ℕ → Usd → ℕ → Extraction × ℕ
  done_at output i o c m =
      (validated (record { data_json = output; in_tokens = i; out_tokens = o; cost = c }), m)

  same_done :
      (output : Json) {i i' o o' c c' m m' : ℕ}
      → i ≡ i'
      → o ≡ o'
      → c ≡ c'
      → m ≡ m'
      → done_at output i o c m ≡ done_at output i' o' c' m'
  same_done output ei eo ec em = cc

  same_spent :
      {c c' m m' : ℕ}
      → c ≡ c'
      → m ≡ m'
      → ◌≡◌ {A = Extraction × ℕ} (never_validated c, m) (never_validated c', m')
  same_spent ec em = cc

  moved : (n k : ℕ) → n + 1 + k ≡ n + suc k
  moved n k = omega arith

  -- one more attempt that fails, in front
  extend :
      (rounds n spent in_tok out_tok : ℕ) (r : StructuredResult) (x : Extraction × ℕ)
      → provider n ≡ produced r
      → is_valid r.data_json ≡ false
      → ExtractSpec rounds
          (n + 1)
          (spent + r.cost)
          (in_tok + r.in_tokens)
          (out_tok + r.out_tokens)
          x
      → ExtractSpec (suc rounds) n spent in_tok out_tok x
  extend rounds n spent in_tok out_tok r x e bad (succeeds k last x' lt failed is_last ok found) =
      succeeds (suc k) last x (omega arith) ((r, e, bad), failed)
        (ap provider (sym (moved n k)) ∙ is_last) ok
        (found
          ∙ same_done last.data_json (sum_of-produced (λ r. r.in_tokens) n (suc k) in_tok r e)
              (sum_of-produced (λ r. r.out_tokens) n (suc k) out_tok r e)
              (sum_of-produced (λ r. r.cost) n (suc k) spent r e) (omega arith))
  extend rounds n spent in_tok out_tok r x e bad (raises k x' lt failed is_last found) =
      raises (suc k) x (omega arith) ((r, e, bad), failed) (ap provider (sym (moved n k)) ∙ is_last)
        (found ∙ ap (λ (m : ℕ). (provider_raised, m)) (omega arith))
  extend rounds n spent in_tok out_tok r x e bad (exhausts x' failed found) =
      exhausts x ((r, e, bad), failed)
        (found ∙ same_spent (sum_of-produced (λ r. r.cost) n rounds spent r e) (moved n rounds))

  extract_loop-ExtractSpec :
      (rounds n spent in_tok out_tok : ℕ)
      → ExtractSpec rounds n spent in_tok out_tok
          (extract_loop is_valid provider rounds n spent in_tok out_tok)
  unfolding extract_loop
  extract_loop-ExtractSpec zero n spent in_tok out_tok = exhausts _ tt (ground arith)
  extract_loop-ExtractSpec (suc rounds) n spent in_tok out_tok = elim (Attempt-cases (provider n)) [
    | inl e ↦
        raises 0 _ (omega arith) tt (ap provider (add_zero n) ∙ e)
          (rw (e, extract_loop) (ap (λ (m : ℕ). (provider_raised, m)) (omega arith)))
    | inr (r, e) ↦ elim (Bool-cases (is_valid r.data_json)) [
      | inl ok ↦ succeeds 0 r _ (omega arith) tt (ap provider (add_zero n) ∙ e) ok (
          rw (e, extract_loop)
            (rw ok (same_done r.data_json (omega arith) (omega arith) (omega arith) (omega arith))))
      | inr bad ↦ extend rounds n spent in_tok out_tok r _ e bad (
          rw (e, extract_loop)
            (rw bad (
              extract_loop-ExtractSpec rounds (n + 1) (spent + r.cost) (in_tok + r.in_tokens)
                (out_tok + r.out_tokens))))
    ]
  ]
    where
      add_zero : (m : ℕ) → m + 0 ≡ m
      add_zero m = omega arith

-- The call ends after `max_attempts` calls at most: at the first result that
-- validates, with the tokens and the costs of every call; at the first exception of the provider; or
-- after `max_attempts` results that do not validate, with the sum of their costs in the error.
pub extract_structured_validated-ExtractSpec :
    (is_valid : Json → Bool) (provider : ℕ → Attempt) (max_attempts : ℕ)
    → ExtractSpec is_valid provider max_attempts 0 0 0 0
        (extract_structured_validated is_valid provider max_attempts)
unfolding extract_structured_validated
extract_structured_validated-ExtractSpec is_valid provider max_attempts =
    extract_loop-ExtractSpec is_valid provider max_attempts 0 0 0 0
