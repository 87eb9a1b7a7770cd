-- ===== src/ControlPlane/Billing/Ledger.antt =====
-- What a usage record adds to a tenant's spend in billing.py.
use paperless_assistant.Base.{
  ℕ, ◌+◌, ◌%◌, ◌≡◌, refl, ap, ◌∙◌, ◌≢◌, inl, inr, String, List, [], ◌∷◌, ◌++◌, arith, Bool-cases,
  All, All-append, ◌==◌, nat_eq, string_eq, pair_eq, if◌then◌else◌,
}
use paperless_assistant.Base.Dict.{get_or-insert, get_or-insert_self, get_or-insert_ne}
use paperless_assistant.Base.Money.{Usd, round6, round6_mod, round6_fixed}
use paperless_assistant.ControlPlane.Billing.{
  Usage, Billing, records, sum_cost, spend_total, record_usage, reset_usage, set_subscription,
  set_status,
}

abbrev pub AllRounded : List Usage → Type 0
AllRounded rs = All (λ (r : Usage). r.cost % 100 ≡ 0) rs

-- Every cost in the ledger has six decimal places at most.
pub record Rounded (b : Billing) : Type 0 where
  pub at : (tenant : String) → AllRounded (records tenant b)

pub sum_cost-append : (xs ys : List Usage) → sum_cost (xs ++ ys) ≡ sum_cost xs + sum_cost ys
sum_cost-append [] ys = omega arith
sum_cost-append (x ∷ xs) ys = omega (arith, sum_cost-append xs ys)

pub sum_cost_mod : (rs : List Usage) → AllRounded rs → sum_cost rs % 100 ≡ 0
sum_cost_mod [] h = refl
sum_cost_mod (r ∷ rs) h = omega (arith, h.0, sum_cost_mod rs h.1)

-- In a rounded ledger the rounding of the total changes nothing.
pub spend_total-eq-sum_cost :
    (tenant : String) (b : Billing) → Rounded b → spend_total tenant b ≡ sum_cost (records tenant b)
unfolding spend_total
spend_total-eq-sum_cost tenant b h =
    round6_fixed (sum_cost (records tenant b)) (sum_cost_mod (records tenant b) (h.at tenant))

module _ (now : ℕ) (tenant task model : String) (in_tokens out_tokens : ℕ) (cost : Usd)
    (b : Billing) where
  abbrev after : Billing
  after = (record_usage now tenant task model in_tokens out_tokens cost b).1

  abbrev usage : Usage
  usage = (record_usage now tenant task model in_tokens out_tokens cost b).0

  records-record_usage :
      (other : String)
      → records other after
        ≡ (if tenant == other then records tenant b ++ usage ∷ [] else records other b)
  unfolding record_usage
  records-record_usage other = get_or-insert tenant other _ [] b.ledger

  pub record_usage-Rounded : Rounded b → Rounded after
  record_usage-Rounded h = record {
    at = λ other. rw records-record_usage (elim (Bool-cases (tenant == other)) [
      | inl same ↦ rw same (
          All-append (λ (r : Usage). r.cost % 100 ≡ 0) (records tenant b) (usage ∷ []) (h.at tenant)
            (unfold record_usage in round6_mod cost, tt))
      | inr other_tenant ↦ rw other_tenant (h.at other)
    ]);
  }

  sum_cost-record_usage :
      (other : String)
      → sum_cost (records other after) ≡ (
          if tenant == other
          then sum_cost (records tenant b) + round6 cost
          else sum_cost (records other b))
  sum_cost-record_usage other = rw records-record_usage (elim (Bool-cases (tenant == other)) [
    | inl same ↦
        rw same
          (sum_cost-append (records tenant b) (usage ∷ []) ∙ unfold record_usage in omega arith)
    | inr other_tenant ↦ rw other_tenant refl
  ])

  -- In a rounded ledger one usage record raises the spend of its tenant by the rounded cost of the
  -- call, and leaves the spend of every other tenant as it is.
  pub spend_total-record_usage :
      Rounded b
      → (other : String)
      → spend_total other after
        ≡ (if tenant == other then spend_total tenant b + round6 cost else spend_total other b)
  spend_total-record_usage h other = ground (
    arith,
    spend_total-eq-sum_cost other after (record_usage-Rounded h),
    spend_total-eq-sum_cost tenant b h,
    spend_total-eq-sum_cost other b h,
    sum_cost-record_usage other,
  )

-- No other method raises a tenant's spend: a new period sets it to 0, and a change of a
-- subscription leaves it as it is.
pub spend_total_others :
    (now now' : ℕ) (tenant status other : String) (limit : Usd) (b : Billing)
    → (spend_total tenant (reset_usage tenant b) ≡ 0)
      × (tenant ≢ other → spend_total other (reset_usage tenant b) ≡ spend_total other b)
      × (spend_total other (set_subscription now now' tenant status limit b).1
          ≡ spend_total other b)
      × (spend_total other (set_status now tenant status b).1 ≡ spend_total other b)
unfolding spend_total reset_usage set_subscription set_status
spend_total_others now now' tenant status other limit b = (
  rw get_or-insert_self refl,
  λ ne. ap (λ rs. round6 (sum_cost rs)) (get_or-insert_ne tenant other [] [] b.ledger ne),
  refl,
  ground arith,
)
