-- ===== src/ControlPlane/App/Spent.antt =====
-- What one call of the proxy of inference.py adds to the spend of a tenant.
use paperless_assistant.Base.{
  ◌==◌, if◌then◌else◌, ℕ, ◌+◌, ◌≤◌, ◌≡◌, refl, String, arith, nat_eq, string_eq, pair_eq,
}
use paperless_assistant.Base.Money.{Usd, round6}
use paperless_assistant.ControlPlane.Billing.{Billing, record_usage, spend_total, cap_of}
use paperless_assistant.ControlPlane.Billing.Ledger.{
  Rounded, record_usage-Rounded, spend_total-record_usage,
}
use paperless_assistant.ControlPlane.Inference.{Proxy, Request, Vendor, RunResult, replied, run}
use paperless_assistant.ControlPlane.Inference.Metering.{
  RunSpec, refused, unmetered, metered, run-RunSpec, CostBounded, asked_bounded,
}

cap_of-record_usage :
    (now : ℕ) (tenant who task model : String) (in_tokens out_tokens : ℕ) (cost : Usd) (b : Billing)
    → cap_of tenant (record_usage now who task model in_tokens out_tokens cost b).1
      ≡ cap_of tenant b
unfolding record_usage cap_of
cap_of-record_usage now tenant who task model in_tokens out_tokens cost b = refl

-- what a call for one tenant adds to another at most
abbrev pub share : String → String → Usd → Usd
share who tenant limit = if who == tenant then limit else 0

-- what is kept of a ledger behind a call: it is rounded, the cap is the same, and the spend of the
-- tenant is at most a call more, if the call was its own
pub record After (limit : Usd) (tenant who : String) (b b' : Billing) : Type 0 where
  pub rounded : Rounded b'
  pub same_cap : cap_of tenant b' ≡ cap_of tenant b
  pub spent : spend_total tenant b' ≤ spend_total tenant b + share who tenant limit

module _ (proxy : Proxy) (limit : Usd) (tenant : String) (bounded : CostBounded proxy limit) where
  After-same : (who : String) (b : Billing) → Rounded b → After limit tenant who b b
  After-same who b rounded = record { rounded = rounded; same_cap = refl; spent = omega arith }

  After-metered :
      (now : ℕ) (who task model : String) (in_tokens out_tokens : ℕ) (cost : Usd) (b : Billing)
      → round6 cost ≤ limit
      → Rounded b
      → After limit tenant who b (record_usage now who task model in_tokens out_tokens cost b).1
  After-metered now who task model in_tokens out_tokens cost b cheap rounded = record {
    rounded = record_usage-Rounded now who task model in_tokens out_tokens cost b rounded;
    same_cap = cap_of-record_usage now tenant who task model in_tokens out_tokens cost b;
    spent = ground (
      arith,
      spend_total-record_usage now who task model in_tokens out_tokens cost b rounded tenant,
      string_eq.test_iff who tenant,
      cheap,
    );
  }

  pub run-After :
      (now : ℕ) (who : String) (request : Request) (v : Vendor)
      → Rounded v.billing
      → After limit tenant who v.billing (run proxy now who request v).1.billing
  run-After now who request v rounded =
      spec_case (run proxy now who request v) (run-RunSpec proxy now who v request)
    where
      spec_case :
          (r : RunResult × Vendor)
          → RunSpec proxy now who v request r
          → After limit tenant who v.billing r.1.billing
      spec_case r (refused same is_error) = rw same (After-same who v.billing rounded)
      spec_case r (unmetered c outcome asked no_reply priced one_call is_error) =
          rw one_call (After-same who v.billing rounded)
      spec_case r (metered c reply asked priced one) = rw one (
          After-metered now who c.task c.model reply.in_tokens reply.out_tokens _ v.billing
            (asked_bounded proxy now who v limit bounded request c (replied reply) reply asked refl)
            rounded)
