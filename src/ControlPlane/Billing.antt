-- ===== src/ControlPlane/Billing.antt =====
-- src/paperless_control_plane/billing.py: subscriptions, the usage ledger and the spend cap of each
-- tenant. An amount is a number of units of 10⁻⁸ dollar. The lock, the file that `_save` writes and
-- the sorted listing `tenants` are not modelled.
pub mod Ledger
pub mod Checks
pub mod Summary
use paperless_assistant.Base.{
  ℕ, zero, suc, ◌+◌, refl, inl, inr, Bool, true, false, ◌&&◌, String, Option, none, some, List, [],
  ◌∷◌, ◌++◌, arith, length, ltb, leb, ◌==◌, nat_eq, string_eq, pair_eq, if◌then◌else◌,
}
use paperless_assistant.Base.Dict.{Dict, lookup, insert, get_or}
use paperless_assistant.Base.Money.{Usd, round6, Signed, round6_sub}

pub record Subscription : Type 0 where
  pub tenant : String
  pub status : String
  pub spend_cap : Usd
  pub created_at : ℕ
  pub updated_at : ℕ

pub record Usage : Type 0 where
  pub ts : ℕ
  pub tenant : String
  pub task : String
  pub model : String
  pub in_tokens : ℕ
  pub out_tokens : ℕ
  pub cost : Usd

pub record Billing : Type 0 where
  pub subs : Dict String Subscription
  pub ledger : Dict String (List Usage)

-- `BillingStore()`
abbrev pub empty_billing : Billing
empty_billing = record { subs = []; ledger = [] }

abbrev pub status_active : String
status_active = "active"

-- An update keeps the `created_at` of a subscription that is there.
unfoldable pub created_at_of : ℕ → Option Subscription → ℕ
created_at_of now none = now
created_at_of now (some sub) = sub.created_at

-- The clock is read for `created_at` and again for `updated_at`.
unfoldable pub set_subscription : ℕ → ℕ → String → String → Usd → Billing → Subscription × Billing
unfolding created_at_of
set_subscription now now' tenant status spend_cap b =
    let sub : Subscription = record {
      tenant = tenant;
      status = status;
      spend_cap = spend_cap;
      created_at = created_at_of now (lookup tenant b.subs);
      updated_at = now';
    } in
    (sub, record b { subs = insert tenant sub b.subs })

unfoldable pub set_status : ℕ → String → String → Billing → Bool × Billing
set_status now tenant status b = elim (lookup tenant b.subs) [
  | none ↦ (false, b)
  | some sub ↦
      let sub' = record sub { status = status; updated_at = now } in
      (true, record b { subs = insert tenant sub' b.subs })
]

unfoldable pub subscription : String → Billing → Option Subscription
subscription tenant b = lookup tenant b.subs

-- `EntitlementError` and `SpendCapError`, by their `reason`
pub data Refusal : Type 0 where
  unentitled spend_cap_reached : Refusal

abbrev pub records : String → Billing → List Usage
records tenant b = get_or tenant [] b.ledger

-- `sum(r["cost"] for r in records)`
abbrev pub sum_cost : List Usage → Usd
sum_cost [] = 0
sum_cost (r ∷ rs) = r.cost + sum_cost rs

unfoldable pub spend_total : String → Billing → Usd
unfolding round6
spend_total tenant b = round6 (sum_cost (records tenant b))

-- `none` where the check passes
unfoldable pub check_entitled : String → Billing → Option Refusal
check_entitled tenant b = elim (lookup tenant b.subs) [
  | none ↦ some unentitled
  | some sub ↦ if sub.status == status_active then none else some unentitled
]

-- `float(rec.get("spend_cap") or 0.0)`, 0 for a tenant with no subscription
unfoldable pub cap_of : String → Billing → Usd
cap_of tenant b = elim (lookup tenant b.subs) [ none ↦ 0 | some sub ↦ sub.spend_cap ]

unfoldable pub check_spend_cap : String → Billing → Option Refusal
unfolding cap_of
check_spend_cap tenant b =
    if ltb 0 (cap_of tenant b) && leb (cap_of tenant b) (spend_total tenant b)
    then some spend_cap_reached
    else none

unfoldable pub record_usage : ℕ → String → String → String → ℕ → ℕ → Usd → Billing → Usage × Billing
record_usage now tenant task model in_tokens out_tokens cost b =
    let usage : Usage = record {
      ts = now;
      tenant = tenant;
      task = task;
      model = model;
      in_tokens = in_tokens;
      out_tokens = out_tokens;
      cost = round6 cost;
    } in
    (usage, record b { ledger = insert tenant (records tenant b ++ usage ∷ []) b.ledger })

unfoldable pub reset_usage : String → Billing → Billing
reset_usage tenant b = record b { ledger = insert tenant [] b.ledger }

pub record TaskUse : Type 0 where
  pub calls : ℕ
  pub cost : Usd

-- one record added to the breakdown by task
unfoldable pub add_task : Usage → Dict String TaskUse → Dict String TaskUse
add_task r by_task =
    let b = get_or r.task (record { calls = 0; cost = 0 }) by_task in
    insert r.task (record { calls = b.calls + 1; cost = round6 (b.cost + r.cost) }) by_task

unfoldable pub by_task_loop : List Usage → Dict String TaskUse → Dict String TaskUse
unfolding add_task
by_task_loop [] by_task = by_task
by_task_loop (r ∷ rs) by_task = by_task_loop rs (add_task r by_task)

abbrev pub sum_in : List Usage → ℕ
sum_in [] = 0
sum_in (r ∷ rs) = r.in_tokens + sum_in rs

abbrev pub sum_out : List Usage → ℕ
sum_out [] = 0
sum_out (r ∷ rs) = r.out_tokens + sum_out rs

pub record UsageSummary : Type 0 where
  pub tenant : String
  pub subscription : Option Subscription
  pub calls : ℕ
  pub in_tokens : ℕ
  pub out_tokens : ℕ
  pub spend_usd : Usd
  pub spend_cap : Usd
  pub cap_remaining : Option Signed
  pub by_task : Dict String TaskUse

unfoldable pub usage_summary : String → Billing → UsageSummary
unfolding by_task_loop cap_of round6_sub
usage_summary tenant b =
    let rs = records tenant b in
    let total = round6 (sum_cost rs) in
    let cap = cap_of tenant b in
    record {
      tenant = tenant;
      subscription = lookup tenant b.subs;
      calls = length rs;
      in_tokens = sum_in rs;
      out_tokens = sum_out rs;
      spend_usd = total;
      spend_cap = cap;
      cap_remaining = if ltb 0 cap then some (round6_sub cap total) else none;
      by_task = by_task_loop rs [];
    }
