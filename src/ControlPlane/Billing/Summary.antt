-- ===== src/ControlPlane/Billing/Summary.antt =====
-- The usage summary of billing.py adds up.
use paperless_assistant.Base.{
  ℕ, ◌+◌, ◌%◌, ◌≡◌, refl, inl, inr, String, List, [], ◌∷◌, arith, Bool-cases, All, length, ◌==◌,
  nat_eq, string_eq, pair_eq,
}
use paperless_assistant.Base.Dict.{Dict, lookup, insert, get_or}
use paperless_assistant.Base.Money.{round6, round6_fixed, round6_mod}
use paperless_assistant.ControlPlane.Billing.{
  Usage, Billing, records, sum_cost, spend_total, TaskUse, by_task_loop, usage_summary,
}
use paperless_assistant.ControlPlane.Billing.Ledger.{AllRounded, Rounded, sum_cost_mod}

-- the sum of a field over the breakdown
abbrev pub sum_tasks : (TaskUse → ℕ) → Dict String TaskUse → ℕ
sum_tasks f [] = 0
sum_tasks f ((task, use_) ∷ d) = f use_ + sum_tasks f d

abbrev no_use : TaskUse
no_use = record { calls = 0; cost = 0 }

sum_tasks-insert :
    (f : TaskUse → ℕ) (task : String) (v : TaskUse) (d : Dict String TaskUse)
    → f no_use ≡ 0
    → sum_tasks f (insert task v d) + f (get_or task no_use d) ≡ sum_tasks f d + f v
unfolding insert get_or lookup
sum_tasks-insert f task v [] h = omega arith
sum_tasks-insert f task v ((t, w) ∷ d) h = elim (Bool-cases (t == task)) [
  | inl here ↦ rw (here, insert, get_or, lookup) (omega arith)
  | inr there ↦ rw (there, insert, get_or, lookup) (omega (arith, sum_tasks-insert f task v d h))
]

abbrev RoundedTasks : Dict String TaskUse → Type 0
RoundedTasks d = All (λ (x : String × TaskUse). (x.1).cost % 100 ≡ 0) d

RoundedTasks-insert :
    (task : String) (v : TaskUse) (d : Dict String TaskUse)
    → v.cost % 100 ≡ 0
    → RoundedTasks d
    → RoundedTasks (insert task v d)
unfolding insert
RoundedTasks-insert task v [] h r = (h, tt)
RoundedTasks-insert task v ((t, w) ∷ d) h r = ground (arith, RoundedTasks-insert task v d h r.1)

RoundedTasks-get_or :
    (task : String) (d : Dict String TaskUse)
    → RoundedTasks d
    → (get_or task no_use d).cost % 100 ≡ 0
unfolding get_or lookup
RoundedTasks-get_or task [] r = refl
RoundedTasks-get_or task ((t, w) ∷ d) r = ground (arith, RoundedTasks-get_or task d r.1)

-- The breakdown after the loop holds what it held before and the records.
by_task_loop_sums :
    (rs : List Usage) (d : Dict String TaskUse)
    → AllRounded rs
    → RoundedTasks d
    → (sum_tasks (λ u. u.calls) (by_task_loop rs d) ≡ sum_tasks (λ u. u.calls) d + length rs)
      × (sum_tasks (λ u. u.cost) (by_task_loop rs d) ≡ sum_tasks (λ u. u.cost) d + sum_cost rs)
unfolding by_task_loop
by_task_loop_sums [] d h r = (omega arith, omega arith)
by_task_loop_sums (u ∷ rs) d h r =
    let old = get_or u.task no_use d in
    let new : TaskUse = record { calls = old.calls + 1; cost = round6 (old.cost + u.cost) } in
    let rest =
      by_task_loop_sums rs (insert u.task new d) h.1
        (RoundedTasks-insert u.task new d (round6_mod (old.cost + u.cost)) r) in
    let exact : round6 (old.cost + u.cost) ≡ old.cost + u.cost =
      round6_fixed (old.cost + u.cost) (omega (arith, RoundedTasks-get_or u.task d r, h.0)) in
    (
      omega (arith, rest.0, sum_tasks-insert (λ u. u.calls) u.task new d refl),
      omega (arith, rest.1, sum_tasks-insert (λ u. u.cost) u.task new d refl, exact),
    )

-- In a rounded ledger the summary of a tenant adds up: the calls of the tasks are all its calls,
-- the costs of the tasks are its total spend, and that is the spend the cap is checked against.
pub usage_summary_adds_up :
    (tenant : String) (b : Billing)
    → Rounded b
    → let s = usage_summary tenant b in
      (sum_tasks (λ u. u.calls) s.by_task ≡ s.calls)
      × (sum_tasks (λ u. u.cost) s.by_task ≡ s.spend_usd)
      × (s.spend_usd ≡ spend_total tenant b)
unfolding usage_summary spend_total
usage_summary_adds_up tenant b h =
    let rs = records tenant b in
    let sums = by_task_loop_sums rs [] (h.at tenant) tt in
    (
      omega (arith, sums.0),
      omega (arith, sums.1, round6_fixed (sum_cost rs) (sum_cost_mod rs (h.at tenant))),
      refl,
    )
