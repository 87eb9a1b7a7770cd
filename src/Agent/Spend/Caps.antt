-- ===== src/Agent/Spend/Caps.antt =====
-- How far the spend of a run gets past its cap in spend.py, and what the ledger of obs.py adds up.
use paperless_assistant.Base.{
  ◌+◌, ◌%◌, ◌≤◌, ◌<◌, ◌≡◌, inl, inr, String, List, [], ◌∷◌, arith, Bool-cases, All, ◌==◌, nat_eq,
  string_eq, pair_eq, if◌then◌else◌,
}
use paperless_assistant.Base.Dict.{get_or, get_or-insert}
use paperless_assistant.Base.Money.{Usd, round6, round6_fixed}
use paperless_assistant.Agent.Spend.{
  SpendGovernor, add, should_abort, SpendLedger, current, ledger_add,
}

-- One worker behind the other: each asks `should_abort` first, and adds its cost if it may start.
unfoldable pub spend_all : List Usd → SpendGovernor → SpendGovernor
unfolding add should_abort
spend_all [] g = g
spend_all (cost ∷ costs) g =
    let next = spend_all costs (add cost g) in
    let stopped = spend_all costs g in if should_abort g then stopped else next

-- With a cap, costs of `limit` at most, and a total that is at most the cap and `limit`, work that is
-- started one behind the other leaves the total at the cap and `limit` at most.
pub spend_all_overshoot :
    (costs : List Usd) (limit : Usd) (g : SpendGovernor)
    → All (λ cost. cost ≤ limit) costs
    → 0 < g.max_spend
    → g.total ≤ g.max_spend + limit
    → (spend_all costs g).total ≤ g.max_spend + limit
unfolding spend_all should_abort add
spend_all_overshoot [] limit g cheap capped within = within
spend_all_overshoot (cost ∷ costs) limit g cheap capped within =
    elim (Bool-cases (should_abort g)) [
      | inl stop ↦ rw (stop, spend_all) (spend_all_overshoot costs limit g cheap.1 capped within)
      | inr go ↦
          rw (go, spend_all)
            (spend_all_overshoot costs limit (add cost g) cheap.1 capped
              (ground (arith, go, cheap.0)))
    ]

-- `ledger_add`, one behind the other
abbrev pub ledger_add_all : String → List Usd → SpendLedger → SpendLedger
ledger_add_all period [] l = l
ledger_add_all period (cost ∷ costs) l = ledger_add_all period costs (ledger_add period cost l).1

abbrev pub sum : List Usd → Usd
sum [] = 0
sum (cost ∷ costs) = cost + sum costs

current-ledger_add :
    (period other : String) (cost : Usd) (l : SpendLedger)
    → current other l % 100 ≡ 0
    → cost % 100 ≡ 0
    → current other (ledger_add period cost l).1
      ≡ (if period == other then current other l + cost else current other l)
unfolding ledger_add current
current-ledger_add period other cost l exact whole = ground (
  arith,
  get_or-insert period other (round6 (get_or period 0 l + cost)) 0 l,
  round6_fixed (get_or period 0 l + cost),
  string_eq.test_iff period other,
)

-- With costs and a period's spend of six decimal places the ledger of the period is exact: it grows by the sum of the
-- costs that are added in the period, and the other periods stay as they are.
pub current-ledger_add_all :
    (period other : String) (costs : List Usd) (l : SpendLedger)
    → All (λ cost. cost % 100 ≡ 0) costs
    → current other l % 100 ≡ 0
    → current other (ledger_add_all period costs l)
      ≡ (if period == other then current other l + sum costs else current other l)
current-ledger_add_all period other [] l whole exact = ground arith
current-ledger_add_all period other (cost ∷ costs) l whole exact = ground (
  arith,
  current-ledger_add period other cost l exact whole.0,
  current-ledger_add_all period other costs (ledger_add period cost l).1 whole.1,
)
