-- ===== src/Agent/Sweep/Booked.antt =====
-- What a document adds to the ledger of the period in sweep.py.
use paperless_assistant.Base.{◌+◌, ◌≤◌, String, arith, nat_eq, string_eq, pair_eq}
use paperless_assistant.Base.Dict.{get_or, get_or-insert_self}
use paperless_assistant.Base.Money.{Usd, round6, round6_near}
use paperless_assistant.Agent.Spend.{SpendLedger, current, ledger_add}
use paperless_assistant.Agent.Sweep.{Outcome, finished, raised}
use paperless_assistant.Agent.Sweep.Run.{ledger_after}
use paperless_assistant.Agent.Sweep.Slots.{CostsAtMost}

ledger_add-le :
    (period : String) (cost limit : Usd) (l : SpendLedger)
    → cost + 50 ≤ limit
    → current period (ledger_add period cost l).1 ≤ current period l + limit
unfolding ledger_add current
ledger_add-le period cost limit l cheap = ground (
  arith,
  get_or-insert_self period (round6 (get_or period 0 l + cost)) 0 l,
  round6_near (get_or period 0 l + cost),
)

pub ledger_after-le :
    (period : String) (outcome : Outcome) (limit : Usd) (l : SpendLedger)
    → CostsAtMost limit outcome
    → current period (ledger_after period outcome l) ≤ current period l + limit
unfolding ledger_after
ledger_after-le period (finished status cost) limit l cheap =
    ledger_add-le period cost limit l cheap
ledger_after-le period (raised reason) limit l cheap = omega arith
