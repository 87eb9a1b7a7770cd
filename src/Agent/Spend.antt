-- ===== src/Agent/Spend.antt =====
-- src/paperless_assistant/spend.py and the spend ledger of obs.py: the caps of a run and of a period.
-- The period key of the clock is an argument, a cap of 0 is none.
pub mod Caps
use paperless_assistant.Base.{
  zero, suc, ◌+◌, refl, inl, inr, Bool, true, false, String, none, some, [], arith, leb, nat_beq,
  nat_eq, string_eq, pair_eq, if◌then◌else◌,
}
use paperless_assistant.Base.Dict.{Dict, insert, get_or}
use paperless_assistant.Base.Money.{Usd, round6}

pub record SpendGovernor : Type 0 where
  pub max_spend : Usd
  pub total : Usd

-- `add`, whose result is the new total
unfoldable pub add : Usd → SpendGovernor → SpendGovernor
add cost g = record g { total = g.total + cost }

unfoldable pub should_abort : SpendGovernor → Bool
should_abort g = if nat_beq g.max_spend 0 then false else leb g.max_spend g.total

-- the content of a `SpendLedger`: the spend of each period
abbrev pub SpendLedger : Type 0
SpendLedger = Dict String Usd

unfoldable pub current : String → SpendLedger → Usd
current period l = get_or period 0 l

unfoldable pub ledger_add : String → Usd → SpendLedger → Usd × SpendLedger
unfolding current round6
ledger_add period cost l =
    let total = round6 (current period l + cost) in
    if nat_beq cost 0 then (current period l, l) else (total, insert period total l)

unfoldable pub would_exceed : String → Usd → SpendLedger → Bool
unfolding current
would_exceed period cap l = if nat_beq cap 0 then false else leb cap (current period l)
