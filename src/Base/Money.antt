-- ===== src/Base/Money.antt =====
-- USD amounts. An amount is a whole number of units of 10⁻⁸ dollar: every price of the table is a
-- multiple of one unit per token, and a record is rounded to six places, 100 units.
use Prim.Native.Nat.{ℕ, ◌+◌, ◌-◌, ◌*◌, ◌/◌, ◌%◌, ◌≤◌}
use mathlib.Core.Path.{◌≡◌}
use native.Mathlib.Omega.{arith}
use paperless_assistant.Base.Tests.{if◌then◌else◌, ltb, nat_beq}

abbrev pub Usd : Type 0
Usd = ℕ

-- `round(x, 6)`: to the nearest multiple of 100 units, a tie to the even one.
unfoldable pub round6 : Usd → Usd
round6 x =
    let q = x / 100 in
    let r = x % 100 in
    if ltb r 50
    then q * 100
    else if ltb 50 r
    then (q + 1) * 100
    else if nat_beq (q % 2) 0
    then q * 100
    else (q + 1) * 100

pub round6_mod : (x : Usd) → round6 x % 100 ≡ 0
unfolding round6
round6_mod x = ground arith

pub round6_fixed : (x : Usd) → x % 100 ≡ 0 → round6 x ≡ x
unfolding round6
round6_fixed x h = ground arith

-- A rounded amount lies within 50 units of the exact one.
pub round6_near : (x : Usd) → (round6 x ≤ x + 50) × (x ≤ round6 x + 50)
unfolding round6
round6_near x = ground arith

-- An amount that may be negative: `negsuc n` is -(n + 1) units.
pub data Signed : Type 0 where
  pos : Usd → Signed
  negsuc : ℕ → Signed

-- `round(a - b, 6)`
unfoldable pub round6_sub : Usd → Usd → Signed
unfolding round6
round6_sub a b =
    if ltb a b
    then (if nat_beq (round6 (b - a)) 0 then pos 0 else negsuc (round6 (b - a) - 1))
    else pos (round6 (a - b))
