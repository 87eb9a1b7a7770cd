-- ===== src/ControlPlane/Billing/Checks.antt =====
-- Who may use hosted inference by billing.py: an active subscription, and spend below the cap.
use paperless_assistant.Base.{
  ℕ, ◌<◌, ◌≡◌, ◌∙◌, ◌≢◌, ◌⊎◌, inl, inr, ◌↔◌, String, Option, none, some, arith, Option-cases, ◌==◌,
  nat_eq, string_eq, pair_eq, if◌then◌else◌,
}
use paperless_assistant.Base.Dict.{lookup, insert, lookup-insert_self}
use paperless_assistant.ControlPlane.Billing.{
  Subscription, Billing, status_active, spend_total, cap_of, check_entitled, check_spend_cap,
  set_status, unentitled, Refusal,
}

-- The two checks that the proxy makes, in their order.
unfoldable pub admission : String → Billing → Option Refusal
admission tenant b = elim (check_entitled tenant b) [
  | none ↦ check_spend_cap tenant b
  | some refusal ↦ some refusal
]

-- The tenant has an active subscription, and no cap or a spend that has not reached it.
abbrev pub MayInfer : String → Billing → Type 0
MayInfer tenant b =
    (sub : Subscription) × (lookup tenant b.subs ≡ some sub)
    × (sub.status ≡ status_active)
    × ((sub.spend_cap ≡ 0) ⊎ (spend_total tenant b < sub.spend_cap))

check_entitled-known :
    (tenant : String) (b : Billing) (sub : Subscription)
    → lookup tenant b.subs ≡ some sub
    → check_entitled tenant b ≡ (if sub.status == status_active then none else some unentitled)
unfolding check_entitled
check_entitled-known tenant b sub known = rw (known, check_entitled)

check_entitled-unknown :
    (tenant : String) (b : Billing)
    → lookup tenant b.subs ≡ none
    → check_entitled tenant b ≡ some unentitled
unfolding check_entitled
check_entitled-unknown tenant b unknown = rw (unknown, check_entitled)

pub cap_of-known :
    (tenant : String) (b : Billing) (sub : Subscription)
    → lookup tenant b.subs ≡ some sub
    → cap_of tenant b ≡ sub.spend_cap
unfolding cap_of
cap_of-known tenant b sub known = rw (known, cap_of)

-- Both checks pass exactly if the tenant has a subscription in the status "active" whose cap is 0
-- or above the tenant's spend. A tenant that was never provisioned is refused.
pub admission_iff :
    (tenant : String) (b : Billing) → (admission tenant b ≡ none) ↔ MayInfer tenant b
unfolding admission check_spend_cap
admission_iff tenant b = elim (Option-cases (lookup tenant b.subs)) [
  | inl unknown ↦ (
    λ passed. absurd (ground (arith, check_entitled-unknown tenant b unknown)),
    λ (sub, known, active, room). cc,
  )
  | inr (sub, known) ↦ (
    λ passed. (
      sub,
      known,
      ground (
        arith,
        check_entitled-known tenant b sub known,
        string_eq.test_iff sub.status status_active,
      ),
      ground (arith, check_entitled-known tenant b sub known, cap_of-known tenant b sub known),
    ),
    λ (sub', known', active, room). ground (
      arith,
      check_entitled-known tenant b sub' known',
      cap_of-known tenant b sub' known',
      string_eq.test_iff sub'.status status_active,
    ),
  )
]

-- A tenant whose status is set to anything but "active" is refused from then on.
pub set_status-unentitled :
    (now : ℕ) (tenant status : String) (b : Billing)
    → status ≢ status_active
    → check_entitled tenant (set_status now tenant status b).1 ≡ some unentitled
unfolding set_status
set_status-unentitled now tenant status b h = elim (Option-cases (lookup tenant b.subs)) [
  | inl unknown ↦ rw (unknown, set_status) (check_entitled-unknown tenant b unknown)
  | inr (sub, known) ↦
      let sub' = record sub { status = status; updated_at = now } in
      rw (known, set_status)
        (check_entitled-known tenant (record b { subs = insert tenant sub' b.subs }) sub'
            (lookup-insert_self tenant sub' b.subs)
          ∙ ground (arith, string_eq.test_iff status status_active))
]
