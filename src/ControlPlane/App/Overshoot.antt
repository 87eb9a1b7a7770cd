-- ===== src/ControlPlane/App/Overshoot.antt =====
-- How far the spend of a tenant gets past its cap while several threads handle requests of `_inference` of
-- app.py.
use paperless_assistant.Base.{
  suc, ◌*◌, none, Bool, true, false, ◌==◌, if◌then◌else◌, Option-cases, Bool-cases, ℕ, ◌+◌, ◌≤◌,
  ◌<◌, ◌≡◌, refl, ◌∙◌, inl, inr, String, List, [], ◌∷◌, arith, nat_eq, string_eq, pair_eq,
}
use mathlib.Core.Path.{subst}
use paperless_assistant.Base.Money.{Usd}
use paperless_assistant.ControlPlane.Billing.{spend_total, cap_of}
use paperless_assistant.ControlPlane.Billing.Ledger.{Rounded}
use paperless_assistant.ControlPlane.Billing.Checks.{cap_of-known, MayInfer}
use paperless_assistant.ControlPlane.Inference.{Proxy, Request, Vendor}
use paperless_assistant.ControlPlane.Inference.Metering.{CostBounded}
use paperless_assistant.ControlPlane.App.Hosted.{refusal_of-MayInfer}
use paperless_assistant.ControlPlane.App.{Draws, refusal_of}
use paperless_assistant.ControlPlane.App.Threads.{
  Asked, Serving, ServingEvent, arrives, answers, arrive, take_out, answer, serving_step,
  serve_events, in_flight, AtMost,
}
use native.Mathlib.Nat.{mul-le-mul_right}
use paperless_assistant.ControlPlane.App.Spent.{run-After}
use paperless_assistant.ControlPlane.App.Flight.{take_out-in_flight}

-- a request less in flight, and a call more in the ledger
less :
    (own : Bool) (a b c k m limit : ℕ)
    → a + c * limit ≤ m
    → c ≡ (if own then suc k else k)
    → b ≤ a + (if own then limit else 0)
    → b + k * limit ≤ m
less true a b c k m limit h e f = omega (arith, subst (λ c. a + c * limit ≤ m) e h)
less false a b c k m limit h e f = omega (arith, subst (λ c. a + c * limit ≤ m) e h)

module _ (proxy : Proxy) (limit : Usd) (tenant : String) (max : Usd) (n : ℕ)
    (bounded : CostBounded proxy limit) (capped : 0 < max) where
  -- Each request in flight may still cost a call.
  record Held (s : Serving) : Type 0 where
    pub rounded : Rounded s.vendor.billing
    pub same_cap : cap_of tenant s.vendor.billing ≡ max
    pub within :
        spend_total tenant s.vendor.billing + in_flight tenant s.flight * limit ≤ max + n * limit

  -- a request of the tenant that has passed the checks finds the spend below the cap
  passed_below :
      (who : String) (request : Request) (s : Serving)
      → Held s
      → refusal_of who s.vendor.billing ≡ none
      → who ≡ tenant
      → spend_total tenant s.vendor.billing < max
  passed_below who request s held passed same = below (
      subst (λ t. MayInfer t s.vendor.billing) same
        (refusal_of-MayInfer who s.vendor.billing passed))
    where
      below : MayInfer tenant s.vendor.billing → spend_total tenant s.vendor.billing < max
      below (sub, known, active, room) =
          ground (arith, cap_of-known tenant s.vendor.billing sub known, held.same_cap)

  arrived-Held :
      (a : Asked) (s : Serving)
      → Held s
      → refusal_of a.1 s.vendor.billing ≡ none
      → in_flight tenant (a ∷ s.flight) ≤ n
      → Held (record s { flight = a ∷ s.flight })
  arrived-Held (draws, who, request) s held passed room = elim (Bool-cases (who == tenant)) [
    | inr other ↦ record {
      rounded = held.rounded;
      same_cap = held.same_cap;
      within = rw other held.within;
    }
    | inl own ↦ record {
      rounded = held.rounded;
      same_cap = held.same_cap;
      within = omega (
        arith,
        passed_below who request s held passed ((string_eq.test_iff who tenant).0 own),
        mul-le-mul_right limit room,
      );
    }
  ]

  arrive-passed :
      (draws : Draws) (who : String) (request : Request) (s : Serving)
      → refusal_of who s.vendor.billing ≡ none
      → arrive (draws, who, request) s ≡ record s { flight = (draws, who, request) ∷ s.flight }
  unfolding arrive
  arrive-passed draws who request s passed = rw (passed, arrive) refl

  arrive-Held :
      (a : Asked) (s : Serving)
      → Held s
      → in_flight tenant (arrive a s).flight ≤ n
      → Held (arrive a s)
  unfolding arrive
  arrive-Held (draws, who, request) s held room =
      elim (Option-cases (refusal_of who s.vendor.billing)) [
        | inr (response, stopped) ↦ rw (stopped, arrive) held
        | inl passed ↦
            rw (passed, arrive)
              (arrived-Held (draws, who, request) s held passed
                (subst (λ (t : Serving). in_flight tenant t.flight ≤ n)
                  (arrive-passed draws who request s passed) room))
      ]

  answer-Held : (k : ℕ) (s : Serving) → Held s → Held (answer proxy k s)
  unfolding answer
  answer-Held k s held = elim (Option-cases (take_out k s.flight)) [
    | inl nothing ↦ rw (nothing, answer) held
    | inr (((draws, who, request), rest), there) ↦
        let after =
          run-After proxy limit tenant bounded draws.now who request s.vendor held.rounded in
        rw (there, answer)
          (record {
            rounded = after.rounded;
            same_cap = after.same_cap ∙ held.same_cap;
            within =
                less (who == tenant) (spend_total tenant s.vendor.billing) _
                  (in_flight tenant s.flight) (in_flight tenant rest) (max + n * limit) limit
                  held.within
                  (take_out-in_flight tenant k s.flight rest (draws, who, request) there)
                  after.spent;
          })
  ]

  step-Held :
      (event : ServingEvent) (s : Serving)
      → Held s
      → in_flight tenant (serving_step proxy event s).flight ≤ n
      → Held (serving_step proxy event s)
  unfolding serving_step
  step-Held (arrives a) s held room = arrive-Held a s held room
  step-Held (answers k) s held room = answer-Held k s held

  first_AtMost :
      (events : List ServingEvent) (s : Serving)
      → AtMost proxy tenant n events s
      → in_flight tenant s.flight ≤ n
  first_AtMost [] s h = h
  first_AtMost (event ∷ events) s h = h.0

  serve_events-Held :
      (events : List ServingEvent) (s : Serving)
      → Held s
      → AtMost proxy tenant n events s
      → Held (serve_events proxy events s)
  serve_events-Held [] s held h = held
  serve_events-Held (event ∷ events) s held (_, rest) =
      let s' = serving_step proxy event s in
      serve_events-Held events s' (step-Held event s held (first_AtMost events s' rest)) rest

-- Whatever requests of whatever tenants the threads of the server handle, and in whatever order their
-- checks and their calls come: while at no time more than `n` requests of a tenant with a cap have
-- passed the checks and are not answered, its spend stays at most `n` calls above the cap, if it was
-- so in the beginning. A call costs `limit` at most, the ledger is rounded, and no subscription
-- changes meanwhile.
pub serve_events_overshoot :
    (proxy : Proxy) (limit : Usd) (tenant : String) (n : ℕ) (events : List ServingEvent)
    (v : Vendor)
    → CostBounded proxy limit
    → 0 < cap_of tenant v.billing
    → Rounded v.billing
    → spend_total tenant v.billing ≤ cap_of tenant v.billing + n * limit
    → AtMost proxy tenant n events (record { vendor = v; flight = [] })
    → spend_total tenant
        (serve_events proxy events (record { vendor = v; flight = [] })).vendor.billing
      ≤ cap_of tenant v.billing + n * limit
serve_events_overshoot proxy limit tenant n events v bounded capped rounded within busy =
    let max = cap_of tenant v.billing in
    let start : Serving = record { vendor = v; flight = [] } in
    let held =
      serve_events-Held proxy limit tenant max n bounded capped events start
        (record { rounded = rounded; same_cap = refl; within = omega (arith, within) }) busy in
    omega (arith, held.within)
