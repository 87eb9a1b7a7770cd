-- ===== src/Agent/Sweep/Caps.antt =====
-- The cap of a period over one stage of sweep.py, whose workers test it and spend at the same time.
use paperless_assistant.Base.{
  ℕ, ◌+◌, ◌*◌, ◌≤◌, ◌<◌, ◌≡◌, refl, sym, inl, inr, true, false, String, none, some, List, [], ◌∷◌,
  arith, Bool-cases, Option-cases, length, ltb, ltb→lt, nat_eq, string_eq, pair_eq,
}
use paperless_assistant.Base.Dict.{Dict, lookup, insert}
use mathlib.Core.Path.{subst}
use native.Mathlib.Nat.{mul-le-mul_right}
use paperless_assistant.Base.Money.{Usd}
use paperless_assistant.Agent.Spend.{SpendGovernor, SpendLedger, current, would_exceed}
use paperless_assistant.Agent.Sweep.{
  Outcome, Process, Phase, taken, allowed, worked, DrainEvent, started, advanced, collected,
  DrainState, finish_future, guarded, advance_from, advance, collect, drain_step, drain_events,
}
use paperless_assistant.Agent.Sweep.Run.{
  Stage, is_billable, SweepSettings, workers_of, Engine, StageWorld, period_cap_hit,
  process_document,
}
use paperless_assistant.Agent.Sweep.Drain.{collect-world, collect-running}
use paperless_assistant.Agent.Sweep.Slots.{
  weight_of, weight, CostsAtMost, AllCheap, insert-taken, insert-phase, weight-lt, weight-erase,
  AllCheap-insert, AllCheap-erase, lookup-Cheap,
}
use paperless_assistant.Agent.Sweep.Booked.{ledger_after-le}

-- the documents that write
abbrev pub Bounded : {W : Type 0} → Engine W → Usd → Type 0
Bounded {W} engine limit =
    (stage : Stage) (doc_id : ℕ) (spend : SpendGovernor) (w : W)
    → CostsAtMost limit (engine.process_one stage false doc_id spend w).0

module _ {W : Type 0} (settings : SweepSettings) (engine : Engine W) (period : String) (limit : Usd)
    (bounded : Bounded engine limit) (capped : 0 < settings.per_period) where
  -- past the cap by one document for each worker at most
  abbrev pub Within : SpendLedger → Type 0
  Within l = current period l ≤ settings.per_period + workers_of settings * limit

  -- Each document in hand that may still spend has its place.
  pub record Held (d : DrainState (StageWorld W)) : Type 0 where
    pub places : length d.running ≤ workers_of settings
    pub cheap : AllCheap limit d.running
    pub within :
        current period d.world.ledger + weight d.running * limit
        ≤ settings.per_period + workers_of settings * limit

  -- Where the cap of the period is not hit, there is room below it.
  below_cap :
      (s : StageWorld W)
      → period_cap_hit settings engine period s ≡ false
      → current period s.ledger < settings.per_period
  unfolding period_cap_hit would_exceed
  below_cap s free = ground arith

  module _ (stage : Stage) (billable : is_billable stage ≡ true) where
    abbrev process : Process (StageWorld W)
    process = process_document settings engine period stage false

    capped_none :
        (doc_id : ℕ) (s : StageWorld W)
        → process.capped doc_id s ≡ none
        → current period s.ledger < settings.per_period
    unfolding process_document
    capped_none doc_id s h = elim (Bool-cases (period_cap_hit settings engine period s)) [
      | inl hit ↦ absurd (ground (arith, h, billable, hit))
      | inr free ↦ below_cap s free
    ]

    worked-Cheap : (doc_id : ℕ) (s : StageWorld W) → CostsAtMost limit (process.work doc_id s).0
    unfolding process_document
    worked-Cheap doc_id s = bounded stage doc_id s.spend s.inner

    worked-ledger : (doc_id : ℕ) (s : StageWorld W) → (process.work doc_id s).1.ledger ≡ s.ledger
    unfolding process_document
    worked-ledger doc_id s = refl

    booked-le :
        (doc_id : ℕ) (outcome : Outcome) (s : StageWorld W)
        → CostsAtMost limit outcome
        → current period (process.book doc_id outcome s).ledger ≤ current period s.ledger + limit
    unfolding process_document
    booked-le doc_id outcome s cheap =
        rw billable (ledger_after-le period outcome limit s.ledger cheap)

    guarded-Held :
        (doc_id : ℕ) (d : DrainState (StageWorld W))
        → Held d
        → Held (guarded (workers_of settings) process doc_id d)
    unfolding guarded
    guarded-Held doc_id d h = elim (Bool-cases (ltb (length d.running) (workers_of settings))) [
      | inr busy ↦ rw (busy, guarded) h
      | inl free ↦
          rw (free, guarded)
            (elim (Bool-cases d.abort) [
              | inl stop ↦
                  rw stop (record { places = h.places; cheap = h.cheap; within = h.within })
              | inr go ↦
                  let (longer, same) = insert-taken doc_id d.running in
                  rw go (record {
                    places =
                        omega (arith, longer, ltb→lt (length d.running) (workers_of settings) free);
                    cheap = AllCheap-insert limit doc_id taken d.running tt h.cheap;
                    within = omega (arith, h.within, mul-le-mul_right limit same);
                  })
            ])
    ]

    finished-Held :
        (doc_id : ℕ) (phase : Phase) (outcome : Outcome) (w : StageWorld W)
        (d : DrainState (StageWorld W))
        → lookup doc_id d.running ≡ some phase
        → current period w.ledger ≤ current period d.world.ledger + weight_of phase * limit
        → Held d
        → Held (finish_future doc_id outcome (record d { world = w }))
    finished-Held doc_id phase outcome w d here spent h =
        let (shorter, lighter) = weight-erase doc_id phase d.running here in
        record {
          places = omega (arith, shorter, h.places);
          cheap = AllCheap-erase limit doc_id d.running h.cheap;
          within = omega (arith, h.within, spent, mul-le-mul_right limit lighter);
        }

    allowed-Held :
        (doc_id : ℕ) (d : DrainState (StageWorld W))
        → lookup doc_id d.running ≡ some taken
        → current period d.world.ledger < settings.per_period
        → Held d
        → Held (record d { running = insert doc_id allowed d.running })
    allowed-Held doc_id d here below h =
        let (same, more) = insert-phase doc_id taken allowed d.running here in
        let few = weight-lt doc_id d.running here in
        let fits : weight (insert doc_id allowed d.running) ≤ workers_of settings =
          omega (arith, more, few, h.places) in
        record {
          places = omega (arith, same, h.places);
          cheap = AllCheap-insert limit doc_id allowed d.running tt h.cheap;
          within = omega (arith, below, mul-le-mul_right limit fits);
        }

    advance_from-Held :
        (doc_id : ℕ) (phase : Phase) (d : DrainState (StageWorld W))
        → lookup doc_id d.running ≡ some phase
        → Held d
        → Held (advance_from (workers_of settings) process doc_id phase d)
    unfolding advance_from
    advance_from-Held doc_id taken d here h = elim (Option-cases (process.capped doc_id d.world)) [
      | inl free ↦
          rw (free, advance_from) (allowed-Held doc_id d here (capped_none doc_id d.world free) h)
      | inr (outcome, ends) ↦
          rw (ends, advance_from)
            (finished-Held doc_id taken outcome d.world d here (omega arith) h)
    ]
    advance_from-Held doc_id allowed d here h =
        let o = (process.work doc_id d.world).0 in
        let (same, level) = insert-phase doc_id allowed (worked o) d.running here in
        let equal : weight (insert doc_id (worked o) d.running) ≡ weight d.running =
          omega (arith, level) in
        record {
          places = omega (arith, same, h.places);
          cheap =
              AllCheap-insert limit doc_id (worked o) d.running (worked-Cheap doc_id d.world)
                h.cheap;
          within = rw (worked-ledger doc_id d.world, equal) h.within;
        }
    advance_from-Held doc_id (worked outcome) d here h =
        finished-Held doc_id (worked outcome) outcome (process.book doc_id outcome d.world) d here
          (omega (
            arith,
            booked-le doc_id outcome d.world
                (lookup-Cheap limit doc_id (worked outcome) d.running h.cheap here),
          ))
          h

    advance-Held :
        (doc_id : ℕ) (d : DrainState (StageWorld W))
        → Held d
        → Held (advance (workers_of settings) process doc_id d)
    unfolding advance
    advance-Held doc_id d h = elim (Option-cases (lookup doc_id d.running)) [
      | inl idle ↦ simp (idle, advance) h
      | inr (phase, here) ↦ simp (here, advance) (advance_from-Held doc_id phase d here h)
    ]

    collect-Held :
        (doc_id : ℕ) (d : DrainState (StageWorld W))
        → Held d
        → Held (collect (workers_of settings) process doc_id d)
    collect-Held doc_id d h =
        let same = sym (collect-running (workers_of settings) process doc_id d) in
        let still = sym (collect-world (workers_of settings) process doc_id d) in
        record {
          places = subst (λ (r : Dict ℕ Phase). length r ≤ workers_of settings) same h.places;
          cheap = subst (AllCheap limit) same h.cheap;
          within =
              subst
                (λ (r : Dict ℕ Phase).
                  current period (collect (workers_of settings) process doc_id d).world.ledger
                    + weight r * limit
                  ≤ settings.per_period + workers_of settings * limit)
                same
                (subst
                  (λ (w : StageWorld W).
                    current period w.ledger + weight d.running * limit
                    ≤ settings.per_period + workers_of settings * limit)
                  still h.within);
        }

    pub drain_events-Held :
        (events : List DrainEvent) (d : DrainState (StageWorld W))
        → Held d
        → Held (drain_events (workers_of settings) process events d)
    unfolding drain_events drain_step
    drain_events-Held [] d h = h
    drain_events-Held (started doc_id ∷ events) d h =
        drain_events-Held events (guarded (workers_of settings) process doc_id d)
          (guarded-Held doc_id d h)
    drain_events-Held (advanced doc_id ∷ events) d h =
        drain_events-Held events (advance (workers_of settings) process doc_id d)
          (advance-Held doc_id d h)
    drain_events-Held (collected doc_id ∷ events) d h =
        drain_events-Held events (collect (workers_of settings) process doc_id d)
          (collect-Held doc_id d h)

    pub Held-Within : (d : DrainState (StageWorld W)) → Held d → Within d.world.ledger
    Held-Within d h = omega (arith, h.within)
