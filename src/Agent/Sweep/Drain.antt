-- ===== src/Agent/Sweep/Drain.antt =====
-- What a fatal error of the provider stops in `_drain` of sweep.py.
use paperless_assistant.Base.{
  sym, ap, is_some, Bool-cases, ltb, length, ℕ, ◌≡◌, refl, ◌∙◌, inl, inr, true, none, some, List,
  [], ◌∷◌, arith, Option-cases, nat_eq, string_eq, pair_eq,
}
use mathlib.Core.Path.{subst}
use paperless_assistant.Base.Dict.{lookup, insert, erase, lookup-insert, lookup-erase}
use paperless_assistant.Agent.Sweep.{
  FatalReason, Outcome, finished, raised, Process, Phase, taken, allowed, worked, DrainEvent,
  started, advanced, collected, DrainState, guarded, advance_from, advance, fail_fast, collect,
  drain_step, drain_events,
}

module _ {W : Type 0} (workers : ℕ) (process : Process W) where
  fail_fast-world :
      (o : Outcome) (s : DrainState W) → (fail_fast workers process o s).world ≡ s.world
  unfolding fail_fast
  fail_fast-world (finished status cost) s = refl
  fail_fast-world (raised none) s = refl
  fail_fast-world (raised (some reason)) s = ground arith

  fail_fast-abort :
      (o : Outcome) (s : DrainState W)
      → s.abort ≡ true
      → (fail_fast workers process o s).abort ≡ true
  unfolding fail_fast
  fail_fast-abort (finished status cost) s h = h
  fail_fast-abort (raised none) s h = h
  fail_fast-abort (raised (some reason)) s h = ground arith

  pub collect-world :
      (doc_id : ℕ) (s : DrainState W) → (collect workers process doc_id s).world ≡ s.world
  unfolding collect
  collect-world doc_id s = elim (Option-cases (lookup doc_id s.futures)) [
    | inl none_there ↦ simp (none_there, collect) refl
    | inr (outcome, there) ↦ simp (there, collect) (fail_fast-world outcome s)
  ]

  collect-abort :
      (doc_id : ℕ) (s : DrainState W)
      → s.abort ≡ true
      → (collect workers process doc_id s).abort ≡ true
  unfolding collect
  collect-abort doc_id s h = elim (Option-cases (lookup doc_id s.futures)) [
    | inl none_there ↦ simp (none_there, collect) h
    | inr (outcome, there) ↦ simp (there, collect) (fail_fast-abort outcome s h)
  ]

  pub collect-running :
      (doc_id : ℕ) (s : DrainState W) → (collect workers process doc_id s).running ≡ s.running
  unfolding collect fail_fast
  collect-running doc_id s = elim (Option-cases (lookup doc_id s.futures)) [
    | inl none_there ↦ simp (none_there, collect) refl
    | inr (finished status cost, there) ↦ simp (there, collect) refl
    | inr (raised none, there) ↦ simp (there, collect) refl
    | inr (raised (some reason), there) ↦ simp (there, collect) (ground arith)
  ]

  collect-fatal :
      (doc_id : ℕ) (reason : FatalReason) (s : DrainState W)
      → lookup doc_id s.futures ≡ some (raised (some reason))
      → (collect workers process doc_id s).abort ≡ true
  unfolding collect fail_fast
  collect-fatal doc_id reason s h = simp (h, collect) (ground arith)

  -- a worker has the document in hand
  abbrev pub InHand : ℕ → DrainState W → Type 0
  InHand doc_id s = is_some (lookup doc_id s.running) ≡ true

  module _ (P : W → Type 0) (before : DrainState W)
      (keeps : (doc_id : ℕ) → InHand doc_id before → (w : W) → P w → P (process.work doc_id w).1)
      (books : (doc_id : ℕ)
        → InHand doc_id before
        → (outcome : Outcome) (w : W) → P w
        → P (process.book doc_id outcome w)) where
    -- The stage is aborted, only documents that were in hand before are so, and `P` holds.
    record Stopped (s : DrainState W) : Type 0 where
      pub aborted : s.abort ≡ true
      pub only : (doc_id : ℕ) → InHand doc_id s → InHand doc_id before
      pub holds : P s.world

    InHand-insert :
        (doc_id other : ℕ) (phase : Phase) (s : DrainState W)
        → InHand doc_id s
        → is_some (lookup other (insert doc_id phase s.running)) ≡ true
        → InHand other s
    InHand-insert doc_id other phase s here h =
        ground
          (arith, h, here, lookup-insert doc_id other phase s.running, nat_eq.test_iff doc_id other)

    InHand-erase :
        (doc_id other : ℕ) (s : DrainState W)
        → is_some (lookup other (erase doc_id s.running)) ≡ true
        → InHand other s
    InHand-erase doc_id other s h = ground (arith, h, lookup-erase doc_id other s.running)

    guarded-Stopped :
        (doc_id : ℕ) (s : DrainState W) → Stopped s → Stopped (guarded workers process doc_id s)
    unfolding guarded
    guarded-Stopped doc_id s h = elim (Bool-cases (ltb (length s.running) workers)) [
      | inr busy ↦ rw (busy, guarded) h
      | inl free ↦
          rw (free, guarded)
            (elim (Bool-cases s.abort) [
              | inl stop ↦ rw stop (record { aborted = refl; only = h.only; holds = h.holds })
              | inr go ↦ absurd (ground (arith, go, h.aborted))
            ])
    ]

    advance_from-Stopped :
        (doc_id : ℕ) (phase : Phase) (s : DrainState W)
        → InHand doc_id s
        → Stopped s
        → Stopped (advance_from workers process doc_id phase s)
    unfolding advance_from
    advance_from-Stopped doc_id taken s here h =
        elim (Option-cases (process.capped doc_id s.world)) [
          | inl free ↦
              rw (free, advance_from)
                (record {
                  aborted = h.aborted;
                  only = λ other k. h.only other (InHand-insert doc_id other allowed s here k);
                  holds = h.holds;
                })
          | inr (outcome, ends) ↦
              rw (ends, advance_from)
                (record {
                  aborted = h.aborted;
                  only = λ other k. h.only other (InHand-erase doc_id other s k);
                  holds = h.holds;
                })
        ]
    advance_from-Stopped doc_id allowed s here h = record {
      aborted = h.aborted;
      only = λ other k. h.only other (InHand-insert doc_id other _ s here k);
      holds = keeps doc_id (h.only doc_id here) s.world h.holds;
    }
    advance_from-Stopped doc_id (worked outcome) s here h = record {
      aborted = h.aborted;
      only = λ other k. h.only other (InHand-erase doc_id other s k);
      holds = books doc_id (h.only doc_id here) outcome s.world h.holds;
    }

    advance-Stopped :
        (doc_id : ℕ) (s : DrainState W) → Stopped s → Stopped (advance workers process doc_id s)
    unfolding advance
    advance-Stopped doc_id s h = elim (Option-cases (lookup doc_id s.running)) [
      | inl idle ↦ simp (idle, advance) h
      | inr (phase, here) ↦
          simp (here, advance) (advance_from-Stopped doc_id phase s (ap is_some here) h)
    ]

    collect-Stopped :
        (doc_id : ℕ) (s : DrainState W) → Stopped s → Stopped (collect workers process doc_id s)
    collect-Stopped doc_id s h = record {
      aborted = collect-abort doc_id s h.aborted;
      only = λ other k.
          h.only other (ap (λ r. is_some (lookup other r)) (sym (collect-running doc_id s)) ∙ k);
      holds = subst P (sym (collect-world doc_id s)) h.holds;
    }

    drain_events-Stopped :
        (events : List DrainEvent) (s : DrainState W)
        → Stopped s
        → Stopped (drain_events workers process events s)
    unfolding drain_events drain_step
    drain_events-Stopped [] s h = h
    drain_events-Stopped (started doc_id ∷ events) s h =
        drain_events-Stopped events (guarded workers process doc_id s) (guarded-Stopped doc_id s h)
    drain_events-Stopped (advanced doc_id ∷ events) s h =
        drain_events-Stopped events (advance workers process doc_id s) (advance-Stopped doc_id s h)
    drain_events-Stopped (collected doc_id ∷ events) s h =
        drain_events-Stopped events (collect workers process doc_id s) (collect-Stopped doc_id s h)

  -- Once the main thread has collected a fatal error of the provider, only documents that workers
  -- have in hand at that time are still processed, in whatever order workers and futures go on:
  -- whatever the pipeline and the ledger keep for these documents is kept by the rest of the stage.
  pub drain_events_stop :
      (P : W → Type 0) (doc_id : ℕ) (reason : FatalReason) (events : List DrainEvent)
      (s : DrainState W)
      → lookup doc_id s.futures ≡ some (raised (some reason))
      → ((other : ℕ) → InHand other s → (w : W) → P w → P (process.work other w).1)
      → ((other : ℕ)
          → InHand other s
          → (outcome : Outcome) (w : W) → P w
          → P (process.book other outcome w))
      → P s.world
      → P (drain_events workers process (collected doc_id ∷ events) s).world
  unfolding drain_events drain_step
  drain_events_stop P doc_id reason events s h keeps books start =
      (drain_events-Stopped P s keeps books events (collect workers process doc_id s) (record {
        aborted = collect-fatal doc_id reason s h;
        only = λ other k. ap (λ r. is_some (lookup other r)) (sym (collect-running doc_id s)) ∙ k;
        holds = subst P (sym (collect-world doc_id s)) start;
      })).holds
