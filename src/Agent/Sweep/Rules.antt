-- ===== src/Agent/Sweep/Rules.antt =====
-- The rules of sweep.py's loops: what every document keeps, a drain keeps, and what every stage keeps,
-- a tick keeps.
use paperless_assistant.Base.{
  arith, ℕ, ◌≡◌, refl, ◌⊎◌, inl, inr, Bool, false, not, ◌||◌, ◌&&◌, String, none, List, [], ◌∷◌,
  ◌++◌, Bool-cases, Option-cases, nat_eq, string_eq, pair_eq,
}
use paperless_assistant.Agent.Sweep.{
  Outcome, Process, Phase, taken, allowed, worked, DrainEvent, started, advanced, collected,
  DrainState, guarded, advance_from, advance, drain_step, drain_events,
}
use paperless_assistant.Base.Dict.{lookup}
use paperless_assistant.Agent.Sweep.Drain.{collect-world}
use paperless_assistant.Agent.Sweep.Run.{
  Stage, is_billable, SweepSettings, is_enabled, Engine, SweepState, StageReport, not_stopped,
  run_stage, run_stages,
}

module _ {W : Type 0} (workers : ℕ) (process : Process W) (P : W → Type 0)
    (keeps : (doc_id : ℕ) (w : W) → P w → P (process.work doc_id w).1)
    (books : (doc_id : ℕ) (outcome : Outcome) (w : W)
      → P w
      → P (process.book doc_id outcome w)) where
  guarded-world :
      (doc_id : ℕ) (s : DrainState W) → (guarded workers process doc_id s).world ≡ s.world
  unfolding guarded
  guarded-world doc_id s = ground arith

  advance_from_keeps :
      (doc_id : ℕ) (phase : Phase) (s : DrainState W)
      → P s.world
      → P (advance_from workers process doc_id phase s).world
  unfolding advance_from
  advance_from_keeps doc_id taken s h = elim (Option-cases (process.capped doc_id s.world)) [
    | inl free ↦ rw (free, advance_from) h
    | inr (outcome, ends) ↦ rw (ends, advance_from) h
  ]
  advance_from_keeps doc_id allowed s h = keeps doc_id s.world h
  advance_from_keeps doc_id (worked outcome) s h = books doc_id outcome s.world h

  advance_keeps :
      (doc_id : ℕ) (s : DrainState W) → P s.world → P (advance workers process doc_id s).world
  unfolding advance
  advance_keeps doc_id s h = elim (Option-cases (lookup doc_id s.running)) [
    | inl idle ↦ simp (idle, advance) h
    | inr (phase, here) ↦ simp (here, advance) (advance_from_keeps doc_id phase s h)
  ]

  pub drain_events_keeps :
      (events : List DrainEvent) (s : DrainState W)
      → P s.world
      → P (drain_events workers process events s).world
  unfolding drain_events drain_step
  drain_events_keeps [] s h = h
  drain_events_keeps (started doc_id ∷ events) s h =
      drain_events_keeps events (guarded workers process doc_id s) (rw (guarded-world doc_id s) h)
  drain_events_keeps (advanced doc_id ∷ events) s h =
      drain_events_keeps events (advance workers process doc_id s) (advance_keeps doc_id s h)
  drain_events_keeps (collected doc_id ∷ events) s h =
      drain_events_keeps events (drain_step workers process (collected doc_id) s)
        (rw (collect-world workers process doc_id s) h)

module _ {W : Type 0} (settings : SweepSettings) (engine : Engine W) (period : String) where
  -- The three ways in which the loop goes on from a stage.
  pub run_stages_cases :
      (stage : Stage) (stages : List Stage) (dry : Bool) (reports : List StageReport)
      (s : SweepState W)
      → let (report, s') = run_stage settings engine period stage dry none s in
        let result = run_stages settings engine period (stage ∷ stages) dry reports s in
        (((is_enabled stage settings && (not (is_billable stage) || not_stopped s.fatal)) ≡ false)
          × (result ≡ run_stages settings engine period stages dry reports s))
        ⊎ ((result ≡ (none, s'))
            ⊎ ((r : StageReport) × (result
                  ≡ run_stages settings engine period stages dry (reports ++ r ∷ []) s')))
  unfolding run_stages
  run_stages_cases stage stages dry reports s =
      elim (Bool-cases
        (is_enabled stage settings && (not (is_billable stage) || not_stopped s.fatal))) [
          | inr off ↦ inl (off, rw off refl)
          | inl on ↦ elim (Option-cases (run_stage settings engine period stage dry none s).0) [
            | inl failed ↦ inr (inl (rw on (rw failed refl)))
            | inr (r, done) ↦ inr (inr (r, rw on (rw done refl)))
          ]
        ]

  pub run_stages_keeps :
      (P : SweepState W → Type 0) (dry : Bool)
      → ((stage : Stage) (s : SweepState W)
          → P s
          → P (run_stage settings engine period stage dry none s).1)
      → (stages : List Stage) (reports : List StageReport) (s : SweepState W) → P s
      → P (run_stages settings engine period stages dry reports s).1
  unfolding run_stages
  run_stages_keeps P dry keeps [] reports s h = h
  run_stages_keeps P dry keeps (stage ∷ stages) reports s h =
      elim (run_stages_cases stage stages dry reports s) [
        | inl (_, skipped) ↦ rw skipped (run_stages_keeps P dry keeps stages reports s h)
        | inr (inl failed) ↦ rw failed (keeps stage s h)
        | inr (inr (r, went_on)) ↦ rw went_on (
            run_stages_keeps P dry keeps stages (reports ++ r ∷ [])
              (run_stage settings engine period stage dry none s).1 (keeps stage s h))
      ]
