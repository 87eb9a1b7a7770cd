-- ===== src/Agent/Sweep/Recorded.antt =====
-- A recorder around an engine of Agent.Sweep.Run, for statements on the mode, dry or not, in which
-- `run_once` of sweep.py calls the pipelines.
use paperless_assistant.Base.{
  ℕ, ◌≡◌, refl, inl, inr, Bool, not, ◌&&◌, String, none, List, [], ◌∷◌, ◌++◌, Bool-cases,
  Option-cases, All, All-append, nat_eq, string_eq, pair_eq,
}
use paperless_assistant.Agent.Sweep.{Outcome, DrainState, Process}
use paperless_assistant.Agent.Sweep.Run.{
  Stage, is_billable, SweepSettings, Engine, StageWorld, SweepState, StageReport, workers_of,
  process_document, stage_begin, drain_stage, run_stage, run_stages,
}
use paperless_assistant.Agent.Sweep.Rules.{drain_events_keeps, run_stages_keeps}

-- Paperless and the modes of the calls of the pipelines
pub record Recorded (W : Type 0) : Type 0 where
  pub inner : W
  pub calls : List Bool

-- the same engine, which notes the mode of every document that a pipeline is called for
abbrev pub recorded : {W : Type 0} → Engine W → Engine (Recorded W)
recorded engine = record {
  prepare = λ stage nudged w.
      let (queue, inner) = engine.prepare stage nudged w.inner in
      (queue, record w { inner = inner });
  process_one = λ stage dry doc_id spend w.
      let (outcome, spend', inner) = engine.process_one stage dry doc_id spend w.inner in
      (outcome, spend', record { inner = inner; calls = w.calls ++ dry ∷ [] });
  schedule = engine.schedule;
  pull = λ doc_id w. engine.pull doc_id w.inner;
}

-- all calls are in the given mode
abbrev pub AllIn : {W : Type 0} → Bool → Recorded W → Type 0
AllIn dry w = All (λ called. called ≡ dry) w.calls

module _ {W : Type 0} (settings : SweepSettings) (engine : Engine W) (period : String)
    (dry : Bool) where
  abbrev StageIn : StageWorld (Recorded W) → Type 0
  StageIn w = AllIn dry w.inner

  abbrev process_of : Stage → Process (StageWorld (Recorded W))
  process_of stage = process_document settings (recorded engine) period stage dry

  work-StageIn :
      (stage : Stage) (doc_id : ℕ) (w : StageWorld (Recorded W))
      → StageIn w
      → StageIn ((process_of stage).work doc_id w).1
  unfolding process_document
  work-StageIn stage doc_id w h =
      All-append (λ (called : Bool). called ≡ dry) w.inner.calls (dry ∷ []) h (refl, tt)

  book-StageIn :
      (stage : Stage) (doc_id : ℕ) (outcome : Outcome) (w : StageWorld (Recorded W))
      → StageIn w
      → StageIn ((process_of stage).book doc_id outcome w)
  unfolding process_document
  book-StageIn stage doc_id outcome w h = elim (Bool-cases (is_billable stage && not dry)) [
    | inl counted ↦ rw counted h
    | inr free ↦ rw free h
  ]

  drain_stage-StageIn :
      (stage : Stage) (docs : List ℕ) (d : DrainState (StageWorld (Recorded W)))
      → StageIn d.world
      → StageIn (drain_stage settings (recorded engine) period stage dry docs d).world
  unfolding drain_stage
  drain_stage-StageIn stage [] d h = h
  drain_stage-StageIn stage (doc_id ∷ docs) d h =
      drain_events_keeps (workers_of settings) (process_of stage) StageIn (work-StageIn stage)
        (book-StageIn stage) (engine.schedule stage (doc_id ∷ docs)) d h

  run_stage-AllIn :
      (stage : Stage) (s : SweepState (Recorded W))
      → AllIn dry s.world
      → AllIn dry (run_stage settings (recorded engine) period stage dry none s).1.world
  unfolding run_stage
  run_stage-AllIn stage s h = elim (Option-cases (engine.prepare stage none s.world.inner).0) [
    | inl failed ↦ rw (failed, run_stage) h
    | inr (docs, queued) ↦
        rw (queued, run_stage)
          (drain_stage-StageIn stage docs
            (stage_begin settings (recorded engine) period
              (record s.world { inner = (engine.prepare stage none s.world.inner).1 }) s)
            h)
  ]

  pub run_stages-AllIn :
      (stages : List Stage) (reports : List StageReport) (s : SweepState (Recorded W))
      → AllIn dry s.world
      → AllIn dry (run_stages settings (recorded engine) period stages dry reports s).1.world
  run_stages-AllIn =
      run_stages_keeps settings (recorded engine) period
        (λ (s : SweepState (Recorded W)). AllIn dry s.world) dry run_stage-AllIn
