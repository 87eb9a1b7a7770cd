-- ===== src/Agent/Sweep/First.antt =====
-- The first-run safety of sweep.py: which ticks are dry, and what a fatal error of the provider stops.
use paperless_assistant.Base.{
  ℕ, ◌≡◌, refl, ap, ◌∙◌, inl, inr, Bool, true, false, not, ◌||◌, ◌&&◌, is_some, String, Option,
  none, some, List, [], ◌∷◌, ◌++◌, arith, Option-cases, All, nat_eq, string_eq, pair_eq,
}
use mathlib.Core.Path.{subst}
use paperless_assistant.Agent.Sweep.{FatalReason}
use paperless_assistant.Agent.Sweep.Run.{
  Stage, triage, reocr, metadata, is_billable, SweepSettings, is_enabled, Cursor, Engine,
  SweepState, StageReport, SweepReport, resolve_dry_run, not_stopped, run_stage, run_stages,
  run_once,
}
use paperless_assistant.Agent.Sweep.Recorded.{Recorded, recorded, run_stages-AllIn}
use paperless_assistant.Agent.Sweep.Rules.{run_stages_cases, run_stages_keeps}

-- What one sees of a tick: its report, if it completes, and the modes of the calls of the pipelines.
pub record Tick : Type 0 where
  pub report : Option SweepReport
  pub calls : List Bool

abbrev ReportIn : Bool → Option SweepReport → Type 0
ReportIn dry none = Unit
ReportIn dry (some r) = r.dry_run ≡ dry

-- a tick in the given mode
abbrev TickIn : Bool → Tick → Type 0
TickIn dry tick = All (λ called. called ≡ dry) tick.calls × ReportIn dry tick.report

-- Ticks are dry up to the first that completes, that one included, and then write; `done` tells
-- whether one has completed before.
abbrev pub FirstDry : (done : Bool) → List Tick → Type 0
FirstDry done [] = Unit
FirstDry done (tick ∷ ticks) = TickIn (not done) tick × FirstDry (done || is_some tick.report) ticks

resolve-unset :
    (settings : SweepSettings) (cursor : Cursor)
    → settings.dry_run ≡ none
    → resolve_dry_run settings cursor ≡ not cursor.first_run_done
unfolding resolve_dry_run
resolve-unset settings cursor unset = rw (unset, resolve_dry_run) refl

module _ {W : Type 0} (settings : SweepSettings) (period : String) where
  run_stage-cursor :
      (engine : Engine W) (stage : Stage) (dry : Bool) (nudged : Option ℕ) (s : SweepState W)
      → (run_stage settings engine period stage dry nudged s).1.cursor ≡ s.cursor
  unfolding run_stage
  run_stage-cursor engine stage dry nudged s = ground arith

  run_stages-cursor :
      (engine : Engine W) (stages : List Stage) (dry : Bool) (reports : List StageReport)
      (s : SweepState W)
      → (run_stages settings engine period stages dry reports s).1.cursor ≡ s.cursor
  run_stages-cursor engine stages dry reports s =
      run_stages_keeps settings engine period (λ s'. s'.cursor ≡ s.cursor) dry
        (λ stage' s' h. run_stage-cursor engine stage' dry none s' ∙ h) stages reports s refl

module _ {W : Type 0} (settings : SweepSettings) (period : String) where
  -- a tick that is recorded from its start
  abbrev tick_of :
      Engine W → String → SweepState (Recorded W) → Option SweepReport × SweepState (Recorded W)
  tick_of engine run_id s =
      run_once settings (recorded engine) period run_id
        (record s { world = record s.world { calls = [] } })

  -- ticks one behind the other, each with Paperless and the workers as they are then
  abbrev pub run_ticks : List (Engine W × String) → SweepState (Recorded W) → List Tick
  run_ticks [] s = []
  run_ticks ((engine, run_id) ∷ ticks) s =
      let (report, s') = tick_of engine run_id s in
      record { report = report; calls = s'.world.calls } ∷ run_ticks ticks s'

  -- A tick fails and leaves the cursor, or it completes and marks the first run; either way it is in
  -- the mode that was resolved before.
  tick_of-cases :
      (engine : Engine W) (run_id : String) (s : SweepState (Recorded W))
      → let (report, s') = tick_of engine run_id s in
        TickIn
          (resolve_dry_run settings s.cursor)
          (record { report = report; calls = s'.world.calls })
        × (s'.cursor.first_run_done ≡ (s.cursor.first_run_done || is_some report))
  unfolding run_once
  tick_of-cases engine run_id s =
      let dry = resolve_dry_run settings s.cursor in
      let fresh = record s { fatal = none; world = record s.world { calls = [] } } in
      let stages = triage ∷ reocr ∷ metadata ∷ [] in
      let modes = run_stages-AllIn settings engine period dry stages [] fresh tt in
      let same = run_stages-cursor settings period (recorded engine) stages dry [] fresh in
      elim (Option-cases (run_stages settings (recorded engine) period stages dry [] fresh).0) [
        | inl failed ↦
            rw (failed, run_once)
              (
                (modes, tt),
                ap (λ (c : Cursor). c.first_run_done) same ∙ or_false s.cursor.first_run_done,
              )
        | inr (reports, done) ↦ rw (done, run_once) ((modes, refl), or_true s.cursor.first_run_done)
      ]
    where
      or_false : (b : Bool) → b ≡ (b || false)
      or_false true = refl
      or_false false = refl

      or_true : (b : Bool) → true ≡ (b || true)
      or_true true = refl
      or_true false = refl

  -- Where neither the configuration nor a flag says otherwise, in any series of ticks, until one has
  -- completed, before the series or in it, each tick, that one included, calls the pipelines of its
  -- documents for a dry run only and reports one, and all later ones call them to write, however many
  -- fail in between.
  pub run_ticks-FirstDry :
      (ticks : List (Engine W × String)) (s : SweepState (Recorded W))
      → settings.dry_run ≡ none
      → FirstDry s.cursor.first_run_done (run_ticks ticks s)
  run_ticks-FirstDry [] s unset = tt
  run_ticks-FirstDry ((engine, run_id) ∷ ticks) s unset =
      let (report, s') = tick_of engine run_id s in
      let (mode, marked) = tick_of-cases engine run_id s in
      (
        subst (λ dry. TickIn dry (record { report = report; calls = s'.world.calls }))
            (resolve-unset settings s.cursor unset) mode,
        subst (λ done. FirstDry done (run_ticks ticks s')) marked
            (run_ticks-FirstDry ticks s' unset),
      )

-- stages that are all billable
abbrev pub AllBillable : List Stage → Type 0
AllBillable stages = All (λ stage. is_billable stage ≡ true) stages

module _ {W : Type 0} (settings : SweepSettings) (engine : Engine W) (period : String) where
  run_stages-stopped :
      (stages : List Stage) (dry : Bool) (reports : List StageReport) (reason : FatalReason)
      (s : SweepState W)
      → AllBillable stages
      → s.fatal ≡ some reason
      → run_stages settings engine period stages dry reports s ≡ (some reports, s)
  unfolding run_stages
  run_stages-stopped [] dry reports reason s billable latched = refl
  run_stages-stopped (stage ∷ stages) dry reports reason s (this, rest) latched =
      let skip : (is_enabled stage settings && (not (is_billable stage) || not_stopped s.fatal))
          ≡ false =
        rw (this, latched) (and_false (is_enabled stage settings)) in
      rw skip (run_stages-stopped stages dry reports reason s rest latched)
    where
      and_false : (b : Bool) → (b && false) ≡ false
      and_false true = refl
      and_false false = refl

  -- Once a stage has latched an account-level error of the provider, the run stops: the billable
  -- stages behind it do nothing, neither to Paperless nor to the ledger.
  pub run_stages-stops :
      (stage : Stage) (stages : List Stage) (dry : Bool) (reports : List StageReport)
      (reason : FatalReason) (s : SweepState W)
      → AllBillable stages
      → is_enabled stage settings ≡ true
      → s.fatal ≡ none
      → (run_stage settings engine period stage dry none s).1.fatal ≡ some reason
      → (run_stages settings engine period (stage ∷ stages) dry reports s).1
        ≡ (run_stage settings engine period stage dry none s).1
  run_stages-stops stage stages dry reports reason s billable enabled clean latched =
      elim (run_stages_cases settings engine period stage stages dry reports s) [
        | inl (skipped, _) ↦ absurd (ground (arith, skipped, enabled, clean))
        | inr (inl failed) ↦ ap (λ (x : Option (List StageReport) × SweepState W). x.1) failed
        | inr (inr (r, went_on)) ↦
            ap (λ (x : Option (List StageReport) × SweepState W). x.1)
              (went_on
                ∙ run_stages-stopped stages dry (reports ++ r ∷ []) reason
                    (run_stage settings engine period stage dry none s).1 billable latched)
      ]
