-- ===== src/Agent/Sweep/Nudges.antt =====
-- What `process_nudge` of sweep.py does with a nudged document.
use paperless_assistant.Base.{
  ℕ, ◌≡◌, refl, ap, ◌++◌, ◌∷◌, List, ◌⊎◌, inl, inr, Bool, true, false, String, Option, none, some,
  [], Bool-cases, Option-cases, nat_eq, string_eq, pair_eq,
}
use mathlib.Core.Path.{subst}
use paperless_assistant.Agent.Spend.{SpendLedger, current}
use paperless_assistant.Agent.Sweep.Run.{
  Stage, StageReport, is_enabled, run_stage, SweepSettings, Engine, SweepState, SweepReport,
  no_stages, nudge_mode, has_text, all_stages, nudge_stages, process_nudge,
}

module _ {W : Type 0} (settings : SweepSettings) (engine : Engine W) (period : String) where
  -- A document goes through a list of stages: each enabled one runs for it, in the given mode and in
  -- order, the others are passed by, and an exception of a stage ends it.
  pub data Through (dry : Bool) (doc_id : ℕ)
      : List Stage
        → List StageReport
        → SweepState W
        → Option (List StageReport) × SweepState W
        → Type 0 where
    ended :
        {reports : List StageReport} {s : SweepState W}
        → Through dry doc_id [] reports s (some reports, s)
    passed_by :
        {stage : Stage} {stages : List Stage} {reports : List StageReport} {s : SweepState W}
        {y : Option (List StageReport) × SweepState W}
        → is_enabled stage settings ≡ false
        → Through dry doc_id stages reports s y
        → Through dry doc_id (stage ∷ stages) reports s y
    ran :
        {stage : Stage} {stages : List Stage} {reports : List StageReport} {s s' : SweepState W}
        {report : StageReport} {y : Option (List StageReport) × SweepState W}
        → is_enabled stage settings ≡ true
        → run_stage settings engine period stage dry (some doc_id) s ≡ (some report, s')
        → Through dry doc_id stages (reports ++ report ∷ []) s' y
        → Through dry doc_id (stage ∷ stages) reports s y
    failed :
        {stage : Stage} {stages : List Stage} {reports : List StageReport} {s s' : SweepState W}
        → is_enabled stage settings ≡ true
        → run_stage settings engine period stage dry (some doc_id) s ≡ (none, s')
        → Through dry doc_id (stage ∷ stages) reports s (none, s')

  nudge_stages-Through :
      (dry : Bool) (doc_id : ℕ) (stages : List Stage) (reports : List StageReport)
      (s : SweepState W)
      → Through dry doc_id stages reports s
          (nudge_stages settings engine period stages dry doc_id reports s)
  unfolding nudge_stages
  nudge_stages-Through dry doc_id [] reports s = ended
  nudge_stages-Through dry doc_id (stage ∷ stages) reports s =
      elim (Bool-cases (is_enabled stage settings)) [
        | inr off ↦
            rw (off, nudge_stages)
              (passed_by off (nudge_stages-Through dry doc_id stages reports s))
        | inl on ↦
            let s' = (run_stage settings engine period stage dry (some doc_id) s).1 in
            elim (Option-cases (run_stage settings engine period stage dry (some doc_id) s).0) [
              | inl none_there ↦
                  rw (on, none_there, nudge_stages) (failed on (with_state none_there))
              | inr (report, done) ↦
                  rw (on, done, nudge_stages)
                    (ran on (with_state done)
                      (nudge_stages-Through dry doc_id stages (reports ++ report ∷ []) s'))
            ]
      ]
    where
      with_state : {A B : Type 0} {x : A × B} {a : A} → x.0 ≡ a → x ≡ (a, x.1)
      with_state {x} e = ap (λ a. (a, x.1)) e

  -- What every stage keeps, a document on its way through the stages keeps.
  pub Through-keeps :
      (P : SweepState W → Type 0) (dry : Bool) (doc_id : ℕ)
      → ((stage : Stage) (s : SweepState W)
          → P s
          → P (run_stage settings engine period stage dry (some doc_id) s).1)
      → {stages : List Stage} {reports : List StageReport} {s : SweepState W}
        {y : Option (List StageReport) × SweepState W}
      → Through dry doc_id stages reports s y
      → P s
      → P y.1
  Through-keeps P dry doc_id keeps ended h = h
  Through-keeps P dry doc_id keeps (passed_by off rest) h = Through-keeps P dry doc_id keeps rest h
  Through-keeps P dry doc_id keeps (ran {stage} {s} on done rest) h =
      Through-keeps P dry doc_id keeps rest
        (subst (λ (x : Option StageReport × SweepState W). P x.1) done (keeps stage s h))
  Through-keeps P dry doc_id keeps (failed {stage} {s} on done) h =
      subst (λ (x : Option StageReport × SweepState W). P x.1) done (keeps stage s h)

  -- the report of a nudge behind its stages, `none` for an exception
  abbrev reported : Bool → Option (List StageReport) → SpendLedger → Option SweepReport
  reported dry none ledger = none
  reported dry (some stages) ledger =
      some (record { dry_run = dry; stages = stages; period_spend = some (current period ledger) })

  -- The three ways in which a nudge ends: it is ignored, since automatic processing is paused or the
  -- document is gone or has no text yet; the document cannot be pulled; or it goes through the stages.
  pub data NudgeSpec (dry : Bool) (doc_id : ℕ) (s : SweepState W)
      (x : Option SweepReport × SweepState W) : Type 0 where
    ignored :
        ((s.paused ≡ true)
          ⊎ ((content : Option String) × (engine.pull doc_id s.world ≡ some content)
              × (has_text content ≡ false)))
        → x ≡ (some (no_stages dry), s)
        → NudgeSpec dry doc_id s x
    not_pulled :
        s.paused ≡ false
        → engine.pull doc_id s.world ≡ none
        → x ≡ (none, s)
        → NudgeSpec dry doc_id s x
    processed :
        (content : Option String)
        → s.paused ≡ false
        → engine.pull doc_id s.world ≡ some content
        → has_text content ≡ true
        → (y : Option (List StageReport) × SweepState W) → Through dry doc_id all_stages [] s y
        → x ≡ (reported dry y.0 y.1.ledger, y.1)
        → NudgeSpec dry doc_id s x

  -- A nudge changes nothing while automatic processing is paused, or where the document is gone, has
  -- no text yet or cannot be pulled; else the enabled stages run for the document, in the order triage,
  -- reocr, metadata and in the mode that the caller gives or that the configuration resolves, up to
  -- the first that fails, each with the state that the one before leaves, and the report is of the
  -- stages that ran.
  pub process_nudge-NudgeSpec :
      (given : Option Bool) (doc_id : ℕ) (s : SweepState W)
      → NudgeSpec
          (nudge_mode settings given s.cursor)
          doc_id
          s
          (process_nudge settings engine period given doc_id s)
  unfolding process_nudge
  process_nudge-NudgeSpec given doc_id s =
      let dry = nudge_mode settings given s.cursor in
      elim (Bool-cases s.paused) [
        | inl paused ↦ ignored (inl paused) (simp paused refl)
        | inr running ↦ elim (Option-cases (engine.pull doc_id s.world)) [
          | inl down ↦ not_pulled running down (simp (running, down) refl)
          | inr (content, pulled) ↦ elim (Bool-cases (has_text content)) [
            | inr empty ↦
                ignored (inr (content, pulled, empty)) (simp (running, pulled, empty) refl)
            | inl text ↦
                let y = nudge_stages settings engine period all_stages dry doc_id [] s in
                processed content running pulled text y
                  (nudge_stages-Through dry doc_id all_stages [] s)
                  (elim (Option-cases y.0) [
                    | inl failed_there ↦ simp (running, pulled, text, failed_there) refl
                    | inr (reports, done) ↦ simp (running, pulled, text, done) refl
                  ])
          ]
        ]
      ]
