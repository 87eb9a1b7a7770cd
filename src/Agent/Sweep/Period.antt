-- ===== src/Agent/Sweep/Period.antt =====
-- The cap of a period over the ticks and the nudges of sweep.py.
use paperless_assistant.Base.{
  ℕ, ◌+◌, ◌*◌, ◌≤◌, ◌<◌, inl, inr, Bool, String, Option, none, some, List, [], ◌∷◌, Option-cases,
  All, nat_eq, string_eq, pair_eq,
}
use paperless_assistant.Base.Money.{Usd}
use paperless_assistant.Agent.Spend.{SpendLedger, current}
use paperless_assistant.Agent.Sweep.Run.{
  triage, reocr, metadata, SweepSettings, workers_of, Engine, SweepState, SweepReport, run_stages,
  run_once, resolve_dry_run, process_nudge, nudge_mode,
}
use paperless_assistant.Agent.Sweep.Nudges.{
  NudgeSpec, ignored, not_pulled, processed, process_nudge-NudgeSpec, Through-keeps,
}
use paperless_assistant.Agent.Sweep.Rules.{run_stages_keeps}
use paperless_assistant.Agent.Sweep.Caps.{Bounded, Within}
use paperless_assistant.Agent.Sweep.StageCap.{run_stage-Within}

module _ {W : Type 0} (settings : SweepSettings) (engine : Engine W) (period : String) (limit : Usd)
    (bounded : Bounded engine limit) (capped : 0 < settings.per_period) where
  abbrev In : SpendLedger → Type 0
  In l = Within settings engine period limit bounded capped l

  run_once-Within :
      (run_id : String) (s : SweepState W)
      → In s.ledger
      → In (run_once settings engine period run_id s).1.ledger
  unfolding run_once
  run_once-Within run_id s within =
      let dry = resolve_dry_run settings s.cursor in
      let fresh = record s { fatal = none } in
      let stages = triage ∷ reocr ∷ metadata ∷ [] in
      let kept =
        run_stages_keeps settings engine period (λ (s : SweepState W). In s.ledger) dry
          (λ stage s' h.
            run_stage-Within settings engine period limit bounded capped stage dry none s' h)
          stages [] fresh within in
      elim (Option-cases (run_stages settings engine period stages dry [] fresh).0) [
        | inl failed ↦ rw (failed, run_once) kept
        | inr (reports, done) ↦ rw (done, run_once) kept
      ]

  process_nudge-Within :
      (given : Option Bool) (doc_id : ℕ) (s : SweepState W)
      → In s.ledger
      → In (process_nudge settings engine period given doc_id s).1.ledger
  process_nudge-Within given doc_id s within =
      by_spec (process_nudge settings engine period given doc_id s)
        (process_nudge-NudgeSpec settings engine period given doc_id s)
    where
      by_spec :
          (x : Option SweepReport × SweepState W)
          → NudgeSpec settings engine period (nudge_mode settings given s.cursor) doc_id s x
          → In x.1.ledger
      by_spec x (ignored why same) = rw same within
      by_spec x (not_pulled running down same) = rw same within
      by_spec x (processed content running pulled text y through same) = rw same (
          Through-keeps settings engine period (λ (s : SweepState W). In s.ledger)
            (nudge_mode settings given s.cursor) doc_id
            (λ stage s' h.
              run_stage-Within settings engine period limit bounded capped stage
                (nudge_mode settings given s.cursor) (some doc_id) s' h)
            through within)

-- what `serve` and the webhook hand to the sweep
pub data Job (W : Type 0) : Type 0 where
  tick : Engine W → String → Job W
  nudge : Engine W → Option Bool → ℕ → Job W

abbrev pub JobBounded : {W : Type 0} → Usd → Job W → Type 0
JobBounded limit (tick engine run_id) = Bounded engine limit
JobBounded limit (nudge engine given doc_id) = Bounded engine limit

module _ {W : Type 0} (settings : SweepSettings) (period : String) where
  abbrev pub run_jobs : List (Job W) → SweepState W → SweepState W
  run_jobs [] s = s
  run_jobs (tick engine run_id ∷ jobs) s =
      run_jobs jobs (run_once settings engine period run_id s).1
  run_jobs (nudge engine given doc_id ∷ jobs) s =
      run_jobs jobs (process_nudge settings engine period given doc_id s).1

  -- Within a period with a cap, where no document that is written costs more than `limit` less the
  -- rounding of the sixth decimal place: if the ledger of the period is not further past the cap than
  -- `limit` for each worker, it stays so, whatever ticks and nudges follow each other, and however
  -- their workers test the caps, work and enter the costs in between each other.
  pub run_jobs-period_cap :
      (limit : Usd) (jobs : List (Job W)) (s : SweepState W)
      → All (JobBounded limit) jobs
      → 0 < settings.per_period
      → current period s.ledger ≤ settings.per_period + workers_of settings * limit
      → current period (run_jobs jobs s).ledger ≤ settings.per_period + workers_of settings * limit
  run_jobs-period_cap limit [] s bounded capped within = within
  run_jobs-period_cap limit (tick engine run_id ∷ jobs) s (bounded, rest) capped within =
      run_jobs-period_cap limit jobs (run_once settings engine period run_id s).1 rest capped
        (run_once-Within settings engine period limit bounded capped run_id s within)
  run_jobs-period_cap limit (nudge engine given doc_id ∷ jobs) s (bounded, rest) capped within =
      run_jobs-period_cap limit jobs (process_nudge settings engine period given doc_id s).1 rest
        capped
        (process_nudge-Within settings engine period limit bounded capped given doc_id s within)
