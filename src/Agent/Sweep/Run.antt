-- ===== src/Agent/Sweep/Run.antt =====
-- src/paperless_assistant/sweep.py: `run_once` with its stages, and `process_nudge`. What the stages
-- do to Paperless is an engine: the pipelines of Agent.Ocr and Agent.Metadata and the queues of
-- Agent.Stages stand behind it, with the order in which the workers take the documents. Retention,
-- the files of the reports, the activity log and the live progress are not modelled.
use paperless_assistant.Base.{
  ℕ, Bool, true, false, not, ◌||◌, ◌&&◌, String, Option, none, some, List, [], ◌∷◌, ◌++◌, ◌==◌,
  nat_eq, string_eq, pair_eq, if◌then◌else◌,
}
use Prim.Native.Nat.{max}
use paperless_assistant.Base.Money.{Usd}
use paperless_assistant.Base.Text.{strip}
use paperless_assistant.Agent.Spend.{
  SpendGovernor, should_abort, SpendLedger, current, ledger_add, would_exceed,
}
use paperless_assistant.Agent.Sweep.{
  FatalReason, Outcome, finished, raised, Row, Process, DrainEvent, DrainState, drain_events,
}

pub data Stage : Type 0 where
  triage reocr metadata : Stage

-- Triage is local and free; the other stages are billable.
abbrev pub is_billable : Stage → Bool
is_billable triage = false
is_billable reocr = true
is_billable metadata = true

pub record SweepSettings : Type 0 where
  pub dry_run : Option Bool
  pub triage_enabled : Bool
  pub reocr_enabled : Bool
  pub metadata_enabled : Bool
  pub per_run : Usd
  pub per_period : Usd
  pub workers : ℕ

-- `max(1, self.settings.workers)`
abbrev pub workers_of : SweepSettings → ℕ
workers_of settings = max 1 settings.workers

abbrev pub is_enabled : Stage → SweepSettings → Bool
is_enabled triage settings = settings.triage_enabled
is_enabled reocr settings = settings.reocr_enabled
is_enabled metadata settings = settings.metadata_enabled

-- `cursor.json` of obs.py; of what `record_run` writes, the run and its mode
pub record LastRun : Type 0 where
  pub run_id : String
  pub dry_run : Bool

pub record Cursor : Type 0 where
  pub first_run_done : Bool
  pub last_run : Option LastRun

-- What the stages do: the documents of a stage, all or the nudged one if it is eligible, `none` for an
-- exception; the pipeline for one document; the order in which the workers and the main thread of a
-- drain step; and the text of a document that is pulled, `some none` where there is no document.
pub record Engine (W : Type 0) : Type 0 where
  pub prepare : Stage → Option ℕ → W → Option (List ℕ) × W
  pub process_one : Stage → Bool → ℕ → SpendGovernor → W → Outcome × SpendGovernor × W
  pub schedule : Stage → List ℕ → List DrainEvent
  pub pull : ℕ → W → Option (Option String)

-- what the documents of a stage act on: its own governor, the ledger, and Paperless
pub record StageWorld (W : Type 0) : Type 0 where
  pub spend : SpendGovernor
  pub ledger : SpendLedger
  pub inner : W

pub record SweepState (W : Type 0) : Type 0 where
  pub world : W
  pub ledger : SpendLedger
  pub fatal : Option FatalReason
  pub cursor : Cursor
  pub paused : Bool

pub record StageReport : Type 0 where
  pub stage : Stage
  pub rows : List Row

pub record SweepReport : Type 0 where
  pub dry_run : Bool
  pub stages : List StageReport
  pub period_spend : Option Usd

-- the report of a nudge that is not processed
abbrev pub no_stages : Bool → SweepReport
no_stages dry = record { dry_run = dry; stages = []; period_spend = none }

-- Explicit configuration wins; else the first run is dry.
unfoldable pub resolve_dry_run : SweepSettings → Cursor → Bool
resolve_dry_run settings cursor = elim settings.dry_run [
  | some given ↦ given
  | none ↦ not cursor.first_run_done
]

-- the mode of a nudge, which the caller may give
abbrev pub nudge_mode : SweepSettings → Option Bool → Cursor → Bool
nudge_mode settings none cursor = resolve_dry_run settings cursor
nudge_mode settings (some given) cursor = given

-- `ledger.add(cost)` behind a document; an exception has no cost
unfoldable pub ledger_after : String → Outcome → SpendLedger → SpendLedger
unfolding ledger_add
ledger_after period (finished status cost) l = (ledger_add period cost l).1
ledger_after period (raised reason) l = l

abbrev pub not_stopped : Option FatalReason → Bool
not_stopped none = true
not_stopped (some reason) = false

-- `(doc.get("content") or "").strip()`
abbrev pub has_text : Option String → Bool
has_text none = false
has_text (some content) = not (strip content == "")

abbrev pub all_stages : List Stage
all_stages = triage ∷ reocr ∷ metadata ∷ []

module _ {W : Type 0} (settings : SweepSettings) (engine : Engine W) (period : String) where
  -- `_period_cap_hit`: the cap of the run, then that of the period
  unfoldable pub period_cap_hit : StageWorld W → Bool
  unfolding should_abort would_exceed
  period_cap_hit s = should_abort s.spend || would_exceed period settings.per_period s.ledger

  -- the `process` of a stage: only what writes in a billable stage is capped and counted
  unfoldable pub process_document : Stage → Bool → Process (StageWorld W)
  process_document stage dry =
      let counted = is_billable stage && not dry in
      record {
        capped =
            λ doc_id s. if counted && period_cap_hit s then some (finished "spend_cap" 0) else none;
        work = λ doc_id s.
            let (outcome, spend, w) = engine.process_one stage dry doc_id s.spend s.inner in
            (outcome, record s { spend = spend; inner = w });
        book = λ doc_id outcome s.
            if counted then record s { ledger = ledger_after period outcome s.ledger } else s;
      }

  -- what a stage begins its drain with: a governor of its own, and no abort
  abbrev pub stage_begin : W → SweepState W → DrainState (StageWorld W)
  stage_begin w s = record {
    abort = false;
    fatal = s.fatal;
    running = [];
    futures = [];
    rows = [];
    world = record {
      spend = record { max_spend = settings.per_run; total = 0 };
      ledger = s.ledger;
      inner = w;
    };
  }

  -- `_drain`, which returns at once on an empty queue
  unfoldable pub drain_stage :
      Stage → Bool → List ℕ → DrainState (StageWorld W) → DrainState (StageWorld W)
  drain_stage stage dry [] d = d
  drain_stage stage dry (doc_id ∷ queue) d =
      drain_events (workers_of settings) (process_document stage dry)
        (engine.schedule stage (doc_id ∷ queue)) d

  -- `_run_triage`, `_run_reocr`, `_run_metadata`; `none` for an exception
  unfoldable pub run_stage :
      Stage → Bool → Option ℕ → SweepState W → Option StageReport × SweepState W
  unfolding drain_stage
  run_stage stage dry nudged s =
      let (queue, w) = engine.prepare stage nudged s.world in
      elim queue [
        | none ↦ (none, record s { world = w })
        | some docs ↦
            let d = drain_stage stage dry docs (stage_begin w s) in
            (
              some (record { stage = stage; rows = d.rows }),
              record s { world = d.world.inner; ledger = d.world.ledger; fatal = d.fatal },
            )
      ]

  -- The enabled stages in order; a billable one is skipped once a fatal error has stopped the run.
  unfoldable pub run_stages :
      List Stage → Bool → List StageReport → SweepState W → Option (List StageReport) × SweepState W
  run_stages [] dry reports s = (some reports, s)
  run_stages (stage ∷ stages) dry reports s =
      let (report, s') = run_stage stage dry none s in
      let skipped = run_stages stages dry reports s in
      let more = λ (r : StageReport). run_stages stages dry (reports ++ r ∷ []) s' in
      if is_enabled stage settings && (not (is_billable stage) || not_stopped s.fatal)
      then elim report [ none ↦ (none, s') | some r ↦ more r ]
      else skipped

  -- `run_once`; the cursor moves only behind a tick that completes
  unfoldable pub run_once : String → SweepState W → Option SweepReport × SweepState W
  unfolding resolve_dry_run
  run_once run_id s =
      let dry = resolve_dry_run settings s.cursor in
      let (reports, s') = run_stages all_stages dry [] (record s { fatal = none }) in
      elim reports [
        | none ↦ (none, s')
        | some stages ↦ (
          some (record {
            dry_run = dry;
            stages = stages;
            period_spend = some (current period s'.ledger);
          }),
          record s' {
            cursor = record {
              first_run_done = true;
              last_run = some (record { run_id = run_id; dry_run = dry });
            };
          },
        )
      ]

  -- the enabled stages for one document, which is pulled again between them; the latch is not read
  unfoldable pub nudge_stages :
      List Stage
      → Bool
      → ℕ
      → List StageReport
      → SweepState W
      → Option (List StageReport) × SweepState W
  nudge_stages [] dry doc_id reports s = (some reports, s)
  nudge_stages (stage ∷ stages) dry doc_id reports s =
      let (report, s') = run_stage stage dry (some doc_id) s in
      let skipped = nudge_stages stages dry doc_id reports s in
      let more = λ (r : StageReport). nudge_stages stages dry doc_id (reports ++ r ∷ []) s' in
      if is_enabled stage settings
      then elim report [ none ↦ (none, s') | some r ↦ more r ]
      else skipped

  -- `process_nudge`
  unfoldable pub process_nudge : Option Bool → ℕ → SweepState W → Option SweepReport × SweepState W
  process_nudge given doc_id s =
      let dry = nudge_mode settings given s.cursor in
      let nothing : Option SweepReport × SweepState W = (some (no_stages dry), s) in
      let (reports, s') = nudge_stages all_stages dry doc_id [] s in
      if s.paused then nothing else elim (engine.pull doc_id s.world) [
        | none ↦ (none, s)
        | some content ↦ if not (has_text content) then nothing else elim reports [
          | none ↦ (none, s')
          | some stages ↦ (
            some (record {
              dry_run = dry;
              stages = stages;
              period_spend = some (current period s'.ledger);
            }),
            s',
          )
        ]
      ]
