-- ===== src/Agent/Sweep.antt =====
-- src/paperless_assistant/sweep.py: `_drain`, which hands the documents of a stage to worker threads,
-- and the loop of `serve`. The workers and the loop that collects their futures interleave as a list
-- of events: a worker tests the abort event, tests the caps, runs the pipeline and enters the cost in
-- the ledger, and others may act between these steps. The calls of one pipeline are one event. The
-- live progress, the activity log and the log are not modelled.
pub mod Drain
pub mod Ticks
pub mod Run
pub mod Rules
pub mod First
pub mod Recorded
pub mod Period
pub mod Booked
pub mod Caps
pub mod StageCap
pub mod Slots
pub mod Nudges
mod Examples
use paperless_assistant.Base.{
  ℕ, zero, suc, ◌+◌, refl, inl, inr, Bool, true, false, not, ltb, length, String, Option, none,
  some, List, [], ◌∷◌, ◌++◌, arith, nat_eq, string_eq, pair_eq, if◌then◌else◌,
}
use paperless_assistant.Base.Dict.{Dict, lookup, insert, erase}
use paperless_assistant.Base.Money.{Usd}
use Prim.Native.Nat.{min, max}

-- `_provider_fatal_reason`
pub data FatalReason : Type 0 where
  billing auth config : FatalReason

-- how the processing of a document ends: with a status and a cost, or by an exception that may be
-- fatal
pub data Outcome : Type 0 where
  finished : String → Usd → Outcome
  raised : Option FatalReason → Outcome

-- the row of `report.record`, with the cost that is added to `spend_total`
pub record Row : Type 0 where
  pub status : String
  pub doc_id : ℕ
  pub cost : Usd

-- The `process` of a stage, in the steps between which other workers may act: the test of the caps,
-- which may end the document; the pipeline; and the entry of the cost in the ledger.
pub record Process (W : Type 0) : Type 0 where
  pub capped : ℕ → W → Option Outcome
  pub work : ℕ → W → Outcome × W
  pub book : ℕ → Outcome → W → W

-- how far a worker is with its document: past the abort test, past the caps, or past the pipeline
pub data Phase : Type 0 where
  taken allowed : Phase
  worked : Outcome → Phase

-- A worker takes a document up, or takes the next step with it, or the main thread collects the
-- future of a document.
pub data DrainEvent : Type 0 where
  started advanced collected : ℕ → DrainEvent

-- the state of `_drain`: the abort event, the latch of the run, the documents that workers have in
-- hand, the futures that are done, the report and the state that `process` acts on
pub record DrainState (W : Type 0) : Type 0 where
  pub abort : Bool
  pub fatal : Option FatalReason
  pub running : Dict ℕ Phase
  pub futures : Dict ℕ Outcome
  pub rows : List Row
  pub world : W

-- `reason in _STOP_RUN_REASONS`
abbrev pub stops_run : FatalReason → Bool
stops_run billing = true
stops_run auth = true
stops_run config = false

-- `_note_fatal_provider_error`: the first account-level reason is latched
unfoldable pub note_fatal : FatalReason → Option FatalReason → Option FatalReason
note_fatal reason none = if stops_run reason then some reason else none
note_fatal reason (some latched) = some latched

abbrev pub row_of : ℕ → Outcome → Row
row_of doc_id (finished status cost) = record { status = status; doc_id = doc_id; cost = cost }
row_of doc_id (raised reason) = record { status = "ERROR"; doc_id = doc_id; cost = 0 }

-- the worker is done with its document
abbrev pub finish_future : {W : Type 0} → ℕ → Outcome → DrainState W → DrainState W
finish_future doc_id outcome s = record s {
  running = erase doc_id s.running;
  futures = insert doc_id outcome s.futures;
}

module _ {W : Type 0} (workers : ℕ) (process : Process W) where
  -- `guarded` up to its test of the abort event, in a free worker
  unfoldable pub guarded : ℕ → DrainState W → DrainState W
  guarded doc_id s =
      if not (ltb (length s.running) workers)
      then s
      else if s.abort
      then record s { futures = insert doc_id (finished "skip" 0) s.futures }
      else record s { running = insert doc_id taken s.running }

  -- the next step of `process`
  unfoldable pub advance_from : ℕ → Phase → DrainState W → DrainState W
  advance_from doc_id taken s = elim (process.capped doc_id s.world) [
    | some outcome ↦ finish_future doc_id outcome s
    | none ↦ record s { running = insert doc_id allowed s.running }
  ]
  advance_from doc_id allowed s =
      let (outcome, w) = process.work doc_id s.world in
      record s { running = insert doc_id (worked outcome) s.running; world = w }
  advance_from doc_id (worked outcome) s =
      finish_future doc_id outcome (record s { world = process.book doc_id outcome s.world })

  unfoldable pub advance : ℕ → DrainState W → DrainState W
  advance doc_id s = elim (lookup doc_id s.running) [
    | none ↦ s
    | some phase ↦ advance_from doc_id phase s
  ]

  -- a fatal exception of a future, the first of the stage
  unfoldable pub fail_fast : Outcome → DrainState W → DrainState W
  unfolding note_fatal
  fail_fast (raised (some reason)) s =
      if s.abort then s else record s { abort = true; fatal = note_fatal reason s.fatal }
  fail_fast _ s = s

  -- the body of the loop over the completed futures
  unfoldable pub collect : ℕ → DrainState W → DrainState W
  unfolding fail_fast
  collect doc_id s = elim (lookup doc_id s.futures) [
    | none ↦ s
    | some outcome ↦
        let s' = fail_fast outcome s in
        record s' {
          futures = erase doc_id s'.futures;
          rows = s'.rows ++ row_of doc_id outcome ∷ [];
        }
  ]

  unfoldable pub drain_step : DrainEvent → DrainState W → DrainState W
  drain_step (started doc_id) s = guarded doc_id s
  drain_step (advanced doc_id) s = advance doc_id s
  drain_step (collected doc_id) s = collect doc_id s

  unfoldable pub drain_events : List DrainEvent → DrainState W → DrainState W
  unfolding drain_step
  drain_events [] s = s
  drain_events (event ∷ events) s = drain_events events (drain_step event s)

-- a tick of `serve`: paused, or a sweep that returns or raises
pub data TickResult : Type 0 where
  paused swept failed : TickResult

-- `max(1, schedule_interval_seconds)`
abbrev pub interval_of : ℕ → ℕ
interval_of seconds = max 1 seconds

-- the delay behind a tick
unfoldable pub tick_delay : ℕ → TickResult → ℕ
tick_delay interval paused = interval
tick_delay interval swept = interval
tick_delay interval failed = min interval 30

-- the number of reports behind a tick
abbrev pub reports_after : TickResult → ℕ → ℕ
reports_after paused reports = reports
reports_after swept reports = reports + 1
reports_after failed reports = reports

-- The loop of `serve`, bounded by its ticks: the reports, and the delays between the ticks; there is
-- none behind the last.
unfoldable pub serve_loop : ℕ → List TickResult → ℕ → List ℕ → ℕ × List ℕ
unfolding tick_delay
serve_loop interval [] reports slept = (reports, slept)
serve_loop interval (tick ∷ ticks) reports slept =
    let reports' = reports_after tick reports in
    let rest = serve_loop interval ticks reports' (slept ++ tick_delay interval tick ∷ []) in
    elim ticks [ [] ↦ (reports', slept) | next ∷ more ↦ rest ]

unfoldable pub serve : ℕ → List TickResult → ℕ × List ℕ
unfolding serve_loop
serve seconds ticks = serve_loop (interval_of seconds) ticks 0 []
