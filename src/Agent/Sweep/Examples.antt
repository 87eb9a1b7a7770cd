-- ===== src/Agent/Sweep/Examples.antt =====
-- An engine with one document, and what the theorems on the ticks and nudges of sweep.py say of it.
use paperless_assistant.Base.{
  ℕ, Bool, ◌+◌, ◌*◌, ◌≤◌, ◌≡◌, refl, true, false, none, some, List, [], ◌∷◌, map, arith, nat_eq,
  string_eq, pair_eq,
}
use paperless_assistant.Base.Dict.{lookup, insert, erase, get_or}
use paperless_assistant.Agent.Spend.{current, ledger_add, should_abort, would_exceed}
use paperless_assistant.Agent.Sweep.{
  billing, Outcome, finished, raised, DrainEvent, started, advanced, collected, guarded, advance,
  advance_from, note_fatal, fail_fast, collect, drain_step, drain_events,
}
use paperless_assistant.Agent.Sweep.Run.{
  reocr, metadata, SweepSettings, Engine, SweepState, period_cap_hit, process_document,
  ledger_after, drain_stage, run_stage, run_stages, run_once, resolve_dry_run, workers_of,
  process_nudge,
}
use paperless_assistant.Agent.Sweep.Recorded.{Recorded}
use paperless_assistant.Agent.Sweep.First.{
  Tick, FirstDry, run_ticks, run_ticks-FirstDry, run_stages-stops,
}
use paperless_assistant.Agent.Sweep.Nudges.{NudgeSpec, process_nudge-NudgeSpec}
use paperless_assistant.Agent.Sweep.Period.{tick, nudge, run_jobs, run_jobs-period_cap}

abbrev settings : SweepSettings
settings = record {
  dry_run = none;
  triage_enabled = true;
  reocr_enabled = true;
  metadata_enabled = true;
  per_run = 1000;
  per_period = 5000;
  workers = 3;
}

abbrev in_turn : List ℕ → List DrainEvent
in_turn [] = []
in_turn (d ∷ ds) = started d ∷ advanced d ∷ advanced d ∷ advanced d ∷ collected d ∷ in_turn ds

-- Document 7 is in every queue; Paperless is the list of the documents that were processed.
abbrev engine_of : Outcome → Engine (List ℕ)
engine_of outcome = record {
  prepare = λ stage nudged w. (some (7 ∷ []), w);
  process_one = λ stage dry doc_id spend w. (outcome, spend, doc_id ∷ w);
  schedule = λ stage docs. in_turn docs;
  pull = λ doc_id w. some (some "Invoice 12");
}

abbrev engine : Engine (List ℕ)
engine = engine_of (finished "done" 300)

abbrev out_of_credits : Engine (List ℕ)
out_of_credits = engine_of (raised (some billing))

abbrev fresh_on : {W : Type 0} → W → SweepState W
fresh_on w = record {
  world = w;
  ledger = [];
  fatal = none;
  cursor = record { first_run_done = false; last_run = none };
  paused = false;
}

abbrev fresh : SweepState (List ℕ)
fresh = fresh_on []

abbrev fresh_recorded : SweepState (Recorded (List ℕ))
fresh_recorded = fresh_on (record { inner = []; calls = [] })

run_ticks-FirstDry_example :
    FirstDry false
      (run_ticks settings "2026-05" ((engine, "a") ∷ (engine, "b") ∷ []) fresh_recorded)
run_ticks-FirstDry_example =
    run_ticks-FirstDry settings "2026-05" ((engine, "a") ∷ (engine, "b") ∷ []) fresh_recorded refl

-- The first of two ticks calls the pipelines of three stages in a dry run, the second to write.
abbrev calls_of : Tick → List Bool
calls_of t = t.calls

two_ticks :
    map calls_of (run_ticks settings "2026-05" ((engine, "a") ∷ (engine, "b") ∷ []) fresh_recorded)
    ≡ (true ∷ true ∷ true ∷ []) ∷ (false ∷ false ∷ false ∷ []) ∷ []
unfolding run_once run_stages resolve_dry_run run_stage drain_stage drain_events drain_step guarded
    advance advance_from collect fail_fast note_fatal process_document period_cap_hit should_abort
    would_exceed current ledger_after ledger_add insert erase lookup get_or
two_ticks = refl

latched :
    (run_stage settings out_of_credits "2026-05" reocr false none fresh).1.fatal ≡ some billing
unfolding run_stage drain_stage drain_events drain_step guarded advance advance_from collect
    fail_fast note_fatal process_document period_cap_hit should_abort would_exceed current
    ledger_after insert erase lookup get_or
latched = refl

run_stages-stops_example :
    (run_stages settings out_of_credits "2026-05" (reocr ∷ metadata ∷ []) false [] fresh).1
    ≡ (run_stage settings out_of_credits "2026-05" reocr false none fresh).1
run_stages-stops_example =
    run_stages-stops settings out_of_credits "2026-05" reocr (metadata ∷ []) false [] billing fresh
      (refl, tt) refl refl latched

process_nudge-NudgeSpec_example :
    NudgeSpec settings engine "2026-05" true 7 fresh
      (process_nudge settings engine "2026-05" (some true) 7 fresh)
process_nudge-NudgeSpec_example =
    process_nudge-NudgeSpec settings engine "2026-05" (some true) 7 fresh

nothing_spent : current "2026-05" [] ≤ 5000 + workers_of settings * 350
unfolding current get_or lookup
nothing_spent = omega arith

-- documents at 300 units at most, with the rounding 350
run_jobs-period_cap_example :
    current "2026-05"
      (run_jobs settings "2026-05" (tick engine "a" ∷ nudge engine none 7 ∷ []) fresh).ledger
    ≤ 5000 + workers_of settings * 350
run_jobs-period_cap_example =
    run_jobs-period_cap settings "2026-05" 350 (tick engine "a" ∷ nudge engine none 7 ∷ []) fresh
      ((λ stage doc_id spend w. omega arith), ((λ stage doc_id spend w. omega arith), tt))
      (omega arith) nothing_spent
