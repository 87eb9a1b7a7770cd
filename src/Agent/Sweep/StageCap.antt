-- ===== src/Agent/Sweep/StageCap.antt =====
-- The cap of a period over a stage of sweep.py, billable or not, dry or not.
use paperless_assistant.Base.{
  ℕ, ◌<◌, ◌≡◌, refl, inl, inr, Bool, true, false, not, ◌&&◌, String, Option, List, [], ◌∷◌, arith,
  Option-cases, nat_eq, string_eq, pair_eq,
}
use paperless_assistant.Base.Money.{Usd}
use paperless_assistant.Agent.Spend.{SpendLedger}
use paperless_assistant.Agent.Sweep.{DrainEvent, DrainState, drain_events}
use paperless_assistant.Agent.Sweep.Run.{
  Stage, triage, reocr, metadata, is_billable, SweepSettings, workers_of, Engine, StageWorld,
  SweepState, process_document, stage_begin, drain_stage, run_stage,
}
use paperless_assistant.Agent.Sweep.Rules.{drain_events_keeps}
use paperless_assistant.Agent.Sweep.Caps.{Bounded, Within, drain_events-Held, Held-Within}

module _ {W : Type 0} (settings : SweepSettings) (engine : Engine W) (period : String) (limit : Usd)
    (bounded : Bounded engine limit) (capped : 0 < settings.per_period) where
  abbrev InCap : SpendLedger → Type 0
  InCap l = Within settings engine period limit bounded capped l

  -- a drain that starts with no document in hand
  free_drain :
      (stage : Stage) (dry : Bool)
      → ((is_billable stage && not dry) ≡ false)
      → (events : List DrainEvent) (d : DrainState (StageWorld W)) → InCap d.world.ledger
      → InCap
          (drain_events
            (workers_of settings)
            (process_document settings engine period stage dry)
            events
            d).world.ledger
  unfolding process_document
  free_drain stage dry free events d within =
      drain_events_keeps (workers_of settings) (process_document settings engine period stage dry)
        (λ (s : StageWorld W). InCap s.ledger) (λ doc_id s h. h) (λ doc_id outcome s h. rw free h)
        events d within

  billed_drain :
      (stage : Stage)
      → is_billable stage ≡ true
      → (events : List DrainEvent) (d : DrainState (StageWorld W)) → d.running ≡ []
      → InCap d.world.ledger
      → InCap
          (drain_events
            (workers_of settings)
            (process_document settings engine period stage false)
            events
            d).world.ledger
  billed_drain stage billable events d idle within =
      Held-Within settings engine period limit bounded capped stage billable _ (
        drain_events-Held settings engine period limit bounded capped stage billable events d
          (record {
            places = rw idle (omega arith);
            cheap = rw idle tt;
            within = rw idle (omega (arith, within));
          }))

  drain_stage-Within :
      (stage : Stage) (dry : Bool) (docs : List ℕ) (d : DrainState (StageWorld W))
      → d.running ≡ []
      → InCap d.world.ledger
      → InCap (drain_stage settings engine period stage dry docs d).world.ledger
  unfolding drain_stage
  drain_stage-Within stage dry [] d idle within = within
  drain_stage-Within triage dry (doc_id ∷ docs) d idle within =
      free_drain triage dry refl (engine.schedule triage (doc_id ∷ docs)) d within
  drain_stage-Within reocr true (doc_id ∷ docs) d idle within =
      free_drain reocr true refl (engine.schedule reocr (doc_id ∷ docs)) d within
  drain_stage-Within metadata true (doc_id ∷ docs) d idle within =
      free_drain metadata true refl (engine.schedule metadata (doc_id ∷ docs)) d within
  drain_stage-Within reocr false (doc_id ∷ docs) d idle within =
      billed_drain reocr refl (engine.schedule reocr (doc_id ∷ docs)) d idle within
  drain_stage-Within metadata false (doc_id ∷ docs) d idle within =
      billed_drain metadata refl (engine.schedule metadata (doc_id ∷ docs)) d idle within

  pub run_stage-Within :
      (stage : Stage) (dry : Bool) (nudged : Option ℕ) (s : SweepState W)
      → InCap s.ledger
      → InCap (run_stage settings engine period stage dry nudged s).1.ledger
  unfolding run_stage
  run_stage-Within stage dry nudged s within =
      elim (Option-cases (engine.prepare stage nudged s.world).0) [
        | inl failed ↦ rw (failed, run_stage) within
        | inr (docs, queued) ↦
            rw (queued, run_stage)
              (drain_stage-Within stage dry docs
                (stage_begin settings engine period (engine.prepare stage nudged s.world).1 s) refl
                within)
      ]
