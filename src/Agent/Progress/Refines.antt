-- ===== src/Agent/Progress/Refines.antt =====
-- The tracker of progress.py shows of a run what its history says.
use paperless_assistant.Base.{
  ℕ, zero, suc, ◌+◌, ◌≡◌, refl, sym, ap, ◌∙◌, ◌≢◌, inl, inr, false, String, none, some, List, [],
  ◌∷◌, arith, Bool-cases, length, take, ◌==◌, nat_eq, string_eq, pair_eq, beq_refl,
}
use paperless_assistant.Base.Dict.{
  lookup, insert, get_or, get_or-insert, get_or-insert_self, get_or-insert_ne,
}
use mathlib.Core.Path.{subst}
use paperless_assistant.Base.Reverse.{take-cons_take}
use paperless_assistant.Agent.Progress.{
  StageProgress, RecentDoc, ProgressTracker, reset, begin_run, begin_stage, fresh_stage, count_one,
  record_doc, set_error, end_run,
}
use paperless_assistant.Agent.Progress.History.{
  Write, begins, enters, records, fails, ends, write, write_all, note, docs_of, stage_docs,
  stage_total, spend_of, error_of, is_active, sum_costs, with_status, StageTracks, Tracks,
  reverse-append_bounded, length-append_bounded,
}

take-nil : {A : Type 0} (n : ℕ) → take {A = A} n [] ≡ []
take-nil zero = refl
take-nil (suc n) = refl

-- a stage that the call does not change, in the tracker and in the history
StageTracks-same :
    (h h' : List Write) (stage : String) (st st' : StageProgress)
    → st' ≡ st
    → stage_total stage h' ≡ stage_total stage h
    → stage_docs stage h' ≡ stage_docs stage h
    → StageTracks h stage st
    → StageTracks h' stage st'
StageTracks-same h h' stage st st' same total docs t = rw same (record {
  total = t.total ∙ sym total;
  processed = t.processed ∙ ap (λ (ds : List RecentDoc). length ds) (sym docs);
  spend = t.spend ∙ ap sum_costs (sym docs);
  counted = λ status. t.counted status ∙ ap (with_status status) (sym docs);
})

fresh-StageTracks :
    (h : List Write) (stage : String) (total : ℕ)
    → stage_total stage h ≡ total
    → stage_docs stage h ≡ []
    → StageTracks h stage (fresh_stage total)
unfolding get_or lookup
fresh-StageTracks h stage total same empty = record {
  total = sym same;
  processed = ap (λ (ds : List RecentDoc). length ds) (sym empty);
  spend = ap sum_costs (sym empty);
  counted = λ status. ap (with_status status) (sym empty);
}

-- the stage of a document that is recorded
counted-StageTracks :
    (d : RecentDoc) (h : List Write) (st : StageProgress)
    → StageTracks h d.stage st
    → StageTracks (records d ∷ h) d.stage (record {
      total = st.total;
      processed = st.processed + 1;
      spend = st.spend + d.cost;
      counts = count_one d.status st.counts;
    })
unfolding count_one
counted-StageTracks d h st t =
    let this : stage_docs d.stage (records d ∷ h) ≡ d ∷ stage_docs d.stage h =
      rw (beq_refl d.stage) refl in
    record {
      total = t.total;
      processed = omega (arith, ap (λ (ds : List RecentDoc). length ds) this, t.processed);
      spend = omega (arith, ap sum_costs this, t.spend);
      counted = λ status. ground (
        arith,
        get_or-insert d.status status (get_or d.status 0 st.counts + 1) 0 st.counts,
        string_eq.test_iff d.status status,
        ap (with_status status) this,
        t.counted status,
        t.counted d.status,
      );
    }

test-ne : (a b : String) → (a == b) ≡ false → a ≢ b
test-ne a b other e = cc ((string_eq.test_iff a b).1 e)

record_doc-stages :
    (d : RecentDoc) (p : ProgressTracker) (h : List Write) (stage : String)
    → ((stage : String) → StageTracks h stage (get_or stage (fresh_stage 0) p.stages))
    → StageTracks (records d ∷ h) stage (get_or stage (fresh_stage 0) (record_doc d p).stages)
unfolding record_doc
record_doc-stages d p h stage each =
    let st = get_or d.stage (fresh_stage 0) p.stages in
    let st' : StageProgress = record {
      total = st.total;
      processed = st.processed + 1;
      spend = st.spend + d.cost;
      counts = count_one d.status st.counts;
    } in
    elim (Bool-cases (d.stage == stage)) [
      | inl same ↦
          subst
            (λ s.
              StageTracks (records d ∷ h) s
                (get_or s (fresh_stage 0) (insert d.stage st' p.stages)))
            ((string_eq.test_iff d.stage stage).0 same)
            (rw (get_or-insert_self d.stage st' (fresh_stage 0) p.stages)
              (counted-StageTracks d h st (each d.stage)))
      | inr other ↦
          StageTracks-same h (records d ∷ h) stage (get_or stage (fresh_stage 0) p.stages) _
            (get_or-insert_ne d.stage stage st' (fresh_stage 0) p.stages
              (test-ne d.stage stage other))
            refl (rw other refl) (each stage)
    ]

begin_stage-stages :
    (entered : String) (total now : ℕ) (p : ProgressTracker) (h : List Write) (stage : String)
    → ((stage : String) → StageTracks h stage (get_or stage (fresh_stage 0) p.stages))
    → StageTracks
        (enters entered total now ∷ h)
        stage
        (get_or stage (fresh_stage 0) (begin_stage entered total now p).stages)
unfolding begin_stage
begin_stage-stages entered total now p h stage each = elim (Bool-cases (entered == stage)) [
  | inl same ↦
      subst
        (λ s.
          StageTracks (enters entered total now ∷ h) s
            (get_or s (fresh_stage 0) (insert entered (fresh_stage total) p.stages)))
        ((string_eq.test_iff entered stage).0 same)
        (rw (get_or-insert_self entered (fresh_stage total) (fresh_stage 0) p.stages) (
          fresh-StageTracks (enters entered total now ∷ h) entered total
            (rw (beq_refl entered) refl) (rw (beq_refl entered) refl)))
  | inr other ↦
      StageTracks-same h (enters entered total now ∷ h) stage
        (get_or stage (fresh_stage 0) p.stages) _
        (get_or-insert_ne entered stage (fresh_stage total) (fresh_stage 0) p.stages
          (test-ne entered stage other))
        (rw other refl) (rw other refl) (each stage)
]

reset-Tracks :
    (p : ProgressTracker) (h : List Write)
    → p.active ≡ is_active h
    → docs_of h ≡ []
    → spend_of h ≡ 0
    → error_of h ≡ none
    → ((stage : String) → (stage_total stage h ≡ 0) × (stage_docs stage h ≡ []))
    → p.recent ≡ []
    → p.spend_total ≡ 0
    → p.error ≡ none
    → p.stages ≡ []
    → Tracks p h
unfolding get_or lookup
reset-Tracks p h active docs spend error stages recent spend' error' stages' = record {
  active = active;
  spend = spend' ∙ sym spend;
  error = error' ∙ sym error;
  bounded = rw recent (omega arith);
  recent = rw (recent, docs) (sym (take-nil p.recent_max));
  stages = λ stage. rw stages' (fresh-StageTracks h stage 0 (stages stage).0 (stages stage).1);
}

write-Tracks :
    (w : Write) (p : ProgressTracker) (h : List Write) → Tracks p h → Tracks (write w p) (note h w)
unfolding write begin_run reset begin_stage record_doc set_error end_run
write-Tracks (begins run_id dry_run source now) p h t =
    reset-Tracks _ (begins run_id dry_run source now ∷ []) refl refl refl refl
      (λ stage. (refl, refl)) refl refl refl refl
write-Tracks (enters stage total now) p h t = record {
  active = t.active;
  spend = t.spend;
  error = t.error;
  bounded = t.bounded;
  recent = t.recent;
  stages = λ s. begin_stage-stages stage total now p h s t.stages;
}
write-Tracks (records d) p h t = record {
  active = t.active;
  spend = ap (λ (n : ℕ). n + d.cost) t.spend;
  error = t.error;
  bounded = length-append_bounded p.recent_max p.recent d t.bounded;
  recent =
      reverse-append_bounded p.recent_max p.recent d t.bounded
      ∙ ap (λ (ds : List RecentDoc). take p.recent_max (d ∷ ds)) t.recent
      ∙ take-cons_take p.recent_max d (docs_of h);
  stages = λ s. record_doc-stages d p h s t.stages;
}
write-Tracks (fails e now) p h t = record {
  active = t.active;
  spend = t.spend;
  error = refl;
  bounded = t.bounded;
  recent = t.recent;
  stages = λ s. StageTracks-same h (fails e now ∷ h) s _ _ refl refl refl (t.stages s);
}
write-Tracks (ends counts none now) p h t = record {
  active = refl;
  spend = t.spend;
  error = t.error;
  bounded = t.bounded;
  recent = t.recent;
  stages = λ s. StageTracks-same h (ends counts none now ∷ h) s _ _ refl refl refl (t.stages s);
}
write-Tracks (ends counts (some given) now) p h t = record {
  active = refl;
  spend = refl;
  error = t.error;
  bounded = t.bounded;
  recent = t.recent;
  stages =
      λ s. StageTracks-same h (ends counts (some given) now ∷ h) s _ _ refl refl refl (t.stages s);
}

abbrev pub note_all : List Write → List Write → List Write
note_all [] h = h
note_all (w ∷ ws) h = note_all ws (note h w)

write_all-Tracks :
    (ws : List Write) (p : ProgressTracker) (h : List Write)
    → Tracks p h
    → Tracks (write_all ws p) (note_all ws h)
write_all-Tracks [] p h t = t
write_all-Tracks (w ∷ ws) p h t = write_all-Tracks ws (write w p) (note h w) (write-Tracks w p h t)

-- The tracker refines the history of the current run, which forgets nothing: whatever calls come, it
-- shows whether the run is active, its spend and its last error, for every stage the number of
-- documents that are to be processed and that have been, their spend and the count of each outcome
-- since the stage was entered, and the newest documents of the run, as many as its bound allows.
pub write_all-Refines :
    (recent_max : ℕ) (ws : List Write) → Tracks (write_all ws (reset recent_max)) (note_all ws [])
unfolding reset
write_all-Refines recent_max ws =
    write_all-Tracks ws (reset recent_max) []
      (reset-Tracks _ [] refl refl refl refl (λ stage. (refl, refl)) refl refl refl refl)
