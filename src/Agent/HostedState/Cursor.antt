-- ===== src/Agent/HostedState/Cursor.antt =====
-- The stage machine of a job: `JobCursor` of hosted_state.py never moves backwards.
use paperless_assistant.Base.{
  ◌≡◌, refl, ap, ◌∙◌, inl, inr, String, Option, some, arith, Bool-cases, ltb, ltb→lt, ◌==◌, nat_eq,
  string_eq, pair_eq, if◌then◌else◌,
}
use paperless_assistant.Base.Dict.{Dict, get_or-insert}
use paperless_assistant.Base.Json.{Json}
use paperless_assistant.Agent.HostedState.{
  JobStage, stage_rank, CursorEntry, JobCursor, no_entry, stage, rank, advance,
}
use Prim.Native.Nat.{max}

abbrev moved : Option JobStage → JobStage → Option JobStage
moved cur s = if ltb (stage_rank cur) (stage_rank (some s)) then some s else cur

stage_rank-moved :
    (cur : Option JobStage) (s : JobStage)
    → stage_rank (moved cur s) ≡ max (stage_rank cur) (stage_rank (some s))
stage_rank-moved cur s = elim (Bool-cases (ltb (stage_rank cur) (stage_rank (some s)))) [
  | inl below ↦ rw below (omega (arith, ltb→lt (stage_rank cur) (stage_rank (some s)) below))
  | inr not_below ↦ rw not_below (ground arith)
]

stage-advance :
    (job_id other : String) (s : JobStage) (meta : Dict String Json) (c : JobCursor)
    → stage other (advance job_id s meta c)
      ≡ (if job_id == other then moved (stage job_id c) s else stage other c)
unfolding stage advance
stage-advance job_id other s meta c =
    ap (λ (cur : CursorEntry). cur.stage) (get_or-insert job_id other _ no_entry c)
    ∙ elim (Bool-cases (job_id == other)) [ inl same ↦ rw same refl | inr differ ↦ rw differ refl ]

-- After `advance` a job's rank is the larger of its rank before and the stage's; the rank of every
-- other job is the same. So no stage moves backwards, and a stage that is recorded is reached.
pub rank-advance :
    (job_id other : String) (s : JobStage) (meta : Dict String Json) (c : JobCursor)
    → rank other (advance job_id s meta c)
      ≡ (if job_id == other then max (rank job_id c) (stage_rank (some s)) else rank other c)
unfolding rank
rank-advance job_id other s meta c =
    ground (arith, stage-advance job_id other s meta c, stage_rank-moved (stage job_id c) s)
