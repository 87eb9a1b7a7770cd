-- ===== src/Agent/HostedState.antt =====
-- src/paperless_assistant/hosted_state.py: what the agent keeps under /data in hosted mode. The
-- files, their atomic replacement and the locks are not modelled: a store is its content.
pub mod Cursor
pub mod Results
use paperless_assistant.Base.{
  ℕ, zero, suc, ◌+◌, refl, inl, inr, Bool, true, false, not, String, Option, none, some, List, [],
  ◌∷◌, ◌++◌, arith, filter, ltb, leb, ◌==◌, nat_eq, string_eq, pair_eq, if◌then◌else◌,
}
use paperless_assistant.Base.Dict.{Dict, insert, get_or}
use paperless_assistant.Base.Json.{Json}

-- `AgentCredentialStore`: the stored identity
pub record Identity : Type 0 where
  pub tenant : String
  pub agent_id : String
  pub agent_credential : String

-- `AgentCredentialStore.load`: an identity with an empty credential counts as none.
unfoldable pub load : Option Identity → Option Identity
load none = none
load (some identity) = if identity.agent_credential == "" then none else some identity

-- `JOB_STAGES`
pub data JobStage : Type 0 where
  pulled executing executed acked : JobStage

-- `_STAGE_RANK`, and 1: 0 stands for the rank −1 of no stage
abbrev pub stage_rank : Option JobStage → ℕ
stage_rank none = 0
stage_rank (some pulled) = 1
stage_rank (some executing) = 2
stage_rank (some executed) = 3
stage_rank (some acked) = 4

pub record CursorEntry : Type 0 where
  pub stage : Option JobStage
  pub meta : Dict String Json

-- the content of a `JobCursor`
abbrev pub JobCursor : Type 0
JobCursor = Dict String CursorEntry

abbrev pub no_entry : CursorEntry
no_entry = record { stage = none; meta = [] }

unfoldable pub stage : String → JobCursor → Option JobStage
stage job_id c = (get_or job_id no_entry c).stage

unfoldable pub rank : String → JobCursor → ℕ
unfolding stage
rank job_id c = stage_rank (stage job_id c)

unfoldable pub is_at_least : String → JobStage → JobCursor → Bool
unfolding rank
is_at_least job_id s c = leb (stage_rank (some s)) (rank job_id c)

-- `cur.update(meta)`
unfoldable pub update : Dict String Json → Dict String Json → Dict String Json
update [] d = d
update ((k, v) ∷ meta) d = update meta (insert k v d)

unfoldable pub advance : String → JobStage → Dict String Json → JobCursor → JobCursor
unfolding update
advance job_id s meta c =
    let cur = get_or job_id no_entry c in
    let moved = if ltb (stage_rank cur.stage) (stage_rank (some s)) then some s else cur.stage in
    insert job_id (record { stage = moved; meta = update meta cur.meta }) c

unfoldable pub done_count : JobCursor → ℕ
done_count [] = 0
done_count ((k, cur) ∷ c) =
    let rest = done_count c in
    if leb (stage_rank (some executed)) (stage_rank cur.stage) then rest + 1 else rest

pub record QueuedResult : Type 0 where
  pub job_id : String
  pub result : Json

-- The content of a `ResultQueue`, whose `peek_all` returns it and whose `depth` is its length.
abbrev pub ResultQueue : Type 0
ResultQueue = List QueuedResult

unfoldable pub remove : String → ResultQueue → ResultQueue
remove job_id items = filter (λ (it : QueuedResult). not (it.job_id == job_id)) items

unfoldable pub enqueue : String → Json → ResultQueue → ResultQueue
unfolding remove
enqueue job_id result items =
    remove job_id items ++ record { job_id = job_id; result = result } ∷ []
