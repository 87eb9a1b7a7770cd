-- ===== src/Agent/Progress.antt =====
-- src/paperless_assistant/progress.py: the live progress of a run. Every writer reads the clock once.
pub mod History
pub mod Refines
mod Examples
use paperless_assistant.Base.{
  ℕ, zero, suc, ◌+◌, refl, inl, inr, Bool, true, false, String, Option, none, some, List, [], ◌∷◌,
  ◌++◌, arith, length, ltb, nat_beq, is_some, nat_eq, string_eq, pair_eq, if◌then◌else◌,
}
use paperless_assistant.Base.Dict.{Dict, lookup, insert, get_or}
use paperless_assistant.Base.Money.{Usd, round6}
use mathlib.Core.List.{reverse}

pub record StageProgress : Type 0 where
  pub total : ℕ
  pub processed : ℕ
  pub spend : Usd
  pub counts : Dict String ℕ

pub record RecentDoc : Type 0 where
  pub ts : ℕ
  pub stage : String
  pub status : String
  pub doc_id : ℕ
  pub doc_title : Option String
  pub summary : Option String
  pub cost : Usd
  pub paperless_url : Option String

pub record ProgressError : Type 0 where
  pub kind : String
  pub message : String
  pub stage : Option String
  pub ts : ℕ

pub record ProgressTracker : Type 0 where
  pub recent_max : ℕ
  pub active : Bool
  pub run_id : Option String
  pub dry_run : Option Bool
  pub source : Option String
  pub started_at : Option ℕ
  pub updated_at : Option ℕ
  pub finished_at : Option ℕ
  pub stage : Option String
  pub stages : Dict String StageProgress
  pub stage_order : List String
  pub recent : List RecentDoc
  pub spend_total : Usd
  pub counts : Dict String ℕ
  pub error : Option ProgressError

-- `_reset`
unfoldable pub reset : ℕ → ProgressTracker
reset recent_max = record {
  recent_max = recent_max;
  active = false;
  run_id = none;
  dry_run = none;
  source = none;
  started_at = none;
  updated_at = none;
  finished_at = none;
  stage = none;
  stages = [];
  stage_order = [];
  recent = [];
  spend_total = 0;
  counts = [];
  error = none;
}

unfoldable pub begin_run :
    String → Option Bool → Option String → ℕ → ProgressTracker → ProgressTracker
unfolding reset
begin_run run_id dry_run source now p = record (reset p.recent_max) {
  active = true;
  run_id = some run_id;
  dry_run = dry_run;
  source = source;
  started_at = some now;
  updated_at = some now;
}

abbrev pub fresh_stage : ℕ → StageProgress
fresh_stage total = record { total = total; processed = 0; spend = 0; counts = [] }

-- `if stage not in self._stages: self._stage_order.append(stage)`
abbrev pub order_with : String → ProgressTracker → List String
order_with stage p =
    if is_some (lookup stage p.stages) then p.stage_order else p.stage_order ++ stage ∷ []

unfoldable pub begin_stage : String → ℕ → ℕ → ProgressTracker → ProgressTracker
begin_stage stage total now p = record p {
  stage_order = order_with stage p;
  stages = insert stage (fresh_stage total) p.stages;
  stage = some stage;
  updated_at = some now;
}

-- `counts[status] = counts.get(status, 0) + 1`
unfoldable pub count_one : String → Dict String ℕ → Dict String ℕ
count_one status counts = insert status (get_or status 0 counts + 1) counts

-- `append` of a deque with a bound: where it is full the first entry goes
unfoldable pub append_bounded {ℓ} : {A : Type ℓ} → ℕ → List A → A → List A
append_bounded bound [] x = if nat_beq bound 0 then [] else x ∷ []
append_bounded bound (y ∷ xs) x =
    if ltb (length (y ∷ xs)) bound then y ∷ xs ++ x ∷ [] else xs ++ x ∷ []

unfoldable pub record_doc : RecentDoc → ProgressTracker → ProgressTracker
unfolding count_one append_bounded
record_doc d p =
    let st = get_or d.stage (fresh_stage 0) p.stages in
    let st' : StageProgress = record {
      total = st.total;
      processed = st.processed + 1;
      spend = st.spend + d.cost;
      counts = count_one d.status st.counts;
    } in
    record p {
      stage_order = order_with d.stage p;
      stage = if is_some (lookup d.stage p.stages) then p.stage else some d.stage;
      stages = insert d.stage st' p.stages;
      counts = count_one d.status p.counts;
      spend_total = p.spend_total + d.cost;
      updated_at = some d.ts;
      recent = append_bounded p.recent_max p.recent d;
    }

-- the clock is read twice
unfoldable pub set_error : ProgressError → ℕ → ProgressTracker → ProgressTracker
set_error e now p = record p { error = some e; updated_at = some now }

unfoldable pub end_run : Option (Dict String ℕ) → Option Usd → ℕ → ProgressTracker → ProgressTracker
end_run counts spend_total now p = record p {
  active = false;
  finished_at = some now;
  updated_at = some now;
  counts = elim counts [ none ↦ p.counts | some given ↦ given ];
  spend_total = elim spend_total [ none ↦ p.spend_total | some given ↦ given ];
}

pub record Snapshot : Type 0 where
  pub active : Bool
  pub run_id : Option String
  pub dry_run : Option Bool
  pub source : Option String
  pub started_at : Option ℕ
  pub updated_at : Option ℕ
  pub finished_at : Option ℕ
  pub stage : Option String
  pub spend_total : Usd
  pub counts : Dict String ℕ
  pub stages : List (String × Option StageProgress)
  pub recent : List RecentDoc
  pub recent_max : ℕ
  pub error : Option ProgressError

abbrev pub stage_list :
    List String → Dict String StageProgress → List (String × Option StageProgress)
stage_list [] stages = []
stage_list (s ∷ order) stages = (s, lookup s stages) ∷ stage_list order stages

-- `snapshot`, newest documents first
unfoldable pub snapshot : ProgressTracker → Snapshot
unfolding round6
snapshot p = record {
  active = p.active;
  run_id = p.run_id;
  dry_run = p.dry_run;
  source = p.source;
  started_at = p.started_at;
  updated_at = p.updated_at;
  finished_at = p.finished_at;
  stage = p.stage;
  spend_total = round6 p.spend_total;
  counts = p.counts;
  stages = stage_list p.stage_order p.stages;
  recent = reverse p.recent;
  recent_max = p.recent_max;
  error = p.error;
}
