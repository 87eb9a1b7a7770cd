-- ===== src/ControlPlane/Store.antt =====
-- The state of src/paperless_control_plane/store.py: agents, one-time enrollment tokens, the job
-- queue of each (tenant, agent) and the cache of results. In the modules below a method takes each
-- reading of the clock, each random token and each uuid that it draws as an argument, and returns
-- the new store. The file that `_save` writes is not modelled.
pub mod Agents
pub mod Queue
pub mod Results
pub mod Routing
pub mod Steps
mod Examples
use paperless_assistant.Base.{
  ℕ, zero, suc, Bool, true, false, String, Option, none, some, List, [], string_eq, pair_eq,
}
use paperless_assistant.Base.Dict.{Dict, get_or}
use paperless_assistant.Base.Json.{Json}

pub record TokenInfo : Type 0 where
  pub tenant : String
  pub agent_hint : Option String
  pub minted_at : ℕ

pub record Agent : Type 0 where
  pub agent_id : String
  pub tenant : String
  pub credential_salt : String
  pub credential_hash : String
  pub revoked : Bool
  pub enrolled_at : ℕ
  pub last_heartbeat : Option ℕ
  pub last_status : Option Json

pub data JobState : Type 0 where
  queued dispatched : JobState

pub record Job : Type 0 where
  pub job_id : String
  pub tenant : String
  pub agent_id : String
  pub job_type : String
  pub payload : Json
  pub state : JobState
  pub enqueued_at : ℕ
  pub dispatched_at : Option ℕ
  pub deliveries : ℕ

pub record ResultEntry : Type 0 where
  pub result : Json
  pub acked_at : ℕ

abbrev pub QueueKey : Type 0
QueueKey = String × String

pub record Store : Type 0 where
  pub visibility_timeout : ℕ
  pub results_max : ℕ
  pub results_ttl : ℕ
  pub agents : Dict String Agent
  pub enrollment_tokens : Dict String TokenInfo
  pub queues : Dict QueueKey (List Job)
  pub results : Dict String ResultEntry

-- `ControlPlaneStore()`
abbrev pub empty_store : ℕ → ℕ → ℕ → Store
empty_store timeout max ttl = record {
  visibility_timeout = timeout;
  results_max = max;
  results_ttl = ttl;
  agents = [];
  enrollment_tokens = [];
  queues = [];
  results = [];
}

abbrev pub queue_of : String → String → Store → List Job
queue_of tenant agent_id s = get_or (tenant, agent_id) [] s.queues
