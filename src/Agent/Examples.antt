-- ===== src/Agent/Examples.antt =====
-- A hosted agent and a queue of nudges of src/paperless_assistant on examples.
use paperless_assistant.Base.{
  ℕ, ◌+◌, ◌%◌, ◌≡◌, refl, true, String, none, some, List, [], ◌∷◌, ◌++◌, length, nat_beq, nat_eq,
  string_eq, pair_eq, if◌then◌else◌, contains, Distinct,
}
use paperless_assistant.Base.Json.{null, text, obj, end, field}
use paperless_assistant.Agent.HostedState.{Identity}
use paperless_assistant.Agent.Hosted.{
  Ended, ok, HostedJob, Report, WireRequest, get_work, post_results, Sent, unreachable, answered,
  HostedAgent, HostedConfig,
}
use paperless_assistant.Agent.Hosted.Loop.{Tick, run}
use paperless_assistant.Agent.Hosted.Once.{logged, run-executes_once}
use paperless_assistant.Agent.Webhook.{NudgeQueue, drain, process_all, is_done}
use paperless_assistant.Agent.Webhook.Drain.{drain_empties}
use paperless_assistant.Agent.Webhook.Receiver.{NudgeRequest}
use paperless_assistant.Agent.Webhook.Handled.{Handled}
use paperless_assistant.Agent.Fields.{value_eq}

-- A control plane that delivers the same job at every poll, and takes every other push of a result.
abbrev one_job : HostedJob
one_job = record { job_id = "j1"; type = text "run_sweep"; payload = null }

abbrev flaky : WireRequest → ℕ → Sent × ℕ
flaky (get_work identity) n =
    (answered (record { status = 200; job = some one_job; enrolled = none }), n + 1)
flaky (post_results identity job_id result) n = (
  if nat_beq (n % 2) 0
      then unreachable
      else answered (record { status = 200; job = none; enrolled = none }),
  n + 1,
)
flaky _ n = (answered (record { status = 200; job = none; enrolled = none }), n)

abbrev runner : HostedJob → ℕ → Ended Report × ℕ
runner job n = (ok (record { counts = ("wrote", 2) ∷ []; total_spend = 0 }), n + 1)

abbrev config : HostedConfig
config = record {
  enrollment_token = "token";
  heartbeat_interval_seconds = 60;
  reconnect_backoff_min = 1;
  reconnect_backoff_max = 30;
}

abbrev identity : Identity
identity = record { tenant = "t"; agent_id = "a"; agent_credential = "c" }

abbrev fresh_agent : HostedAgent ℕ (ℕ × List String)
fresh_agent = record {
  creds = some identity;
  identity = some identity;
  cursor = [];
  results = [];
  last_heartbeat = 0;
  network = 0;
  engine = (0, []);
}

abbrev tick : Tick
tick = record { now = 1; now' = 2; uniform = λ base. base }

abbrev ticks : List Tick
ticks = tick ∷ tick ∷ tick ∷ []

run-executes_once_example : Distinct (run flaky (logged runner) config ticks fresh_agent).1.engine.1
run-executes_once_example = run-executes_once flaky runner config ticks fresh_agent refl refl

-- two documents wait
abbrev two_pending : NudgeQueue
two_pending = record { pending = 4 ∷ 7 ∷ []; done = []; last_seen = (7, 100) ∷ [] }

abbrev keep : ℕ → List ℕ → List ℕ
keep doc_id s = s ++ doc_id ∷ []

drain_empties_example :
    (q' : NudgeQueue) × (drain keep two_pending []
      ≡ some (length two_pending.pending, q', process_all keep two_pending.pending []))
    × (q'.pending ≡ [])
    × ((d : ℕ) → contains d two_pending.pending ≡ true → is_done d q' ≡ true)
drain_empties_example = drain_empties keep two_pending [] (refl, (refl, tt))

abbrev nudge : NudgeRequest
nudge = record {
  url_path = "/hook";
  query = [];
  headers = ("Authorization", "Bearer secret") ∷ [];
  payload = some (obj (field "doc_url" (text "http://paperless/documents/12/") end));
}
