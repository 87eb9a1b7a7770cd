-- ===== src/Agent/Hosted/Loop.antt =====
-- src/paperless_assistant/hosted.py: the methods that `HostedAgent.run` calls, and its loop. A tick
-- of the loop has the readings of the clock and the random number of the delay.
use paperless_assistant.Base.{
  ℕ, ◌+◌, ◌*◌, Bool, false, not, ◌&&◌, Option, none, some, List, [], ◌∷◌, ◌++◌, length, ltb,
  nat_beq, ◌==◌, nat_eq, string_eq, pair_eq, if◌then◌else◌,
}
use paperless_assistant.Agent.HostedState.{Identity, load, done_count}
use paperless_assistant.Agent.Hosted.{
  HostedJob, Report, WireRequest, post_enroll, get_work, post_heartbeat, WireReply, Sent,
  unreachable, answered, transport_error, revoked, enrollment_error, Ended, ok, raised, HostedAgent,
  HostedConfig, on_revoked, flush_results, execute_and_push,
}
use Prim.Native.Nat.{min}

pub record Tick : Type 0 where
  pub now : ℕ
  pub now' : ℕ
  pub uniform : ℕ → ℕ

module _ {N E : Type 0} (request : WireRequest → N → Sent × N)
    (runner : HostedJob → E → Ended Report × E) (config : HostedConfig) where
  -- the part of `ensure_enrolled` behind the answer
  unfoldable pub enrolled_by : WireReply → HostedAgent N E → Ended Identity × HostedAgent N E
  unfolding load
  enrolled_by reply a = elim (load reply.enrolled) [
    | none ↦ (raised enrollment_error, a)
    | some identity ↦
        if nat_beq reply.status 200
        then (ok identity, record a { creds = some identity; identity = some identity })
        else (raised enrollment_error, a)
  ]

  unfoldable pub ensure_enrolled : HostedAgent N E → Ended Identity × HostedAgent N E
  unfolding enrolled_by
  ensure_enrolled a = elim a.identity [
    | some identity ↦ (ok identity, a)
    | none ↦
        let (sent, network) = request (post_enroll config.enrollment_token) a.network in
        let a' = record a { network = network } in
        if config.enrollment_token == "" then (raised enrollment_error, a) else elim sent [
          | unreachable ↦ (raised transport_error, a')
          | answered reply ↦ enrolled_by reply a'
        ]
  ]

  -- the part of `poll_once` behind the answer of `GET /agent/work`
  unfoldable pub work_answered :
      WireReply → HostedAgent N E → Ended (Option HostedJob) × HostedAgent N E
  unfolding on_revoked execute_and_push
  work_answered reply a =
      if nat_beq reply.status 401
      then on_revoked a
      else if nat_beq reply.status 204
      then (ok none, a)
      else elim reply.job [
        | none ↦ (ok none, a)
        | some job ↦
            let (ended, a') = execute_and_push request runner job a in
            if nat_beq reply.status 200
            then (elim ended [ ok done ↦ ok (some job) | raised error ↦ raised error ], a')
            else (raised transport_error, a)
      ]

  -- the part of `poll_once` behind `ensure_enrolled`
  unfoldable pub poll_enrolled :
      Identity → HostedAgent N E → Ended (Option HostedJob) × HostedAgent N E
  unfolding flush_results work_answered
  poll_enrolled identity a =
      let (ended, a1) = flush_results request a in
      let (sent, network) = request (get_work identity) a1.network in
      let a2 = record a1 { network = network } in
      elim ended [
        | raised error ↦ (raised error, a1)
        | ok flushed ↦ elim sent [
          | unreachable ↦ (raised transport_error, a2)
          | answered reply ↦ work_answered reply a2
        ]
      ]

  unfoldable pub poll_once : HostedAgent N E → Ended (Option HostedJob) × HostedAgent N E
  unfolding ensure_enrolled poll_enrolled
  poll_once a =
      let (ended, a') = ensure_enrolled a in
      elim ended [ raised error ↦ (raised error, a') | ok identity ↦ poll_enrolled identity a' ]

  -- the part of `maybe_heartbeat` behind `ensure_enrolled`
  unfoldable pub beat : ℕ → Identity → HostedAgent N E → Ended Bool × HostedAgent N E
  unfolding on_revoked
  beat now' identity a =
      let (sent, network) =
        request (post_heartbeat identity (length a.results) (done_count a.cursor)) a.network in
      let a' = record a { network = network } in
      elim sent [
        | unreachable ↦ (ok false, a')
        | answered reply ↦
            if nat_beq reply.status 401
            then on_revoked a'
            else (ok (nat_beq reply.status 200), record a' { last_heartbeat = now' })
      ]

  unfoldable pub maybe_heartbeat : ℕ → ℕ → Bool → HostedAgent N E → Ended Bool × HostedAgent N E
  unfolding ensure_enrolled beat
  maybe_heartbeat now now' force a =
      let (ended, a') = ensure_enrolled a in
      if not force && ltb now (a.last_heartbeat + config.heartbeat_interval_seconds)
      then (ok false, a)
      else elim ended [
        | ok identity ↦ beat now' identity a'
        | raised transport_error ↦ (ok false, a')
        | raised error ↦ (raised error, a')
      ]

  -- the body of the `try` in `run`
  unfoldable pub try_tick : Tick → HostedAgent N E → Ended Unit × HostedAgent N E
  unfolding maybe_heartbeat poll_once
  try_tick tick a =
      let (beaten, a1) = maybe_heartbeat tick.now tick.now' false a in
      let (polled, a2) = poll_once a1 in
      elim beaten [
        | raised error ↦ (raised error, a1)
        | ok sent ↦ (elim polled [ ok job ↦ ok tt | raised error ↦ raised error ], a2)
      ]

  unfoldable pub backoff_delay : (ℕ → ℕ) → ℕ → ℕ
  backoff_delay uniform base = uniform (min base config.reconnect_backoff_max)

  -- the loop of `run`, one iteration for each tick, and the delays that it slept
  unfoldable pub run_loop :
      List Tick → ℕ → List ℕ → HostedAgent N E → Ended (List ℕ) × HostedAgent N E
  unfolding try_tick backoff_delay
  run_loop [] backoff slept a = (ok slept, a)
  run_loop (tick ∷ ticks) backoff slept a =
      let (tried, a') = try_tick tick a in
      let healthy = run_loop ticks config.reconnect_backoff_min slept a' in
      let reconnected =
        run_loop ticks (min (backoff * 2) config.reconnect_backoff_max)
          (slept ++ backoff_delay tick.uniform backoff ∷ []) a' in
      elim tried [
        | ok done ↦ healthy
        | raised transport_error ↦ reconnected
        | raised revoked ↦ (ok slept, a')
        | raised error ↦ (raised error, a')
      ]

  unfoldable pub run : List Tick → HostedAgent N E → Ended (List ℕ) × HostedAgent N E
  unfolding run_loop
  run ticks a = run_loop ticks config.reconnect_backoff_min [] a
