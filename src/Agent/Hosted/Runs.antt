-- ===== src/Agent/Hosted/Runs.antt =====
-- The methods of hosted.py that poll, send heartbeats and loop keep what its other methods keep.
use paperless_assistant.Base.{
  ℕ, ◌+◌, ◌≡◌, refl, inl, inr, Bool, false, not, ◌&&◌, List, [], ◌∷◌, Bool-cases, Option-cases,
  length, ltb, nat_beq, ◌==◌, nat_eq, string_eq, pair_eq,
}
use paperless_assistant.Agent.HostedState.{Identity, load, done_count, JobCursor, ResultQueue}
use paperless_assistant.Agent.Hosted.{
  HostedJob, Report, WireRequest, post_enroll, get_work, post_heartbeat, WireReply, Sent,
  HostedError, transport_error, revoked, enrollment_error, other_error, Ended, ok, raised,
  HostedAgent, HostedConfig, on_revoked, flush_results,
}
use paperless_assistant.Agent.Hosted.Loop.{
  Tick, enrolled_by, ensure_enrolled, work_answered, poll_enrolled, poll_once, beat,
  maybe_heartbeat, try_tick, run_loop, run,
}
use paperless_assistant.Agent.Hosted.Keeps.{
  Kept, Sent-cases, Ended-cases, flush_results-Holds, execute_and_push-Holds,
}

module _ {N E : Type 0} (request : WireRequest → N → Sent × N)
    (runner : HostedJob → E → Ended Report × E) (P : JobCursor → ResultQueue → E → Type 0)
    (kept : Kept runner P) (config : HostedConfig) where
  abbrev Here : HostedAgent N E → Type 0
  Here a = P a.cursor a.results a.engine

  enrolled_by-Holds :
      (reply : WireReply) (a : HostedAgent N E)
      → Here a
      → Here (enrolled_by request runner config reply a).1
  unfolding enrolled_by
  enrolled_by-Holds reply a h = elim (Option-cases (load reply.enrolled)) [
    | inl missing ↦ rw (missing, enrolled_by) h
    | inr (identity, there) ↦ elim (Bool-cases (nat_beq reply.status 200)) [
      | inl fine ↦ rw (there, fine, enrolled_by) h
      | inr wrong ↦ rw (there, wrong, enrolled_by) h
    ]
  ]

  ensure_enrolled-Holds :
      (a : HostedAgent N E) → Here a → Here (ensure_enrolled request runner config a).1
  unfolding ensure_enrolled
  ensure_enrolled-Holds a h = elim (Option-cases a.identity) [
    | inr (identity, there) ↦ rw (there, ensure_enrolled) h
    | inl missing ↦ elim (Bool-cases (config.enrollment_token == "")) [
      | inl unset ↦ rw (missing, unset, ensure_enrolled) h
      | inr set ↦
          let sent = request (post_enroll config.enrollment_token) a.network in
          rw (missing, set, ensure_enrolled)
            (elim (Sent-cases sent.0) [
              | inl down ↦ rw down h
              | inr (reply, up) ↦ rw up (enrolled_by-Holds reply (record a { network = sent.1 }) h)
            ])
    ]
  ]

  work_answered-Holds :
      (reply : WireReply) (a : HostedAgent N E)
      → Here a
      → Here (work_answered request runner config reply a).1
  unfolding work_answered on_revoked
  work_answered-Holds reply a h = elim (Bool-cases (nat_beq reply.status 401)) [
    | inl rejected ↦ rw (rejected, work_answered) h
    | inr accepted ↦ elim (Bool-cases (nat_beq reply.status 204)) [
      | inl idle ↦ rw (accepted, idle, work_answered) h
      | inr busy ↦ elim (Option-cases reply.job) [
        | inl missing ↦ rw (accepted, busy, missing, work_answered) h
        | inr (job, there) ↦ elim (Bool-cases (nat_beq reply.status 200)) [
          | inl fine ↦
              rw (accepted, busy, there, fine, work_answered)
                (execute_and_push-Holds request runner P kept job a h)
          | inr wrong ↦ rw (accepted, busy, there, wrong, work_answered) h
        ]
      ]
    ]
  ]

  poll_enrolled-Holds :
      (identity : Identity) (a : HostedAgent N E)
      → Here a
      → Here (poll_enrolled request runner config identity a).1
  unfolding poll_enrolled
  poll_enrolled-Holds identity a h =
      let flushed = flush_results request a in
      let sent = request (get_work identity) flushed.1.network in
      let h1 = flush_results-Holds request runner P kept a h in
      elim (Ended-cases flushed.0) [
        | inr (error, stopped) ↦ rw (stopped, poll_enrolled) h1
        | inl (n, done) ↦ elim (Sent-cases sent.0) [
          | inl down ↦ rw (done, down, poll_enrolled) h1
          | inr (reply, up) ↦
              rw (done, up, poll_enrolled)
                (work_answered-Holds reply (record flushed.1 { network = sent.1 }) h1)
        ]
      ]

  poll_once-Holds : (a : HostedAgent N E) → Here a → Here (poll_once request runner config a).1
  unfolding poll_once
  poll_once-Holds a h =
      let enrolled = ensure_enrolled request runner config a in
      let h1 = ensure_enrolled-Holds a h in
      elim (Ended-cases enrolled.0) [
        | inr (error, stopped) ↦ rw (stopped, poll_once) h1
        | inl (identity, there) ↦ rw (there, poll_once) (poll_enrolled-Holds identity enrolled.1 h1)
      ]

  beat-Holds :
      (now' : ℕ) (identity : Identity) (a : HostedAgent N E)
      → Here a
      → Here (beat request runner config now' identity a).1
  unfolding beat on_revoked
  beat-Holds now' identity a h =
      let sent =
        request (post_heartbeat identity (length a.results) (done_count a.cursor)) a.network in
      elim (Sent-cases sent.0) [
        | inl down ↦ rw (down, beat) h
        | inr (reply, up) ↦ elim (Bool-cases (nat_beq reply.status 401)) [
          | inl rejected ↦ rw (up, rejected, beat) h
          | inr accepted ↦ rw (up, accepted, beat) h
        ]
      ]

  maybe_heartbeat-Holds :
      (now now' : ℕ) (force : Bool) (a : HostedAgent N E)
      → Here a
      → Here (maybe_heartbeat request runner config now now' force a).1
  unfolding maybe_heartbeat
  maybe_heartbeat-Holds now now' force a h =
      let enrolled = ensure_enrolled request runner config a in
      let h1 = ensure_enrolled-Holds a h in
      elim (Bool-cases
        (not force && ltb now (a.last_heartbeat + config.heartbeat_interval_seconds))) [
          | inl early ↦ rw (early, maybe_heartbeat) h
          | inr due ↦ elim (Ended-cases enrolled.0) [
            | inl (identity, there) ↦
                rw (due, there, maybe_heartbeat) (beat-Holds now' identity enrolled.1 h1)
            | inr (error, stopped) ↦ raised_case due error stopped h1
          ]
        ]
    where
      raised_case :
          (due : (not force && ltb now (a.last_heartbeat + config.heartbeat_interval_seconds))
            ≡ false)
          (error : HostedError)
          → (ensure_enrolled request runner config a).0 ≡ raised error
          → Here (ensure_enrolled request runner config a).1
          → Here (maybe_heartbeat request runner config now now' force a).1
      raised_case due transport_error e h1 = rw (due, e, maybe_heartbeat) h1
      raised_case due revoked e h1 = rw (due, e, maybe_heartbeat) h1
      raised_case due enrollment_error e h1 = rw (due, e, maybe_heartbeat) h1
      raised_case due other_error e h1 = rw (due, e, maybe_heartbeat) h1

  try_tick-Holds :
      (tick : Tick) (a : HostedAgent N E) → Here a → Here (try_tick request runner config tick a).1
  unfolding try_tick
  try_tick-Holds tick a h =
      let beaten = maybe_heartbeat request runner config tick.now tick.now' false a in
      let h1 = maybe_heartbeat-Holds tick.now tick.now' false a h in
      elim (Ended-cases beaten.0) [
        | inr (error, stopped) ↦ rw (stopped, try_tick) h1
        | inl (sent, done) ↦ rw (done, try_tick) (poll_once-Holds beaten.1 h1)
      ]

  run_loop-Holds :
      (ticks : List Tick) (backoff : ℕ) (slept : List ℕ) (a : HostedAgent N E)
      → Here a
      → Here (run_loop request runner config ticks backoff slept a).1
  unfolding run_loop
  run_loop-Holds [] backoff slept a h = h
  run_loop-Holds (tick ∷ ticks) backoff slept a h =
      tried_case (try_tick request runner config tick a).0 refl (try_tick-Holds tick a h)
        (λ backoff slept. run_loop-Holds ticks backoff slept _ (try_tick-Holds tick a h))
    where
      tried_case :
          (ended : Ended Unit)
          → (try_tick request runner config tick a).0 ≡ ended
          → Here (try_tick request runner config tick a).1
          → ((backoff : ℕ) (slept : List ℕ)
              → Here
                  (run_loop request runner config ticks backoff slept
                    (try_tick request runner config tick a).1).1)
          → Here (run_loop request runner config (tick ∷ ticks) backoff slept a).1
      tried_case (ok done) e h1 next = rw (e, run_loop) (next _ _)
      tried_case (raised transport_error) e h1 next = rw (e, run_loop) (next _ _)
      tried_case (raised revoked) e h1 next = rw (e, run_loop) h1
      tried_case (raised enrollment_error) e h1 next = rw (e, run_loop) h1
      tried_case (raised other_error) e h1 next = rw (e, run_loop) h1

  pub run-Holds :
      (ticks : List Tick) (a : HostedAgent N E)
      → Here a
      → Here (run request runner config ticks a).1
  unfolding run
  run-Holds ticks a h = run_loop-Holds ticks config.reconnect_backoff_min [] a h
