-- ===== src/Agent/Hosted/Backoff.antt =====
-- The delays of the loop in hosted.py.
use paperless_assistant.Base.{
  ℕ, ◌*◌, ◌≤◌, ◌≡◌, refl, List, [], ◌∷◌, ◌++◌, arith, All, All-append, nat_eq, string_eq, pair_eq,
}
use Prim.Native.Nat.{min}
use paperless_assistant.Agent.Hosted.{
  HostedJob, Report, WireRequest, Sent, transport_error, revoked, enrollment_error, other_error,
  Ended, ok, raised, HostedAgent, HostedConfig,
}
use paperless_assistant.Agent.Hosted.Loop.{Tick, try_tick, backoff_delay, run_loop, run}

-- `random.uniform(0, base)` is at most `base`.
abbrev pub Uniform : Tick → Type 0
Uniform tick = (base : ℕ) → tick.uniform base ≤ base

-- every delay that was slept is within the bound, if the loop returns
abbrev pub DelaysWithin : ℕ → Ended (List ℕ) → Type 0
DelaysWithin max (ok slept) = All (λ delay. delay ≤ max) slept
DelaysWithin max (raised error) = Unit

module _ {N E : Type 0} (request : WireRequest → N → Sent × N)
    (runner : HostedJob → E → Ended Report × E) (config : HostedConfig) where
  run_loop-DelaysWithin :
      (ticks : List Tick) (backoff : ℕ) (slept : List ℕ) (a : HostedAgent N E)
      → All Uniform ticks
      → All (λ delay. delay ≤ config.reconnect_backoff_max) slept
      → DelaysWithin config.reconnect_backoff_max
          (run_loop request runner config ticks backoff slept a).0
  unfolding run_loop backoff_delay
  run_loop-DelaysWithin [] backoff slept a uniform within = within
  run_loop-DelaysWithin (tick ∷ ticks) backoff slept a uniform within =
      tried_case (try_tick request runner config tick a).0 refl
        (run_loop-DelaysWithin ticks config.reconnect_backoff_min slept _ uniform.1 within)
        (run_loop-DelaysWithin ticks _ _ _ uniform.1 (
          All-append (λ delay. delay ≤ config.reconnect_backoff_max) slept
            (backoff_delay request runner config tick.uniform backoff ∷ []) within
            (omega (arith, uniform.0 (min backoff config.reconnect_backoff_max)), tt)))
    where
      tried_case :
          (ended : Ended Unit)
          → (try_tick request runner config tick a).0 ≡ ended
          → DelaysWithin config.reconnect_backoff_max
              (run_loop request runner config ticks config.reconnect_backoff_min slept
                (try_tick request runner config tick a).1).0
          → DelaysWithin config.reconnect_backoff_max
              (run_loop request runner config ticks
                (min (backoff * 2) config.reconnect_backoff_max)
                (slept ++ backoff_delay request runner config tick.uniform backoff ∷ [])
                (try_tick request runner config tick a).1).0
          → DelaysWithin config.reconnect_backoff_max
              (run_loop request runner config (tick ∷ ticks) backoff slept a).0
      tried_case (ok done) e healthy again = rw (e, run_loop) healthy
      tried_case (raised transport_error) e healthy again = rw (e, run_loop) again
      tried_case (raised revoked) e healthy again = rw (e, run_loop) within
      tried_case (raised enrollment_error) e healthy again = rw (e, run_loop) tt
      tried_case (raised other_error) e healthy again = rw (e, run_loop) tt

-- If the random number that `uniform(0, base)` draws is at most `base`, no delay between two
-- attempts of the loop is longer than the configured maximum.
pub run-DelaysWithin :
    {N E : Type 0} (request : WireRequest → N → Sent × N)
    (runner : HostedJob → E → Ended Report × E) (config : HostedConfig) (ticks : List Tick)
    (a : HostedAgent N E)
    → All Uniform ticks
    → DelaysWithin config.reconnect_backoff_max (run request runner config ticks a).0
unfolding run
run-DelaysWithin request runner config ticks a uniform =
    run_loop-DelaysWithin request runner config ticks config.reconnect_backoff_min [] a uniform tt
