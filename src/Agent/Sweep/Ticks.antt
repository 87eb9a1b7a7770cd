-- ===== src/Agent/Sweep/Ticks.antt =====
-- The loop of `serve` in sweep.py survives every tick.
use paperless_assistant.Base.{
  ℕ, ◌+◌, ◌≡◌, refl, sym, ◌∙◌, List, [], ◌∷◌, ◌++◌, map, arith, nat_eq, string_eq, pair_eq,
}
use paperless_assistant.Agent.Sweep.{
  TickResult, paused, swept, failed, interval_of, tick_delay, reports_after, serve_loop, serve,
}
use mathlib.Core.List.{append_assoc, append-nil}

abbrev pub count_swept : List TickResult → ℕ
count_swept [] = 0
count_swept (paused ∷ ticks) = count_swept ticks
count_swept (swept ∷ ticks) = count_swept ticks + 1
count_swept (failed ∷ ticks) = count_swept ticks

-- all but the last
abbrev pub all_but_last : List TickResult → List TickResult
all_but_last [] = []
all_but_last (tick ∷ []) = []
all_but_last (tick ∷ next ∷ ticks) = tick ∷ all_but_last (next ∷ ticks)

pair_of : {a b : ℕ} {xs ys : List ℕ} → a ≡ b → xs ≡ ys → ◌≡◌ {A = ℕ × List ℕ} (a, xs) (b, ys)
pair_of e f = cc

count_swept-cons :
    (tick : TickResult) (ticks : List TickResult) (reports : ℕ)
    → reports_after tick reports + count_swept ticks ≡ reports + count_swept (tick ∷ ticks)
count_swept-cons paused ticks reports = refl
count_swept-cons swept ticks reports = omega arith
count_swept-cons failed ticks reports = refl

serve_loop-all :
    (interval : ℕ) (ticks : List TickResult) (reports : ℕ) (slept : List ℕ)
    → serve_loop interval ticks reports slept
      ≡ (reports + count_swept ticks, slept ++ map (tick_delay interval) (all_but_last ticks))
unfolding serve_loop
serve_loop-all interval [] reports slept = pair_of (omega arith) (sym (append-nil slept))
serve_loop-all interval (tick ∷ []) reports slept =
    pair_of (sym (omega arith) ∙ count_swept-cons tick [] reports) (sym (append-nil slept))
serve_loop-all interval (tick ∷ next ∷ ticks) reports slept =
    serve_loop-all interval (next ∷ ticks) (reports_after tick reports)
      (slept ++ tick_delay interval tick ∷ [])
    ∙ pair_of (count_swept-cons tick (next ∷ ticks) reports)
        (append_assoc slept (tick_delay interval tick ∷ []) _)

-- The loop outlives every tick, be it paused, swept or failed: it returns one report for each sweep
-- that succeeded, and sleeps behind every tick but the last, the interval, or 30 seconds at most
-- behind a failed sweep; the interval is one second at least.
pub serve-all :
    (seconds : ℕ) (ticks : List TickResult)
    → serve seconds ticks
      ≡ (count_swept ticks, map (tick_delay (interval_of seconds)) (all_but_last ticks))
unfolding serve
serve-all seconds ticks =
    serve_loop-all (interval_of seconds) ticks 0 [] ∙ pair_of (omega arith) refl
