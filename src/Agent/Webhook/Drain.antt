-- ===== src/Agent/Webhook/Drain.antt =====
-- The draining of the nudges in webhook.py ends, and treats each pending document once.
use paperless_assistant.Base.{
  ℕ, suc, ◌+◌, ◌≡◌, refl, sym, ap, ◌∙◌, true, false, not, ◌||◌, Option, none, some, List, [], ◌∷◌,
  arith, length, nat_eq, string_eq, pair_eq, contains, Distinct, contains-append,
  Distinct-append_one, without_absent,
}
use paperless_assistant.Base.Dict.{lookup, lookup-insert_self}
use mathlib.Core.Path.{subst}
use paperless_assistant.Agent.Webhook.{
  NudgeQueue, is_debounced, enqueue, next_pending, mark_done, is_done, drain_loop, drain,
  process_all,
}

-- The pending ids are distinct.
abbrev pub QueueValid : NudgeQueue → Type 0
QueueValid q = Distinct q.pending

-- A nudge that is not debounced is pending, one that is debounced changes neither list; the pending
-- ids stay distinct in both cases.
pub enqueue_pending :
    (debounce_seconds now doc_id : ℕ) (q : NudgeQueue)
    → QueueValid q
    → let (newly, q') = enqueue debounce_seconds now doc_id q in
      QueueValid q'
      × (newly ≡ not (is_debounced debounce_seconds now (lookup doc_id q.last_seen)))
      × (newly ≡ true → contains doc_id q'.pending ≡ true)
      × (newly ≡ false → q'.pending ≡ q.pending)
      × (lookup doc_id q'.last_seen ≡ some now)
unfolding enqueue
enqueue_pending debounce_seconds now doc_id q h = ground (
  arith,
  Distinct-append_one q.pending doc_id h,
  contains-append doc_id q.pending (doc_id ∷ []),
  nat_eq.test_iff doc_id doc_id,
  lookup-insert_self doc_id now q.last_seen,
)

module _ {S : Type 0} (process : ℕ → S → S) where
  -- the queue once all that is pending is marked done
  abbrev pub mark_all : List ℕ → NudgeQueue → NudgeQueue
  mark_all [] q = q
  mark_all (doc_id ∷ rest) q = mark_all rest (mark_done doc_id q)

  pending-mark_done :
      (doc_id : ℕ) (rest : List ℕ) (q : NudgeQueue)
      → q.pending ≡ doc_id ∷ rest
      → Distinct (doc_id ∷ rest)
      → (mark_done doc_id q).pending ≡ rest
  unfolding mark_done
  pending-mark_done doc_id rest q e h =
      rw e (ground (arith, without_absent doc_id rest h.0, nat_eq.test_iff doc_id doc_id))

  drain_loop-next :
      (fuel n doc_id : ℕ) (rest : List ℕ) (q : NudgeQueue) (s : S)
      → q.pending ≡ doc_id ∷ rest
      → drain_loop process (suc fuel) n q s
        ≡ drain_loop process fuel (n + 1) (mark_done doc_id q) (process doc_id s)
  unfolding drain_loop next_pending
  drain_loop-next fuel n doc_id rest q s e =
      subst
        (λ pending.
          elim (elim pending as (λ _. Option ℕ) [ [] ↦ none | d ∷ ds ↦ some d ])
            as (λ _. Option (ℕ × NudgeQueue × S)) [
              | none ↦ some (n, q, s)
              | some d ↦ drain_loop process fuel (n + 1) (mark_done d q) (process d s)
            ]
          ≡ drain_loop process fuel (n + 1) (mark_done doc_id q) (process doc_id s))
        (sym e) refl

  drain_loop-empty :
      (fuel n : ℕ) (q : NudgeQueue) (s : S)
      → q.pending ≡ []
      → drain_loop process (suc fuel) n q s ≡ some (n, q, s)
  unfolding drain_loop next_pending
  drain_loop-empty fuel n q s e =
      subst
        (λ pending.
          elim (elim pending as (λ _. Option ℕ) [ [] ↦ none | d ∷ ds ↦ some d ])
            as (λ _. Option (ℕ × NudgeQueue × S)) [
              | none ↦ some (n, q, s)
              | some d ↦ drain_loop process fuel (n + 1) (mark_done d q) (process d s)
            ]
          ≡ some (n, q, s))
        (sym e) refl

  drain_loop_all :
      (pending : List ℕ) (n : ℕ) (q : NudgeQueue) (s : S)
      → q.pending ≡ pending
      → Distinct pending
      → drain_loop process (suc (length pending)) n q s
        ≡ some (n + length pending, mark_all pending q, process_all process pending s)
  drain_loop_all [] n q s e h = drain_loop-empty 0 n q s e ∙ ap (λ m. some (m, q, s)) (omega arith)
  drain_loop_all (doc_id ∷ rest) n q s e h =
      drain_loop-next (suc (length rest)) n doc_id rest q s e
      ∙ drain_loop_all rest (n + 1) (mark_done doc_id q) (process doc_id s)
          (pending-mark_done doc_id rest q e h) h.1
      ∙ ap
          (λ m.
            some
              (m, mark_all rest (mark_done doc_id q), process_all process rest (process doc_id s)))
          (omega arith)

  mark_all_done :
      (pending : List ℕ) (d : ℕ) (q : NudgeQueue)
      → is_done d q || contains d pending ≡ true
      → is_done d (mark_all pending q) ≡ true
  unfolding is_done mark_done
  mark_all_done [] d q h = ground arith
  mark_all_done (doc_id ∷ rest) d q h =
      mark_all_done rest d (mark_done doc_id q)
        (ground (arith, contains-append d q.done (doc_id ∷ []), nat_eq.test_iff doc_id d))

  mark_all_pending :
      (pending : List ℕ) (q : NudgeQueue)
      → q.pending ≡ pending
      → Distinct pending
      → (mark_all pending q).pending ≡ []
  mark_all_pending [] q e h = e
  mark_all_pending (doc_id ∷ rest) q e h =
      mark_all_pending rest (mark_done doc_id q) (pending-mark_done doc_id rest q e h) h.1

-- Draining a queue with distinct pending ids ends: it treats the pending documents in their order,
-- each of them once, and returns their number; then nothing is pending, and each of them is done.
pub drain_empties :
    {S : Type 0} (process : ℕ → S → S) (q : NudgeQueue) (s : S)
    → QueueValid q
    → (q' : NudgeQueue) × (drain process q s
        ≡ some (length q.pending, q', process_all process q.pending s))
      × (q'.pending ≡ [])
      × ((d : ℕ) → contains d q.pending ≡ true → is_done d q' ≡ true)
unfolding drain
drain_empties process q s h = (
  mark_all process q.pending q,
  drain_loop_all process q.pending 0 q s refl h
      ∙ ap (λ m. some (m, mark_all process q.pending q, process_all process q.pending s))
          (omega arith),
  mark_all_pending process q.pending q refl h,
  λ d pending. mark_all_done process q.pending d q (ground arith),
)
