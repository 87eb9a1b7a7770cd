-- ===== src/Agent/Webhook.antt =====
-- src/paperless_assistant/webhook.py: the queue of nudges, its draining, and the handler of the
-- webhook. A queue is the content of its file; the lock and the HTTP server are not modelled. The
-- pipeline behind `process_fn` is a parameter that acts on a state of its own; an exception of it
-- is caught and logged, so that it is a state like any other.
pub mod DocUrl
pub mod DocId
pub mod Receiver
pub mod Drain
pub mod Handled
use paperless_assistant.Base.{
  ℕ, zero, suc, ◌+◌, refl, inl, inr, Bool, true, false, Option, none, some, List, [], ◌∷◌, ◌++◌,
  arith, length, ltb, nat_eq, string_eq, pair_eq, if◌then◌else◌, contains, without,
}
use paperless_assistant.Base.Dict.{Dict, lookup, insert}

pub record NudgeQueue : Type 0 where
  pub pending : List ℕ
  pub done : List ℕ
  pub last_seen : Dict ℕ ℕ

abbrev pub empty_queue : NudgeQueue
empty_queue = record { pending = []; done = []; last_seen = [] }

-- whether a nudge seen at `last` debounces one at `now`
unfoldable pub is_debounced : ℕ → ℕ → Option ℕ → Bool
is_debounced debounce_seconds now none = false
is_debounced debounce_seconds now (some last) = ltb now (last + debounce_seconds)

unfoldable pub enqueue : ℕ → ℕ → ℕ → NudgeQueue → Bool × NudgeQueue
unfolding is_debounced
enqueue debounce_seconds now doc_id q =
    let last_seen = insert doc_id now q.last_seen in
    let pending = if contains doc_id q.pending then q.pending else q.pending ++ doc_id ∷ [] in
    if is_debounced debounce_seconds now (lookup doc_id q.last_seen)
    then (false, record q { last_seen = last_seen })
    else (true, record q { pending = pending; last_seen = last_seen })

unfoldable pub next_pending : NudgeQueue → Option ℕ
next_pending q = elim q.pending [ [] ↦ none | doc_id ∷ rest ↦ some doc_id ]

unfoldable pub mark_done : ℕ → NudgeQueue → NudgeQueue
mark_done doc_id q = record q {
  pending = without doc_id q.pending;
  done = if contains doc_id q.done then q.done else q.done ++ doc_id ∷ [];
}

unfoldable pub is_done : ℕ → NudgeQueue → Bool
is_done doc_id q = contains doc_id q.done

module _ {S : Type 0} (process : ℕ → S → S) where
  -- The loop of `drain` on fuel: the count, the queue and the state; `none` without fuel.
  unfoldable pub drain_loop : ℕ → ℕ → NudgeQueue → S → Option (ℕ × NudgeQueue × S)
  unfolding next_pending mark_done
  drain_loop zero n q s = none
  drain_loop (suc fuel) n q s = elim (next_pending q) [
    | none ↦ some (n, q, s)
    | some doc_id ↦ drain_loop fuel (n + 1) (mark_done doc_id q) (process doc_id s)
  ]

  -- one round for each pending document, and one that finds the queue empty
  unfoldable pub drain : NudgeQueue → S → Option (ℕ × NudgeQueue × S)
  unfolding drain_loop
  drain q s = drain_loop (suc (length q.pending)) 0 q s

  -- the pending documents, one behind the other
  abbrev pub process_all : List ℕ → S → S
  process_all [] s = s
  process_all (doc_id ∷ rest) s = process_all rest (process doc_id s)
