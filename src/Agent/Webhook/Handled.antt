-- ===== src/Agent/Webhook/Handled.antt =====
-- What a request to the webhook of webhook.py does.
use paperless_assistant.Base.{
  ℕ, ◌≤◌, ◌≡◌, Bool, true, false, Option, some, [], nat_eq, string_eq, pair_eq,
}
use paperless_assistant.Agent.Webhook.{NudgeQueue, enqueue, process_all, is_done}
use paperless_assistant.Agent.Webhook.Receiver.{NudgeReply, accepted, status_of}

module _ {S : Type 0} (process : ℕ → S → S) (debounce_seconds : ℕ) (now : ℕ) (q : NudgeQueue)
    (s : S) where
  -- the queue once a document is queued
  abbrev queued : ℕ → NudgeQueue
  queued doc_id = (enqueue debounce_seconds now doc_id q).1

  -- A request is refused, or its document is debounced, or the queue with it is drained.
  pub data Handled (carries_secret : Bool) (outcome : Option (NudgeReply × NudgeQueue × S))
      : Type 0 where
    rejected :
        (reply : NudgeReply)
        → 400 ≤ status_of reply
        → outcome ≡ some (reply, q, s)
        → Handled carries_secret outcome
    debounced :
        (doc_id : ℕ) (q' : NudgeQueue)
        → carries_secret ≡ true
        → q'.pending ≡ q.pending
        → outcome ≡ some (accepted doc_id true, q', s)
        → Handled carries_secret outcome
    treated :
        (doc_id : ℕ) (q' : NudgeQueue)
        → carries_secret ≡ true
        → q'.pending ≡ []
        → is_done doc_id q' ≡ true
        → outcome ≡ some (accepted doc_id false, q', process_all process (queued doc_id).pending s)
        → Handled carries_secret outcome
