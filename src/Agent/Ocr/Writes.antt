-- ===== src/Agent/Ocr/Writes.antt =====
-- What the re-OCR of a document in ocr.py does to the outside, and in which order.
use paperless_assistant.Base.{
  ℕ, ◌≡◌, ◌⊎◌, Bool, false, String, some, List, [], ◌∷◌, ◌++◌, nat_eq, string_eq, pair_eq,
}
use paperless_assistant.Base.Money.{Usd}
use paperless_assistant.Agent.Fields.{Value, Resolver}
use paperless_assistant.Agent.Stages.{CustomField, Document}
use paperless_assistant.Agent.Safety.{snapshot, mark_old_superseded}
use paperless_assistant.Agent.Spend.{add, should_abort}
use paperless_assistant.Agent.Ocr.{
  Transcription, OcrClient, Effect, consume, patch_fields, patch_superseded, OcrState, OcrStatus,
  snapshotted, charged, failed, done, post_consume_fields,
}

abbrev pub NotDone : OcrStatus → Type 0
NotDone (done new_id) = ⊥
NotDone _ = Unit

module _ (client : OcrClient) (str : Value → String) (str_id : ℕ → String) (r : Resolver)
    (doc : Document) (tag : ℕ) where
  abbrev sent : List Effect → OcrState → OcrState
  sent ws s = record s { effects = s.effects ++ ws }

  -- The document is uploaded; then the new document gets its fields; then the old one is marked, and
  -- only behind this the pipeline says that it is done.
  pub data Sent (s : OcrState) (o : OcrStatus × OcrState) : Type 0 where
    uploaded : o.1 ≡ sent (consume doc.id ∷ []) s → NotDone o.0 → Sent s o
    carried :
        (new_id : ℕ) (fields : List CustomField)
        → post_consume_fields str str_id r doc ≡ some fields
        → o.1 ≡ sent (consume doc.id ∷ patch_fields new_id fields ∷ []) s
        → NotDone o.0
        → Sent s o
    superseded :
        (new_id : ℕ) (fields : List CustomField) (patch : List ℕ × List CustomField)
        → post_consume_fields str str_id r doc ≡ some fields
        → mark_old_superseded r doc tag ≡ some patch
        → o.1
          ≡ sent
              (consume doc.id ∷ patch_fields new_id fields ∷ patch_superseded doc.id patch ∷ [])
              s
        → (o.0 ≡ failed) ⊎ (o.0 ≡ done new_id)
        → Sent s o

  -- the state with the snapshot of the document, taken behind all that has happened
  abbrev with_snapshot : OcrState → OcrState
  with_snapshot s = record {
    snapshots = snapshot doc s.snapshots;
    spend = s.spend;
    effects = s.effects ++ snapshotted doc.id ∷ [];
  }

  -- the same with the cost of a transcription behind the snapshot
  abbrev with_cost : Usd → OcrState → OcrState
  with_cost cost s = record {
    snapshots = snapshot doc s.snapshots;
    spend = add cost s.spend;
    effects = s.effects ++ snapshotted doc.id ∷ charged cost ∷ [];
  }

  -- Nothing happens; or the snapshot is taken and nothing else; or behind the snapshot the cost of a
  -- transcription is added and nothing is sent; or behind the snapshot and the cost the requests
  -- follow.
  pub data OcrSpec (dry_run : Bool) (s : OcrState) (o : OcrStatus × OcrState) : Type 0 where
    refused : (o.1 ≡ s) ⊎ (o.1 ≡ with_snapshot s) → NotDone o.0 → OcrSpec dry_run s o
    unsent :
        (t : Transcription)
        → should_abort s.spend ≡ false
        → o.1 ≡ with_cost t.cost s
        → NotDone o.0
        → OcrSpec dry_run s o
    wrote :
        (t : Transcription)
        → should_abort s.spend ≡ false
        → dry_run ≡ false
        → Sent (with_cost t.cost s) o
        → OcrSpec dry_run s o
