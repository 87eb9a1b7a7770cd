-- ===== src/Agent/Ocr.antt =====
-- src/paperless_assistant/ocr.py: the re-OCR of one document. The REST client, the provider and the
-- PDF builder are parameters; what is sent to Paperless is kept in a list. The garbage score, the
-- file name, the files that are written and the observing hook `on_record` are not modelled.
pub mod Writes
use paperless_assistant.Base.{
  ◌>>=◌, ℕ, zero, suc, refl, inl, inr, Bool, true, false, not, String, Option, none, some, List, [],
  ◌∷◌, ◌++◌, arith, nat_beq, ◌==◌, nat_eq, string_eq, pair_eq, if◌then◌else◌,
}
use paperless_assistant.Base.Money.{Usd}
use paperless_assistant.Base.Text.{strip, clip, concat}
use paperless_assistant.Agent.Fields.{
  Value, null, word, value_eq, reocr_done, Resolver, stage_option_for_role,
}
use paperless_assistant.Agent.Stages.{CustomField, Document, value_at}
use paperless_assistant.Agent.Safety.{Snapshots, snapshot, mark_old_superseded}
use paperless_assistant.Agent.Spend.{SpendGovernor, add, should_abort}

pub record Transcription : Type 0 where
  pub words : String
  pub cost : Usd

-- What the pipeline calls: `none` is an exception. `find_new_doc` may also find nothing, and
-- `patched` says whether a PATCH of a document goes through.
pub record OcrClient : Type 0 where
  pub vision : Bool
  pub download_original : ℕ → Option String
  pub transcribe : String → Option Transcription
  pub post_document : ℕ → String → Option String
  pub find_new_doc : String → Option (Option ℕ)
  pub patched : ℕ → Bool

-- what the pipeline does to the outside, one thing behind the other: the snapshot that it takes, the
-- cost that it adds to the governor, and the requests that change something in Paperless
pub data Effect : Type 0 where
  snapshotted : ℕ → Effect
  charged : Usd → Effect
  consume : ℕ → Effect
  patch_fields : ℕ → List CustomField → Effect
  patch_superseded : ℕ → List ℕ × List CustomField → Effect

pub record OcrState : Type 0 where
  pub snapshots : Snapshots
  pub spend : SpendGovernor
  pub effects : List Effect

pub data OcrStatus : Type 0 where
  capability_error spend_cap failed empty_ocr dry no_new_id : OcrStatus
  done : ℕ → OcrStatus

-- what `_apply_post_consume_metadata` gives to the new document; `str` is Python's
unfoldable pub post_consume_fields :
    (Value → String) → (ℕ → String) → Resolver → Document → Option (List CustomField)
unfolding value_at clip concat
post_consume_fields str str_id r old_doc = do
  let score = value_at r.score.id old_doc.custom_fields
  let notes = value_at r.notes.id old_doc.custom_fields
  let kept = if notes == null then "" else str notes
  let note = clip 255 (concat "reocr from doc " (concat (str_id old_doc.id) (concat "; " kept)))
  stage ← stage_option_for_role reocr_done r
  some (
      record { field = r.stage.id; value = stage }
      ∷ record { field = r.notes.id; value = word note }
      ∷ (if score == null then [] else record { field = r.score.id; value = score } ∷ []))

abbrev pub send : Effect → OcrState → OcrState
send e s = record s { effects = s.effects ++ e ∷ [] }

-- `safety.snapshot(doc)`
abbrev pub take_snapshot : Document → OcrState → OcrState
take_snapshot doc s = record {
  snapshots = snapshot doc s.snapshots;
  spend = s.spend;
  effects = s.effects ++ snapshotted doc.id ∷ [];
}

-- `spend.add(cost)`
abbrev pub charge : Usd → OcrState → OcrState
charge cost s = record {
  snapshots = s.snapshots;
  spend = add cost s.spend;
  effects = s.effects ++ charged cost ∷ [];
}

module _ (client : OcrClient) (str : Value → String) (str_id : ℕ → String) (r : Resolver)
    (doc : Document) (superseded_tag_id : ℕ) where
  -- `mark_old_superseded` for the old document
  unfoldable pub supersede : ℕ → OcrState → OcrStatus × OcrState
  unfolding mark_old_superseded
  supersede new_id s = elim (mark_old_superseded r doc superseded_tag_id) [
    | none ↦ (failed, s)
    | some patch ↦ (
      if client.patched doc.id then done new_id else failed,
      send (patch_superseded doc.id patch) s,
    )
  ]

  -- `_apply_post_consume_metadata`, then the old document
  unfoldable pub finish : ℕ → OcrState → OcrStatus × OcrState
  unfolding post_consume_fields supersede
  finish new_id s = elim (post_consume_fields str str_id r doc) [
    | none ↦ (failed, s)
    | some fields ↦
        let s' = send (patch_fields new_id fields) s in
        if client.patched new_id then supersede new_id s' else (failed, s')
  ]

  -- the upload of the corrected PDF, and what follows
  unfoldable pub reconsume : String → OcrState → OcrStatus × OcrState
  unfolding finish
  reconsume text s =
      let s' = send (consume doc.id) s in
      elim (client.post_document doc.id text) [
        | none ↦ (failed, s')
        | some task_uuid ↦ elim (client.find_new_doc task_uuid) [
          | none ↦ (failed, s')
          | some none ↦ (no_new_id, s')
          | some (some new_id) ↦ if nat_beq new_id 0 then (no_new_id, s') else finish new_id s'
        ]
      ]

  -- the part behind the transcription, whose cost is added first
  unfoldable pub transcribed : Bool → Transcription → OcrState → OcrStatus × OcrState
  unfolding reconsume add strip
  transcribed dry_run t s =
      let s' = charge t.cost s in
      if strip t.words == ""
      then (empty_ocr, s')
      else if dry_run
      then (dry, s')
      else reconsume t.words s'

  unfoldable pub process_one : Bool → OcrState → OcrStatus × OcrState
  unfolding transcribed snapshot should_abort
  process_one dry_run s =
      let s' = take_snapshot doc s in
      if not client.vision
      then (capability_error, s)
      else if should_abort s.spend
      then (spend_cap, s')
      else elim (client.download_original doc.id) [
        | none ↦ (failed, s')
        | some original ↦ elim (client.transcribe original) [
          | none ↦ (failed, s')
          | some t ↦ transcribed dry_run t s'
        ]
      ]
