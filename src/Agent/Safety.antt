-- ===== src/Agent/Safety.antt =====
-- src/paperless_assistant/safety.py: the snapshots and the merging of the custom fields, with the
-- fields that ocr.py gives to a document that it re-consumed. What a PATCH request carries is the
-- result of a definition; the request itself is not modelled.
pub mod Merge
pub mod Superseded
pub mod Snapshots
use paperless_assistant.Base.{
  ◌>>=◌, ℕ, zero, suc, refl, inl, inr, Bool, true, false, not, ◌||◌, String, Option, none, some,
  List, [], ◌∷◌, ◌++◌, arith, filter, nat_beq, nat_eq, string_eq, pair_eq, if◌then◌else◌, contains,
}
use paperless_assistant.Base.Dict.{Dict, lookup, set_default}
use paperless_assistant.Base.Text.{clip}
use paperless_assistant.Agent.Fields.{
  word, value_eq, triaged, reocr_done, Resolver, coerce_score, stage_option_for_role,
}
use paperless_assistant.Agent.Stages.{CustomField, Document}

-- the files of `snapshot_dir` by document
abbrev pub Snapshots : Type 0
Snapshots = Dict ℕ Document

unfoldable pub snapshot : Document → Snapshots → Snapshots
snapshot doc s = set_default doc.id doc s

unfoldable pub load_snapshot : ℕ → Snapshots → Option Document
load_snapshot doc_id s = lookup doc_id s

-- whether a field is none of the three that triage writes
abbrev pub is_foreign : Resolver → CustomField → Bool
is_foreign r cf =
    not (nat_beq cf.field r.score.id || nat_beq cf.field r.stage.id || nat_beq cf.field r.notes.id)

-- `none` exits, since the stage has no option for "triaged"
unfoldable pub merge_triage_fields :
    (ℕ → String) → Resolver → List CustomField → ℕ → String → Option (List CustomField)
unfolding coerce_score clip
merge_triage_fields str r existing score note = do
  stage ← stage_option_for_role triaged r
  some (
      filter (is_foreign r) existing
      ++ record { field = r.score.id; value = coerce_score str score r.score.data_type }
        ∷ record { field = r.stage.id; value = stage }
        ∷ record { field = r.notes.id; value = word (clip 255 note) }
        ∷ [])

-- the tags and the custom fields of the old document
unfoldable pub mark_old_superseded : Resolver → Document → ℕ → Option (List ℕ × List CustomField)
mark_old_superseded r old_doc superseded_tag_id = do
  stage ← stage_option_for_role reocr_done r
  some (
    if contains superseded_tag_id old_doc.tags
        then old_doc.tags
        else old_doc.tags ++ superseded_tag_id ∷ [],
    filter (λ (cf : CustomField). not (nat_beq cf.field r.stage.id)) old_doc.custom_fields
        ++ record { field = r.stage.id; value = stage } ∷ [],
  )
