-- ===== src/Agent/Metadata/Merge.antt =====
-- What the write of metadata.py keeps, and that a document is not taken again behind it.
use paperless_assistant.Base.{
  ℕ, ◌≡◌, Bool, true, false, not, String, Option, none, some, List, filter, nat_beq, nat_eq,
  string_eq, pair_eq, contains,
}
use paperless_assistant.Agent.Fields.{
  Value, word, value_eq, metadata_done, Resolver, label_for_role,
}
use paperless_assistant.Agent.Stages.{CustomField, Document, already_triaged, metadata_eligible}
use paperless_assistant.Agent.Metadata.{Metadata, Patch}

-- Whatever is merged is kept, a new name is flagged, and the document is behind the stage.
pub record Merged (r : Resolver) (new_tax_tag_id : ℕ) (doc : Document) (patch : Patch)
    (created : Bool) : Type 0 where
  pub tags_kept : (t : ℕ) → contains t doc.tags ≡ true → contains t patch.tags ≡ true
  pub flagged : created ≡ true → contains new_tax_tag_id patch.tags ≡ true
  pub fields_kept :
      filter (λ (x : CustomField). not (nat_beq x.field r.stage.id)) patch.custom_fields
      ≡ filter (λ (x : CustomField). not (nat_beq x.field r.stage.id)) doc.custom_fields
  pub triaged_now : already_triaged r (record doc { custom_fields = patch.custom_fields }) ≡ true
  pub not_again :
      (float : String → Option ℕ) (labels : List Value) (threshold : ℕ)
      → contains (word (label_for_role r.stage_names metadata_done)) labels ≡ false
      → metadata_eligible float r labels threshold
          (record doc { custom_fields = patch.custom_fields })
        ≡ false

-- what holds of the body that is sent, where there is no exception
abbrev pub MergedIfSent : Resolver → ℕ → Document → Option (Patch × Bool) → Type 0
MergedIfSent r tag doc none = Unit
MergedIfSent r tag doc (some (patch, created)) = Merged r tag doc patch created
