-- ===== src/Agent/Safety/Superseded.antt =====
-- What `mark_old_superseded` of safety.py leaves of the old document.
use paperless_assistant.Base.{
  ℕ, ◌≡◌, refl, ap, ◌∙◌, true, false, not, String, Option, some, List, [], ◌∷◌, ◌++◌, arith, All,
  filter, filter_idem, filter-append, nat_beq, nat_beq_iff, is_some, ◌==◌, nat_eq, string_eq,
  pair_eq, if◌then◌else◌, contains, contains-append,
}
use mathlib.Core.List.{append-nil}
use paperless_assistant.Agent.Fields.{
  Value, value_eq, triaged, reocr_done, Resolver, stage_option_for_role,
}
use paperless_assistant.Agent.Fields.Roles.{ResolverValid, role_for_value-stage_option_for_role}
use paperless_assistant.Agent.Stages.{CustomField, Document, already_triaged, reocr_matches}
use paperless_assistant.Agent.Safety.{mark_old_superseded}
use paperless_assistant.Agent.Safety.Merge.{value_at-append, triaged_loop-append}

pub kept_no_stage :
    (r : Resolver) (xs : List CustomField)
    → All
        (λ (x : CustomField). nat_beq x.field r.stage.id ≡ false)
        (filter (λ (x : CustomField). not (nat_beq x.field r.stage.id)) xs)
kept_no_stage r [] = tt
kept_no_stage r (x ∷ xs) = ground (arith, kept_no_stage r xs)

-- two roles are not written as one value
roles_differ :
    (r : Resolver) (a b : Value)
    → ResolverValid r
    → stage_option_for_role triaged r ≡ some a
    → stage_option_for_role reocr_done r ≡ some b
    → (b == a) ≡ false
roles_differ r a b valid ta tb = ground (
  arith,
  value_eq.test_iff b a,
  role_for_value-stage_option_for_role r triaged a valid ta,
  role_for_value-stage_option_for_role r reocr_done b valid tb,
)

-- A document that is marked as superseded has the tag, and keeps its tags; it counts as triaged, and
-- is taken for re-OCR at no threshold; the entries of the other fields stay as they are. The
-- resolver is valid, and the stage has options for "triaged" and "reocr_done".
pub mark_old_superseded-meaning :
    (float : String → Option ℕ) (r : Resolver) (doc : Document) (tag threshold : ℕ) (a b : Value)
    → ResolverValid r
    → stage_option_for_role triaged r ≡ some a
    → stage_option_for_role reocr_done r ≡ some b
    → (tags : List ℕ) × (fields : List CustomField) × (mark_old_superseded r doc tag
        ≡ some (tags, fields))
      × ((t : ℕ) → contains t tags ≡ (if tag == t then true else contains t doc.tags))
      × (already_triaged r (record doc { tags = tags; custom_fields = fields }) ≡ true)
      × (reocr_matches float r threshold (record doc { tags = tags; custom_fields = fields })
          ≡ some false)
      × (filter (λ (x : CustomField). not (nat_beq x.field r.stage.id)) fields
          ≡ filter (λ (x : CustomField). not (nat_beq x.field r.stage.id)) doc.custom_fields)
unfolding mark_old_superseded already_triaged reocr_matches
mark_old_superseded-meaning float r doc tag threshold a b valid ta tb =
    let others = λ (x : CustomField). not (nat_beq x.field r.stage.id) in
    let entry : CustomField = record { field = r.stage.id; value = b } in
    let kept = filter others doc.custom_fields in
    (
      if contains tag doc.tags then doc.tags else doc.tags ++ tag ∷ [],
      kept ++ entry ∷ [],
      rw tb refl,
      λ t. ground (arith, contains-append t doc.tags (tag ∷ []), nat_eq.test_iff tag t),
      triaged_loop-append r kept entry (kept_no_stage r doc.custom_fields)
            (ground (arith, nat_beq_iff r.stage.id r.stage.id)) []
          ∙ ap is_some (role_for_value-stage_option_for_role r reocr_done b valid tb),
      rw ta (
          ap some (
            ground (
              arith,
              value_at-append r.stage.id kept entry,
              nat_beq_iff r.stage.id r.stage.id,
              roles_differ r a b valid ta tb,
            ))),
      filter-append others kept (entry ∷ [])
          ∙ ground (
            arith,
            filter_idem others doc.custom_fields,
            append-nil kept,
            nat_beq_iff r.stage.id r.stage.id,
          ),
    )
