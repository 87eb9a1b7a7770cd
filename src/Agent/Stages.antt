-- ===== src/Agent/Stages.antt =====
-- src/paperless_assistant/stages.py: which documents each stage takes, and the queues. Python's
-- `float` of a text is a parameter; a document has what the predicates read.
pub mod Queues
use paperless_assistant.Base.{
  ◌>>=◌, ℕ, zero, suc, refl, inl, inr, Bool, true, false, not, ◌&&◌, String, Option, none, some,
  List, [], ◌∷◌, ◌++◌, arith, length, leb, nat_beq, is_some, ◌==◌, nat_eq, string_eq, pair_eq,
  if◌then◌else◌, contains,
}
use paperless_assistant.Base.Dict.{get_or}
use paperless_assistant.Agent.Fields.{
  Value, null, number, word, value_eq, triaged, Resolver, dict_of, stage_option_for_role,
  stage_label_from_value, role_for_value,
}

pub record CustomField : Type 0 where
  pub field : ℕ
  pub value : Value

pub record Document : Type 0 where
  pub id : ℕ
  pub tags : List ℕ
  pub custom_fields : List CustomField

-- the loop of `already_triaged`: the first entry of the stage field decides
unfoldable pub triaged_loop : Resolver → List CustomField → Bool
triaged_loop r [] = false
triaged_loop r (cf ∷ fields) =
    let rest = triaged_loop r fields in
    if nat_beq cf.field r.stage.id then is_some (role_for_value cf.value r) else rest

unfoldable pub already_triaged : Resolver → Document → Bool
unfolding triaged_loop
already_triaged r doc = triaged_loop r doc.custom_fields

abbrev pub pairs_of : List CustomField → List (ℕ × Value)
pairs_of [] = []
pairs_of (cf ∷ fields) = (cf.field, cf.value) ∷ pairs_of fields

-- `{c["field"]: c.get("value") for c in custom_fields}.get(field)`
unfoldable pub value_at : ℕ → List CustomField → Value
unfolding dict_of
value_at field fields = get_or field null (dict_of (pairs_of fields) [])

module _ (float : String → Option ℕ) where
  -- `value is not None and float(value) >= threshold`, false where `float` fails
  unfoldable pub at_least : ℕ → Value → Bool
  at_least threshold null = false
  at_least threshold (number n) = leb threshold n
  at_least threshold (word s) = elim (float s) [ none ↦ false | some n ↦ leb threshold n ]

  -- `none` exits, since the stage has no option for "triaged"
  unfoldable pub reocr_matches : Resolver → ℕ → Document → Option Bool
  unfolding value_at at_least
  reocr_matches r threshold doc = do
    triaged_id ← stage_option_for_role triaged r
    some (
        if value_at r.stage.id doc.custom_fields == triaged_id
        then at_least threshold (value_at r.score.id doc.custom_fields)
        else false)

  unfoldable pub metadata_eligible : Resolver → List Value → ℕ → Document → Bool
  unfolding value_at at_least
  metadata_eligible r eligible_labels garbage_threshold doc =
      let stage_label = stage_label_from_value (value_at r.stage.id doc.custom_fields) r in
      if not (contains stage_label eligible_labels)
      then false
      else not (at_least garbage_threshold (value_at r.score.id doc.custom_fields))

-- The loop of the queues: a document that the stage takes is appended, and the loop ends once there
-- are `limit`; a limit of 0 is none.
unfoldable pub fetch_loop :
    (Document → Option Bool) → ℕ → List Document → List Document → Option (List Document)
fetch_loop takes limit docs [] = some docs
fetch_loop takes limit docs (d ∷ rest) =
    let docs' = docs ++ d ∷ [] in
    let more = fetch_loop takes limit docs' rest in
    let skipped = fetch_loop takes limit docs rest in
    elim (takes d) [
      | none ↦ none
      | some false ↦ skipped
      | some true ↦ if not (nat_beq limit 0) && leb limit (length docs') then some docs' else more
    ]

unfoldable pub fetch_triage_queue : ℕ → List Document → Option (List Document)
unfolding fetch_loop
fetch_triage_queue limit all = fetch_loop (λ d. some true) limit [] all

unfoldable pub fetch_reocr_queue :
    (String → Option ℕ) → Resolver → ℕ → ℕ → List Document → Option (List Document)
unfolding fetch_loop reocr_matches
fetch_reocr_queue float r threshold limit all =
    fetch_loop (reocr_matches float r threshold) limit [] all

unfoldable pub fetch_metadata_queue :
    (String → Option ℕ) → Resolver → List Value → ℕ → ℕ → List Document → Option (List Document)
unfolding fetch_loop metadata_eligible
fetch_metadata_queue float r eligible_labels garbage_threshold limit all =
    fetch_loop (λ d. some (metadata_eligible float r eligible_labels garbage_threshold d)) limit []
      all
