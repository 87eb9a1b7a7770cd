-- ===== src/Agent/Safety/Merge.antt =====
-- What the custom fields that safety.py merges mean to the stages.
use paperless_assistant.Base.{
  ℕ, ◌≤◌, ◌<◌, ◌≡◌, refl, sym, ap, ◌∙◌, true, false, String, Option, some, List, [], ◌∷◌, ◌++◌,
  arith, All, All-append, filter, filter_idem, filter-append, nat_beq, nat_beq_iff, is_some, nat_eq,
  string_eq, pair_eq, if◌then◌else◌, Distinct,
}
use paperless_assistant.Base.Dict.{Dict, insert, get_or, get_or-insert}
use mathlib.Core.List.{append-nil, append_assoc}
use paperless_assistant.Base.Text.{clip}
use paperless_assistant.Agent.Fields.{
  Value, null, word, value_eq, triaged, Resolver, dict_of, coerce_score, percentage,
  stage_option_for_role, role_for_value,
}
use paperless_assistant.Agent.Fields.Roles.{ResolverValid, role_for_value-stage_option_for_role}
use paperless_assistant.Agent.Stages.{
  CustomField, Document, triaged_loop, already_triaged, pairs_of, value_at, at_least, reocr_matches,
}
use paperless_assistant.Agent.Safety.{is_foreign, merge_triage_fields}

dict_of-append :
    (xs : List CustomField) (cf : CustomField) (d : Dict ℕ Value)
    → dict_of (pairs_of (xs ++ cf ∷ [])) d ≡ insert cf.field cf.value (dict_of (pairs_of xs) d)
unfolding dict_of
dict_of-append [] cf d = refl
dict_of-append (x ∷ xs) cf d = dict_of-append xs cf (insert x.field x.value d)

-- the last entry of a field counts
pub value_at-append :
    (field : ℕ) (xs : List CustomField) (cf : CustomField)
    → value_at field (xs ++ cf ∷ [])
      ≡ (if nat_beq cf.field field then cf.value else value_at field xs)
unfolding value_at
value_at-append field xs cf =
    ap (get_or field null) (dict_of-append xs cf [])
    ∙ get_or-insert cf.field field cf.value null (dict_of (pairs_of xs) [])

pub triaged_loop-append :
    (r : Resolver) (xs : List CustomField) (cf : CustomField)
    → All (λ (x : CustomField). nat_beq x.field r.stage.id ≡ false) xs
    → nat_beq cf.field r.stage.id ≡ true
    → (ys : List CustomField) → triaged_loop r (xs ++ cf ∷ ys) ≡ is_some (role_for_value cf.value r)
unfolding triaged_loop
triaged_loop-append r [] cf h e ys = rw (e, triaged_loop) refl
triaged_loop-append r (x ∷ xs) cf h e ys = ground (arith, triaged_loop-append r xs cf h.1 e ys)

-- the three fields that triage writes differ
abbrev pub FieldsDiffer : Resolver → Type 0
FieldsDiffer r = Distinct (r.score.id ∷ r.stage.id ∷ r.notes.id ∷ [])

kept_no_stage :
    (r : Resolver) (xs : List CustomField)
    → All (λ (x : CustomField). nat_beq x.field r.stage.id ≡ false) (filter (is_foreign r) xs)
kept_no_stage r [] = tt
kept_no_stage r (x ∷ xs) = ground (arith, kept_no_stage r xs)

value_at-three :
    (field : ℕ) (xs : List CustomField) (a b c : CustomField)
    → value_at field (xs ++ a ∷ b ∷ c ∷ []) ≡ (
        if nat_beq c.field field
        then c.value
        else if nat_beq b.field field
        then b.value
        else if nat_beq a.field field
        then a.value
        else value_at field xs)
value_at-three field xs a b c =
    ap (value_at field)
      (sym (append_assoc (xs ++ a ∷ []) (b ∷ []) (c ∷ []) ∙ append_assoc xs (a ∷ []) (b ∷ c ∷ [])))
    ∙ ground (
      arith,
      value_at-append field ((xs ++ a ∷ []) ++ b ∷ []) c,
      value_at-append field (xs ++ a ∷ []) b,
      value_at-append field xs a,
    )

module _ (r : Resolver) (existing : List CustomField) (score stage note : Value) where
  -- what `merge_triage_fields` writes
  abbrev written : List CustomField
  written =
      filter (is_foreign r) existing
      ++ record { field = r.score.id; value = score }
        ∷ record { field = r.stage.id; value = stage }
        ∷ record { field = r.notes.id; value = note }
        ∷ []

  written_foreign : filter (is_foreign r) written ≡ filter (is_foreign r) existing
  written_foreign =
      filter-append (is_foreign r) (filter (is_foreign r) existing) _
      ∙ ground (
        arith,
        filter_idem (is_foreign r) existing,
        append-nil (filter (is_foreign r) existing),
        nat_beq_iff r.score.id r.score.id,
        nat_beq_iff r.stage.id r.stage.id,
        nat_beq_iff r.notes.id r.notes.id,
      )

  written_value :
      (field : ℕ)
      → value_at field written ≡ (
          if nat_beq r.notes.id field
          then note
          else if nat_beq r.stage.id field
          then stage
          else if nat_beq r.score.id field
          then score
          else value_at field (filter (is_foreign r) existing))
  written_value field = value_at-three field (filter (is_foreign r) existing) _ _ _

  written_triaged : FieldsDiffer r → triaged_loop r written ≡ is_some (role_for_value stage r)
  written_triaged differ =
      ap (triaged_loop r) (
        sym (
          append_assoc (filter (is_foreign r) existing)
            (record { field = r.score.id; value = score } ∷ []) _))
      ∙ triaged_loop-append r _ (record { field = r.stage.id; value = stage })
          (All-append (λ (x : CustomField). nat_beq x.field r.stage.id ≡ false)
            (filter (is_foreign r) existing) _ (kept_no_stage r existing) (ground arith, tt))
          (ground arith) _

-- Where the stage has an option for "triaged", the fields of triage have different ids and the
-- resolver is valid: the merged fields keep every foreign entry in its order and place; a document
-- that has them counts as triaged; its notes are the note, cut at 255 characters; and it is taken
-- for re-OCR exactly if the written score reaches the threshold.
pub merge_triage_fields-meaning :
    (str : ℕ → String) (float : String → Option ℕ) (r : Resolver) (doc : Document)
    (score threshold : ℕ) (note : String) (stage : Value)
    → ResolverValid r
    → FieldsDiffer r
    → stage_option_for_role triaged r ≡ some stage
    → (merged : List CustomField) × (merge_triage_fields str r doc.custom_fields score note
        ≡ some merged)
      × (filter (is_foreign r) merged ≡ filter (is_foreign r) doc.custom_fields)
      × (already_triaged r (record doc { custom_fields = merged }) ≡ true)
      × (value_at r.notes.id merged ≡ word (clip 255 note))
      × (reocr_matches float r threshold (record doc { custom_fields = merged })
          ≡ some (at_least float threshold (coerce_score str score r.score.data_type)))
unfolding merge_triage_fields already_triaged reocr_matches
merge_triage_fields-meaning str float r doc score threshold note stage valid differ option =
    let existing = doc.custom_fields in
    let score_value = coerce_score str score r.score.data_type in
    let note_value = word (clip 255 note) in
    let at = written_value r existing score_value stage note_value in
    (
      written r existing score_value stage note_value,
      rw option refl,
      written_foreign r existing score_value stage note_value,
      written_triaged r existing score_value stage note_value differ
          ∙ ap is_some (role_for_value-stage_option_for_role r triaged stage valid option),
      at r.notes.id ∙ ground (arith, nat_beq_iff r.notes.id r.notes.id),
      rw option (
          ap some (
            ground (
              arith,
              at r.stage.id,
              at r.score.id,
              nat_beq_iff r.stage.id r.stage.id,
              nat_beq_iff r.score.id r.score.id,
              value_eq.test_iff stage stage,
              differ,
            ))),
    )

-- With an integer field for the score, every score above 0.005 reaches every threshold up to 1,
-- since the field holds percents and the threshold is compared with them.
pub coerce_score-integer :
    (str : ℕ → String) (float : String → Option ℕ) (score threshold : ℕ)
    → 50 < score
    → threshold ≤ 10000
    → at_least float threshold (coerce_score str score "integer") ≡ true
unfolding coerce_score percentage at_least
coerce_score-integer str float score threshold above small = ground arith
