-- ===== src/Agent/Fields/Roles.antt =====
-- A role of fields.py is found again from the value that is written for it.
use paperless_assistant.Base.{
  ap, ◌≡◌, refl, ◌∙◌, inl, inr, true, false, String, none, some, List, [], ◌∷◌, arith, Bool-cases,
  ◌==◌, nat_eq, string_eq, pair_eq, if◌then◌else◌, contains, Distinct,
}
use paperless_assistant.Base.Dict.{Dict, lookup, insert, lookup-insert}
use paperless_assistant.Agent.Fields.{
  Value, word, value_eq, Role, triaged, reocr_done, metadata_done, StageNames, Resolver, dict_of,
  label_for_role, role_for_label, stage_option_id, stage_option_for_role, swapped,
  stage_label_from_value, role_for_value, word_or_null,
}

abbrev pub values : Dict String Value → List Value
values [] = []
values ((k, v) ∷ options) = v ∷ values options

-- The three labels differ, and so do the ids of the options of a select field.
pub record ResolverValid (r : Resolver) : Type 0 where
  pub labels_differ : Distinct (
      r.stage_names.triaged_label ∷ r.stage_names.reocr_done_label
      ∷ r.stage_names.metadata_done_label ∷ [])
  pub ids_differ : Distinct (values r.stage.options)

lookup-dict_of-absent :
    (v : Value) (options : Dict String Value) (d : Dict Value String)
    → contains v (values options) ≡ false
    → lookup v (dict_of (swapped options) d) ≡ lookup v d
unfolding dict_of
lookup-dict_of-absent v [] d h = refl
lookup-dict_of-absent v ((l, w) ∷ options) d h =
    lookup-dict_of-absent v options (insert w l d) (ground arith)
    ∙ ground (arith, lookup-insert w v l d)

lookup-first :
    (l label : String) (w v : Value) (options : Dict String Value)
    → (l == label) ≡ true
    → lookup label ((l, w) ∷ options) ≡ some v
    → w ≡ v
unfolding lookup
lookup-first l label w v options here h = ground (arith, h)

lookup-dict_of-swapped :
    (label : String) (v : Value) (options : Dict String Value) (d : Dict Value String)
    → Distinct (values options)
    → lookup label options ≡ some v
    → lookup v (dict_of (swapped options) d) ≡ some label
unfolding dict_of lookup
lookup-dict_of-swapped label v [] d differ h = absurd (ground arith)
lookup-dict_of-swapped label v ((l, w) ∷ options) d differ h = elim (Bool-cases (l == label)) [
  | inl here ↦
      let id_same : w ≡ v = lookup-first l label w v options here h in
      lookup-dict_of-absent v options (insert w l d) (ground (arith, differ.0, id_same))
      ∙ ground
          (arith, id_same, lookup-insert w v l d, value_eq.test_iff w v, string_eq.test_iff l label)
  | inr further ↦ lookup-dict_of-swapped label v options (insert w l d) differ.1 (ground arith)
]

lookup-empty : (label : String) → lookup {V = Role} label [] ≡ none
unfolding lookup
lookup-empty label = refl

lookup-role :
    (t r m label : String)
    → lookup label (dict_of ((t, triaged) ∷ (r, reocr_done) ∷ (m, metadata_done) ∷ []) []) ≡ (
        if m == label
        then some metadata_done
        else if r == label
        then some reocr_done
        else if t == label
        then some triaged
        else none)
unfolding dict_of
lookup-role t r m label =
    let first = insert t triaged [] in
    let second = insert r reocr_done first in
    ground (
      arith,
      lookup-insert m label metadata_done second,
      lookup-insert r label reocr_done first,
      lookup-insert t label triaged [],
      lookup-empty label,
    )

role_for_label-label_for_role :
    (names : StageNames) (role : Role)
    → Distinct (names.triaged_label ∷ names.reocr_done_label ∷ names.metadata_done_label ∷ [])
    → role_for_label names (word (label_for_role names role)) ≡ some role
unfolding role_for_label
role_for_label-label_for_role names triaged h =
    lookup-role names.triaged_label names.reocr_done_label names.metadata_done_label
      names.triaged_label
    ∙ ground (
      arith,
      h,
      string_eq.test_iff names.triaged_label names.reocr_done_label,
      string_eq.test_iff names.triaged_label names.metadata_done_label,
      string_eq.test_iff names.reocr_done_label names.metadata_done_label,
      string_eq.test_iff names.triaged_label names.triaged_label,
      string_eq.test_iff names.metadata_done_label names.triaged_label,
      string_eq.test_iff names.reocr_done_label names.triaged_label,
    )
role_for_label-label_for_role names reocr_done h =
    lookup-role names.triaged_label names.reocr_done_label names.metadata_done_label
      names.reocr_done_label
    ∙ ground (
      arith,
      h,
      string_eq.test_iff names.triaged_label names.reocr_done_label,
      string_eq.test_iff names.triaged_label names.metadata_done_label,
      string_eq.test_iff names.reocr_done_label names.metadata_done_label,
      string_eq.test_iff names.reocr_done_label names.reocr_done_label,
      string_eq.test_iff names.metadata_done_label names.reocr_done_label,
      string_eq.test_iff names.reocr_done_label names.reocr_done_label,
    )
role_for_label-label_for_role names metadata_done h =
    lookup-role names.triaged_label names.reocr_done_label names.metadata_done_label
      names.metadata_done_label
    ∙ ground (
      arith,
      h,
      string_eq.test_iff names.triaged_label names.reocr_done_label,
      string_eq.test_iff names.triaged_label names.metadata_done_label,
      string_eq.test_iff names.reocr_done_label names.metadata_done_label,
      string_eq.test_iff names.metadata_done_label names.metadata_done_label,
      string_eq.test_iff names.metadata_done_label names.metadata_done_label,
      string_eq.test_iff names.reocr_done_label names.metadata_done_label,
    )

-- the value that is written for a role has the role's label
pub stage_label_from_value-stage_option_for_role :
    (r : Resolver) (role : Role) (v : Value)
    → ResolverValid r
    → stage_option_for_role role r ≡ some v
    → stage_label_from_value v r ≡ word (label_for_role r.stage_names role)
unfolding stage_option_for_role stage_option_id stage_label_from_value
stage_label_from_value-stage_option_for_role r role v valid written =
    elim (Bool-cases (r.stage.data_type == "select")) [
      | inl select ↦
          rw (select, stage_label_from_value)
            (ap word_or_null (
              lookup-dict_of-swapped (label_for_role r.stage_names role) v r.stage.options []
                valid.ids_differ (ground (arith, select, written))))
      | inr plain ↦ rw (plain, stage_label_from_value) (ground (arith, plain, written))
    ]

-- With three different labels and different option ids, the value that is written for a role is
-- read as that role, be the stage a select field or a text field.
pub role_for_value-stage_option_for_role :
    (r : Resolver) (role : Role) (v : Value)
    → ResolverValid r
    → stage_option_for_role role r ≡ some v
    → role_for_value v r ≡ some role
unfolding role_for_value
role_for_value-stage_option_for_role r role v valid written =
    ap (role_for_label r.stage_names)
      (stage_label_from_value-stage_option_for_role r role v valid written)
    ∙ role_for_label-label_for_role r.stage_names role valid.labels_differ
