-- ===== src/Agent/Provision.antt =====
-- src/paperless_assistant/provision.py: the custom fields and the review tags that `pa setup` makes
-- sure of. The server of Paperless is a parameter; what it answers to a read is a function of its
-- state, and a POST that raises ends the run without a report.
pub mod Again
pub mod Created
mod Examples
pub mod Fields
pub mod Laws
pub mod Tags
use paperless_assistant.Base.{
  ◌>>=◌, zero, suc, refl, inl, inr, Bool, true, false, not, ◌||◌, ◌&&◌, String, Option, none, some,
  List, [], ◌∷◌, ◌++◌, map, arith, filter, ◌==◌, nat_eq, string_eq, pair_eq, if◌then◌else◌,
  contains,
}
use paperless_assistant.Base.Dict.{Dict, lookup, insert}
use paperless_assistant.Agent.Fields.{Value, StageNames, FieldNames, CustomFieldInfo, dict_of}

-- the role of a required field
pub data FieldRole : Type 0 where
  score_role stage_role notes_role : FieldRole

pub record FieldSpec : Type 0 where
  pub data_type : String
  pub options : List String
  pub role : FieldRole

unfoldable pub required_fields : FieldNames → StageNames → Dict String FieldSpec
required_fields fn sn =
    dict_of
      ((fn.score_name, record { data_type = "float"; options = []; role = score_role })
        ∷ (
          fn.stage_name,
          record {
            data_type = "select";
            options = sn.triaged_label ∷ sn.reocr_done_label ∷ sn.metadata_done_label ∷ [];
            role = stage_role;
          },
        )
        ∷ (fn.notes_name, record { data_type = "string"; options = []; role = notes_role })
        ∷ [])
      []

-- the messages of a report: the name, and the two types or the labels that are missing
pub data Incompatible : Type 0 where
  wrong_type : String → String → String → Incompatible
  missing_labels : String → List String → Incompatible

pub record ProvisionReport : Type 0 where
  pub created_fields : List String
  pub existing_fields : List String
  pub created_tags : List String
  pub existing_tags : List String
  pub incompatible : List Incompatible

abbrev pub empty_report : ProvisionReport
empty_report = record {
  created_fields = [];
  existing_fields = [];
  created_tags = [];
  existing_tags = [];
  incompatible = [];
}

abbrev pub is_empty : {A : Type 0} → List A → Bool
is_empty [] = true
is_empty (x ∷ xs) = false

unfoldable pub is_ok : ProvisionReport → Bool
is_ok r = is_empty r.incompatible

unfoldable pub is_noop : ProvisionReport → Bool
is_noop r = is_empty r.created_fields && is_empty r.created_tags && is_ok r

-- the body of the POST of a field; the labels are those of a select field
pub record NewField : Type 0 where
  pub name : String
  pub data_type : String
  pub labels : List String

-- the calls of Paperless: a list of all custom fields, a search for a tag, and two POSTs, `none`
-- where one raises
pub record Paperless (W : Type 0) : Type 0 where
  pub custom_fields : W → List CustomFieldInfo
  pub post_field : NewField → W → Option W
  -- whether the search `name__iexact` finds a tag
  pub finds_tag : String → W → Bool
  pub post_tag : String → String → W → Option W

-- `{f["name"]: f for f in ...}`
unfoldable pub existing_fields :
    List CustomFieldInfo → Dict String CustomFieldInfo → Dict String CustomFieldInfo
existing_fields [] d = d
existing_fields (f ∷ fs) d = existing_fields fs (insert f.name f d)

abbrev pub labels_of : CustomFieldInfo → List String
labels_of f = map (λ (o : String × Value). o.0) f.select_options

unfoldable pub payload : String → FieldSpec → NewField
payload name spec = record {
  name = name;
  data_type = spec.data_type;
  labels = if spec.data_type == "select" then spec.options else [];
}

-- `_check_select_options`
unfoldable pub missing_options : CustomFieldInfo → List String → List String
missing_options f wanted = filter (λ o. not (contains o (labels_of f))) wanted

abbrev pub is_score : FieldRole → Bool
is_score score_role = true
is_score _ = false

abbrev pub is_numeric : String → Bool
is_numeric have = have == "float" || have == "integer" || have == "monetary"

unfoldable pub is_compatible : FieldSpec → String → Bool
is_compatible spec have =
    if is_score spec.role && is_numeric have then true else have == spec.data_type

-- what is wrong with a field that exists
unfoldable pub judge : String → FieldSpec → CustomFieldInfo → Option Incompatible
judge name spec f =
    if not (is_compatible spec f.data_type)
    then some (wrong_type name f.data_type spec.data_type)
    else if spec.data_type == "select"
    then elim (missing_options f spec.options) [
      | [] ↦ none
      | o ∷ os ↦ some (missing_labels name (o ∷ os))
    ]
    else none

unfoldable pub noted : String → Option Incompatible → ProvisionReport → ProvisionReport
noted name none r = record r { existing_fields = r.existing_fields ++ name ∷ [] }
noted name (some bad) r = record r { incompatible = r.incompatible ++ bad ∷ [] }

module _ {W : Type 0} (client : Paperless W) where
  -- the loop of `ensure_fields` over the required fields, beside the fields read before it
  unfoldable pub fields_loop :
      Dict String CustomFieldInfo
      → Dict String FieldSpec
      → ProvisionReport
      → W
      → Option (ProvisionReport × W)
  fields_loop existing [] r w = some (r, w)
  fields_loop existing ((name, spec) ∷ specs) r w = elim (lookup name existing) [
    | none ↦ elim (client.post_field (payload name spec) w) [
      | none ↦ none
      | some w' ↦
          fields_loop existing specs (record r { created_fields = r.created_fields ++ name ∷ [] })
            w'
    ]
    | some f ↦ fields_loop existing specs (noted name (judge name spec f) r) w
  ]

  unfoldable pub ensure_fields :
      Dict String FieldSpec → ProvisionReport → W → Option (ProvisionReport × W)
  ensure_fields required r w =
      fields_loop (existing_fields (client.custom_fields w) []) required r w

  -- one round of the loop of `ensure_tags`
  unfoldable pub ensure_tag : String → String → ProvisionReport × W → Option (ProvisionReport × W)
  ensure_tag name color (r, w) =
      if client.finds_tag name w
      then some (record r { existing_tags = r.existing_tags ++ name ∷ [] }, w)
      else elim (client.post_tag name color w) [
        | none ↦ none
        | some w' ↦ some (record r { created_tags = r.created_tags ++ name ∷ [] }, w')
      ]

-- `Provisioner`
pub record Provisioner : Type 0 where
  pub superseded_tag : String
  pub new_taxonomy_tag : String
  pub superseded_tag_color : String
  pub new_taxonomy_tag_color : String
  pub field_names : FieldNames
  pub stage_names : StageNames

unfoldable pub ensure_tags :
    {W : Type 0} → Paperless W → Provisioner → ProvisionReport × W → Option (ProvisionReport × W)
ensure_tags client p done =
    ensure_tag client p.superseded_tag p.superseded_tag_color done
    >>= ensure_tag client p.new_taxonomy_tag p.new_taxonomy_tag_color

-- `Provisioner.run`
unfoldable pub provision :
    {W : Type 0} → Paperless W → Provisioner → W → Option (ProvisionReport × W)
provision client p w =
    ensure_fields client (required_fields p.field_names p.stage_names) empty_report w
    >>= ensure_tags client p
