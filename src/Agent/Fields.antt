-- ===== src/Agent/Fields.antt =====
-- src/paperless_assistant/fields.py: the custom fields of Paperless and the labels of the stages. A
-- resolver holds the fields of the three required names, which are all that it reads. A score is a
-- number of units of 10⁻⁴.
pub mod Roles
use paperless_assistant.Base.{
  ◌>>=◌, ℕ, zero, suc, ◌+◌, ◌*◌, ◌/◌, ◌%◌, ◌≡◌, refl, inl, inr, ◌↔◌, Bool, true, false, ◌||◌,
  String, Option, none, some, List, [], ◌∷◌, arith, ltb, nat_beq, nat_beq_iff, Eq, ◌==◌, nat_eq,
  string_eq, pair_eq, if◌then◌else◌,
}
use paperless_assistant.Base.Dict.{Dict, lookup, insert}

-- the value of a custom field: `None`, a number or a text
pub data Value : Type 0 where
  null : Value
  number : ℕ → Value
  word : String → Value

abbrev pub value_beq : Value → Value → Bool
value_beq null null = true
value_beq (number m) (number n) = nat_beq m n
value_beq (word s) (word t) = s == t
value_beq _ _ = false

pub value_beq_iff : (a b : Value) → (value_beq a b ≡ true) ↔ (a ≡ b)
value_beq_iff null null = ground arith
value_beq_iff null (number n) = ground arith
value_beq_iff null (word t) = ground arith
value_beq_iff (number m) null = ground arith
value_beq_iff (number m) (number n) = ground (arith, nat_beq_iff m n)
value_beq_iff (number m) (word t) = ground arith
value_beq_iff (word s) null = ground arith
value_beq_iff (word s) (number n) = ground arith
value_beq_iff (word s) (word t) = ground (arith, string_eq.test_iff s t)

instance abbrev pub value_eq : Eq Value
value_eq = record { test = value_beq; test_iff = value_beq_iff }

-- `STAGE_ORDER`: the roles of the state machine
pub data Role : Type 0 where
  triaged reocr_done metadata_done : Role

pub record StageNames : Type 0 where
  pub triaged_label : String
  pub reocr_done_label : String
  pub metadata_done_label : String

pub record FieldNames : Type 0 where
  pub score_name : String
  pub stage_name : String
  pub notes_name : String

-- what Paperless tells of a custom field, with the options of a select field as label and id
pub record CustomFieldInfo : Type 0 where
  pub id : ℕ
  pub name : String
  pub data_type : String
  pub select_options : List (String × Value)

pub record Field : Type 0 where
  pub id : ℕ
  pub data_type : String
  pub options : Dict String Value

pub record Resolver : Type 0 where
  pub stage_names : StageNames
  pub score : Field
  pub stage : Field
  pub notes : Field

-- a dictionary made of pairs, the last of a key wins
unfoldable pub dict_of : {K V : Type 0} ⦃e : Eq K⦄ → List (K × V) → Dict K V → Dict K V
dict_of [] d = d
dict_of ((k, v) ∷ pairs) d = dict_of pairs (insert k v d)

unfoldable pub field_of : CustomFieldInfo → Field
unfolding dict_of
field_of f = record {
  id = f.id;
  data_type = f.data_type;
  options = if f.data_type == "select" then dict_of f.select_options [] else [];
}

-- the loop of `_build_field_map`
unfoldable pub field_map : List CustomFieldInfo → Dict String Field → Dict String Field
unfolding field_of
field_map [] fields = fields
field_map (f ∷ infos) fields = field_map infos (insert f.name (field_of f) fields)

-- `CustomFieldResolver(...)`; `none` exits, since a required field is missing
unfoldable pub new_resolver : FieldNames → StageNames → List CustomFieldInfo → Option Resolver
unfolding field_map
new_resolver names stage_names infos = do
  let fields = field_map infos []
  score ← lookup names.score_name fields
  stage ← lookup names.stage_name fields
  notes ← lookup names.notes_name fields
  some (record { stage_names = stage_names; score = score; stage = stage; notes = notes })

abbrev pub label_for_role : StageNames → Role → String
label_for_role names triaged = names.triaged_label
label_for_role names reocr_done = names.reocr_done_label
label_for_role names metadata_done = names.metadata_done_label

-- `_role_for_label`: a dictionary literal, in which the last of equal labels wins
unfoldable pub role_for_label : StageNames → Value → Option Role
unfolding dict_of
role_for_label names (word label) = lookup label (
    dict_of
      ((names.triaged_label, triaged)
        ∷ (names.reocr_done_label, reocr_done)
        ∷ (names.metadata_done_label, metadata_done)
        ∷ [])
      [])
role_for_label names _ = none

-- `none` exits, since the select field has no such option
unfoldable pub stage_option_id : String → Resolver → Option Value
stage_option_id label r =
    if r.stage.data_type == "select" then lookup label r.stage.options else some (word label)

unfoldable pub stage_option_for_role : Role → Resolver → Option Value
unfolding stage_option_id
stage_option_for_role role r = stage_option_id (label_for_role r.stage_names role) r

-- `{v: k for k, v in options}`
abbrev pub swapped : Dict String Value → List (Value × String)
swapped [] = []
swapped ((k, v) ∷ options) = (v, k) ∷ swapped options

abbrev pub word_or_null : Option String → Value
word_or_null none = null
word_or_null (some label) = word label

unfoldable pub stage_label_from_value : Value → Resolver → Value
unfolding dict_of
stage_label_from_value value r =
    if r.stage.data_type == "select"
    then word_or_null (lookup value (dict_of (swapped r.stage.options) []))
    else value

unfoldable pub role_for_value : Value → Resolver → Option Role
unfolding stage_label_from_value role_for_label
role_for_value value r = role_for_label r.stage_names (stage_label_from_value value r)

-- `int(round(score * 100))`, a tie to the even one, in units of 10⁻⁴
unfoldable pub percentage : ℕ → ℕ
percentage score =
    let q = score / 100 in
    let r = score % 100 in
    if ltb r 50
    then q * 10000
    else if ltb 50 r
    then (q + 1) * 10000
    else if nat_beq (q % 2) 0
    then q * 10000
    else (q + 1) * 10000

-- Python's `str` of a score is a parameter.
unfoldable pub coerce_score : (ℕ → String) → ℕ → String → Value
unfolding percentage
coerce_score str score data_type =
    if data_type == "float" || data_type == "monetary"
    then number score
    else if data_type == "integer"
    then number (percentage score)
    else if data_type == "string" || data_type == "text" || data_type == "url"
    then word (str score)
    else number score
