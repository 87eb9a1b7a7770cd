-- ===== src/Agent/Provision/Laws.antt =====
-- What provision.py relies on of a Paperless server, and what that gives for one field.
use paperless_assistant.Base.{
  ◌≡◌, refl, ◌∙◌, ◌≢◌, inl, inr, true, not, String, Option, none, some, List, [], ◌∷◌, arith,
  Bool-cases, filter, ◌==◌, nat_eq, string_eq, pair_eq, beq_refl, contains,
}
use paperless_assistant.Base.Dict.{lookup}
use paperless_assistant.Agent.Fields.{CustomFieldInfo}
use paperless_assistant.Agent.Provision.{
  Paperless, NewField, FieldSpec, existing_fields, labels_of, payload, missing_options, judge,
  is_compatible,
}

module _ {W : Type 0} (client : Paperless W) where
  -- the field that a listing shows under a name
  abbrev pub shown : String → W → Option CustomFieldInfo
  shown name w = lookup name (existing_fields (client.custom_fields w) [])

  -- Documented behaviour: a POST that was accepted shows up in the next reads as it was sent, and
  -- changes nothing else.
  pub record ServerLaws : Type 0 where
    pub field_shown :
        (p : NewField) (w w' : W)
        → client.post_field p w ≡ some w'
        → (f : CustomFieldInfo) × (shown p.name w' ≡ some f)
          × ((f.data_type ≡ p.data_type) × (labels_of f ≡ p.labels))
    pub field_only :
        (p : NewField) (w w' : W) (name : String)
        → client.post_field p w ≡ some w'
        → p.name ≢ name
        → shown name w' ≡ shown name w
    pub field_no_tag :
        (p : NewField) (w w' : W) (tag : String)
        → client.post_field p w ≡ some w'
        → client.finds_tag tag w' ≡ client.finds_tag tag w
    pub tag_shown :
        (tag color : String) (w w' : W)
        → client.post_tag tag color w ≡ some w'
        → client.finds_tag tag w' ≡ true
    pub tag_only :
        (tag color other : String) (w w' : W)
        → client.post_tag tag color w ≡ some w'
        → client.finds_tag other w ≡ true
        → client.finds_tag other w' ≡ true
    pub tag_no_field :
        (tag color : String) (w w' : W)
        → client.post_tag tag color w ≡ some w'
        → client.custom_fields w' ≡ client.custom_fields w

filter-none :
    (wanted have : List String)
    → ((o : String) → contains o wanted ≡ true → contains o have ≡ true)
    → filter (λ o. not (contains o have)) wanted ≡ []
filter-none [] have h = refl
filter-none (o ∷ os) have h = ground (
  arith,
  h o (ground (arith, beq_refl o)),
  filter-none os have (λ p there. h p (ground (arith, there))),
)

compatible-sent :
    (spec : FieldSpec) (type : String) → type ≡ spec.data_type → is_compatible spec type ≡ true
unfolding is_compatible
compatible-sent spec type h = ground (arith, string_eq.test_iff type spec.data_type, h)

nothing_missing :
    (f : CustomFieldInfo) (wanted : List String)
    → labels_of f ≡ wanted
    → missing_options f wanted ≡ []
unfolding missing_options
nothing_missing f wanted h = filter-none wanted (labels_of f) (λ o there. rw h there)

-- a field that is shown as it was sent is not complained about
pub judge-sent :
    (name : String) (spec : FieldSpec) (f : CustomFieldInfo)
    → f.data_type ≡ spec.data_type
    → labels_of f ≡ (payload name spec).labels
    → judge name spec f ≡ none
unfolding judge payload
judge-sent name spec f type labels = elim (Bool-cases (spec.data_type == "select")) [
  | inl select ↦
      simp
        (
          select,
          compatible-sent spec f.data_type type,
          nothing_missing f spec.options (labels ∙ simp (select) refl),
        )
        refl
  | inr other ↦ simp (other, compatible-sent spec f.data_type type) refl
]
