-- ===== src/Agent/Provision/Fields.antt =====
-- The loop of `ensure_fields` of provision.py on fields that are all there.
use paperless_assistant.Base.{
  ◌≡◌, refl, sym, ap, ◌∙◌, true, String, Option, none, some, List, [], ◌∷◌, ◌++◌, map, arith, All,
  nat_eq, string_eq, pair_eq, beq_refl, contains,
}
use paperless_assistant.Base.Dict.{Dict, lookup}
use mathlib.Core.List.{append_assoc, append-nil}
use paperless_assistant.Agent.Fields.{CustomFieldInfo}
use paperless_assistant.Agent.Provision.{
  Paperless, FieldSpec, Incompatible, ProvisionReport, judge, noted, fields_loop,
}
use paperless_assistant.Agent.Provision.Laws.{shown}

abbrev pub names_of : Dict String FieldSpec → List String
names_of specs = map (λ (s : String × FieldSpec). s.0) specs

abbrev pub complaint : Option Incompatible → List Incompatible
complaint none = []
complaint (some bad) = bad ∷ []

-- what is wrong with a field that may be shown
abbrev pub fault_of : String → FieldSpec → Option CustomFieldInfo → List Incompatible
fault_of name spec none = []
fault_of name spec (some f) = complaint (judge name spec f)

pub noted-incompatible :
    (name : String) (o : Option Incompatible) (r : ProvisionReport)
    → (noted name o r).incompatible ≡ r.incompatible ++ complaint o
unfolding noted
noted-incompatible name none r = sym (append-nil r.incompatible)
noted-incompatible name (some bad) r = refl

noted-created :
    (name : String) (o : Option Incompatible) (r : ProvisionReport)
    → ((noted name o r).created_fields ≡ r.created_fields)
      × ((noted name o r).created_tags ≡ r.created_tags)
unfolding noted
noted-created name none r = (refl, refl)
noted-created name (some bad) r = (refl, refl)

-- the complaint of the first of the fields before those of the others
pub complaint-next : (a b c d e : List Incompatible) → b ≡ a ++ c → e ≡ b ++ d → e ≡ a ++ (c ++ d)
complaint-next a b c d e h k = k ∙ ap (λ l. l ++ d) h ∙ append_assoc a c d

module _ {W : Type 0} (client : Paperless W) where
  -- what is wrong with the required fields in a state of the server
  abbrev pub fault : String → FieldSpec → W → List Incompatible
  fault name spec w = fault_of name spec (shown client name w)

  abbrev pub faults : Dict String FieldSpec → W → List Incompatible
  faults [] w = []
  faults ((name, spec) ∷ specs) w = fault name spec w ++ faults specs w

  -- the listing that was read before agrees with the server on the fields that are still to come
  abbrev pub Knows : Dict String CustomFieldInfo → Dict String FieldSpec → W → Type 0
  Knows existing specs w =
      (name : String)
      → contains name (names_of specs) ≡ true
      → lookup name existing ≡ shown client name w

  pub Knows-rest :
      (existing : Dict String CustomFieldInfo) (name : String) (spec : FieldSpec)
      (specs : Dict String FieldSpec) (w : W)
      → Knows existing ((name, spec) ∷ specs) w
      → Knows existing specs w
  Knows-rest existing name spec specs w knows n h = knows n (ground (arith, h))

  pub fault-shown :
      (name : String) (spec : FieldSpec) (f : CustomFieldInfo) (w : W)
      → shown client name w ≡ some f
      → fault name spec w ≡ complaint (judge name spec f)
  fault-shown name spec f w h = ap (fault_of name spec) h

  loop-nil :
      (existing : Dict String CustomFieldInfo) (r : ProvisionReport) (w : W)
      → fields_loop client existing [] r w ≡ some (r, w)
  unfolding fields_loop
  loop-nil existing r w = refl

  pub loop-shown :
      (existing : Dict String CustomFieldInfo) (name : String) (spec : FieldSpec)
      (specs : Dict String FieldSpec) (r : ProvisionReport) (w : W) (f : CustomFieldInfo)
      → lookup name existing ≡ some f
      → fields_loop client existing ((name, spec) ∷ specs) r w
        ≡ fields_loop client existing specs (noted name (judge name spec f) r) w
  unfolding fields_loop
  loop-shown existing name spec specs r w f h = rw (h, fields_loop) refl

  -- a second pass over fields that are all there
  pub fields_loop-present :
      (existing : Dict String CustomFieldInfo) (specs : Dict String FieldSpec) (r : ProvisionReport)
      (w : W)
      → Knows existing specs w
      → All
          (λ (s : String × FieldSpec). (f : CustomFieldInfo) × (shown client s.0 w ≡ some f))
          specs
      → (r' : ProvisionReport) × ((fields_loop client existing specs r w ≡ some (r', w))
          × ((r'.created_fields ≡ r.created_fields)
              × ((r'.created_tags ≡ r.created_tags)
                  × (r'.incompatible ≡ r.incompatible ++ faults specs w))))
  fields_loop-present existing [] r w knows present =
      (r, (loop-nil existing r w, (refl, (refl, sym (append-nil r.incompatible)))))
  fields_loop-present existing ((name, spec) ∷ specs) r w knows ((f, there), present) =
      let o = judge name spec f in
      let later = Knows-rest existing name spec specs w knows in
      let found = knows name (ground (arith, beq_refl name)) ∙ there in
      let (r', (ends, (fields, (tags, bad)))) =
        fields_loop-present existing specs (noted name o r) w later present in
      (
        r',
        (
          loop-shown existing name spec specs r w f found ∙ ends,
          (
            fields ∙ (noted-created name o r).0,
            (
              tags ∙ (noted-created name o r).1,
              complaint-next r.incompatible (noted name o r).incompatible (fault name spec w)
                  (faults specs w) r'.incompatible
                  (noted-incompatible name o r
                    ∙ ap (λ l. r.incompatible ++ l) (sym (fault-shown name spec f w there)))
                  bad,
            ),
          ),
        ),
      )
