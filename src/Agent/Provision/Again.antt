-- ===== src/Agent/Provision/Again.antt =====
-- A second run of provision.py behind a run that ended with a report.
use paperless_assistant.Base.{
  ◌≡◌, refl, sym, ap, ◌∙◌, true, String, Option, none, some, List, [], ◌∷◌, ◌++◌, arith, All, ◌==◌,
  nat_eq, string_eq, pair_eq, if◌then◌else◌, contains, Distinct,
}
use paperless_assistant.Base.Dict.{Dict, lookup, insert}
use paperless_assistant.Agent.Fields.{CustomFieldInfo, StageNames, FieldNames, dict_of}
use paperless_assistant.Agent.Provision.{
  Paperless, FieldSpec, ProvisionReport, Provisioner, empty_report, existing_fields, ensure_fields,
  ensure_tags, required_fields, provision, is_ok, is_noop,
}
use paperless_assistant.Agent.Provision.Laws.{ServerLaws, shown}
use paperless_assistant.Agent.Provision.Fields.{
  names_of, fault_of, fault, faults, fields_loop-present,
}
use paperless_assistant.Agent.Provision.Created.{Settled, fields_loop-Settled}
use paperless_assistant.Agent.Provision.Tags.{bind-some, ensure_tags-Tags, ensure_tags-present}

contains-insert :
    (n k : String) (v : FieldSpec) (d : Dict String FieldSpec)
    → contains n (names_of (insert k v d)) ≡ (if k == n then true else contains n (names_of d))
unfolding insert
contains-insert n k v [] = ground arith
contains-insert n k v ((j, w) ∷ d) = ground (
  arith,
  contains-insert n k v d,
  string_eq.test_iff j k,
  string_eq.test_iff j n,
  string_eq.test_iff k n,
)

Distinct-insert :
    (k : String) (v : FieldSpec) (d : Dict String FieldSpec)
    → Distinct (names_of d)
    → Distinct (names_of (insert k v d))
unfolding insert
Distinct-insert k v [] h = (refl, tt)
Distinct-insert k v ((j, w) ∷ d) (fresh, h) = ground (
  arith,
  fresh,
  h,
  Distinct-insert k v d h,
  contains-insert j k v d,
  string_eq.test_iff k j,
  string_eq.test_iff j k,
)

Distinct-dict_of :
    (pairs : List (String × FieldSpec)) (d : Dict String FieldSpec)
    → Distinct (names_of d)
    → Distinct (names_of (dict_of pairs d))
unfolding dict_of
Distinct-dict_of [] d h = h
Distinct-dict_of ((k, v) ∷ pairs) d h =
    Distinct-dict_of pairs (insert k v d) (Distinct-insert k v d h)

Distinct-required :
    (fn : FieldNames) (sn : StageNames) → Distinct (names_of (required_fields fn sn))
unfolding required_fields
Distinct-required fn sn = Distinct-dict_of _ [] tt

-- the field that was shown before, else the one that is shown behind
abbrev pub first_shown : Option CustomFieldInfo → Option CustomFieldInfo → Option CustomFieldInfo
first_shown none b = b
first_shown (some f) b = some f

kept_first :
    (a b : Option CustomFieldInfo)
    → ((f : CustomFieldInfo) → a ≡ some f → b ≡ some f)
    → first_shown a b ≡ b
kept_first none b h = refl
kept_first (some f) b h = sym (h f refl)

module _ {W : Type 0} (client : Paperless W) where
  abbrev pub AllShown : Dict String FieldSpec → W → Type 0
  AllShown specs w =
      All (λ (s : String × FieldSpec). (f : CustomFieldInfo) × (shown client s.0 w ≡ some f)) specs

  pub record Provisioned (p : Provisioner) (w : W) (r : ProvisionReport) (w' : W) : Type 0 where
    pub all_shown : AllShown (required_fields p.field_names p.stage_names) w'
    pub tags_found :
        (client.finds_tag p.superseded_tag w' ≡ true)
        × (client.finds_tag p.new_taxonomy_tag w' ≡ true)
    pub kept :
        (name : String)
        → first_shown (shown client name w) (shown client name w') ≡ shown client name w'
    pub again : ProvisionReport
    pub repeats : provision client p w' ≡ some (again, w')
    pub nothing_created : (again.created_fields ≡ []) × (again.created_tags ≡ [])
    pub same_complaints : again.incompatible ≡ r.incompatible
    pub noop_if_ok : is_noop again ≡ is_ok r

  shown_same :
      (w w' : W) (name : String)
      → client.custom_fields w' ≡ client.custom_fields w
      → shown client name w' ≡ shown client name w
  shown_same w w' name h = ap (λ l. lookup name (existing_fields l [])) h

  AllShown-same :
      (w w' : W) (specs : Dict String FieldSpec)
      → client.custom_fields w' ≡ client.custom_fields w
      → AllShown specs w
      → AllShown specs w'
  AllShown-same w w' [] h a = tt
  AllShown-same w w' ((name, spec) ∷ specs) h ((f, there), a) =
      ((f, shown_same w w' name h ∙ there), AllShown-same w w' specs h a)

  faults-same :
      (w w' : W) (specs : Dict String FieldSpec)
      → client.custom_fields w' ≡ client.custom_fields w
      → faults client specs w' ≡ faults client specs w
  faults-same w w' [] h = refl
  faults-same w w' ((name, spec) ∷ specs) h =
      ap (λ o. fault_of name spec o ++ faults client specs w') (shown_same w w' name h)
      ∙ ap (λ l. fault client name spec w ++ l) (faults-same w w' specs h)

  -- the fields part of a second run, in a state where all the required ones are shown
  fields_again :
      (specs : Dict String FieldSpec) (w : W) (r1 : ProvisionReport) (w1 w' : W)
      → Settled client specs empty_report w r1 w1
      → client.custom_fields w' ≡ client.custom_fields w1
      → (r2 : ProvisionReport) × ((ensure_fields client specs empty_report w' ≡ some (r2, w'))
          × ((r2.created_fields ≡ [])
              × ((r2.created_tags ≡ []) × (r2.incompatible ≡ r1.incompatible))))
  unfolding ensure_fields
  fields_again specs w r1 w1 w' s same =
      let (r2, (ends, (fields, (tags, bad)))) =
        fields_loop-present client (existing_fields (client.custom_fields w') []) specs empty_report
          w' (λ name h. refl) (AllShown-same w1 w' specs same s.present) in
      (r2, (ends, (fields, (tags, bad ∙ faults-same w1 w' specs same ∙ sym s.complaints))))

  noop-ok :
      (a r : ProvisionReport)
      → a.created_fields ≡ []
      → a.created_tags ≡ []
      → a.incompatible ≡ r.incompatible
      → is_noop a ≡ is_ok r
  unfolding is_noop is_ok
  noop-ok a r h k l = simp (h, k, l) refl

  provision_parts :
      (p : Provisioner) (w : W) (r : ProvisionReport) (w' : W)
      → provision client p w ≡ some (r, w')
      → (m : ProvisionReport × W) × ((ensure_fields client
              (required_fields p.field_names p.stage_names)
              empty_report
              w
            ≡ some m)
          × (ensure_tags client p m ≡ some (r, w')))
  unfolding provision
  provision_parts p w r w' h =
      bind-some (ensure_fields client (required_fields p.field_names p.stage_names) empty_report w)
        (ensure_tags client p) (r, w') h

  provision_joined :
      (p : Provisioner) (w : W) (r1 : ProvisionReport) (w1 : W)
      → ensure_fields client (required_fields p.field_names p.stage_names) empty_report w
        ≡ some (r1, w1)
      → provision client p w ≡ ensure_tags client p (r1, w1)
  unfolding provision
  provision_joined p w r1 w1 h = rw h refl

  first_fields :
      (laws : ServerLaws client) (fn : FieldNames) (sn : StageNames) (w : W) (r1 : ProvisionReport)
      (w1 : W)
      → ensure_fields client (required_fields fn sn) empty_report w ≡ some (r1, w1)
      → Settled client (required_fields fn sn) empty_report w r1 w1
  unfolding ensure_fields
  first_fields laws fn sn w r1 w1 h =
      fields_loop-Settled client laws (existing_fields (client.custom_fields w) [])
        (required_fields fn sn) empty_report w r1 w1 (λ name k. refl) (Distinct-required fn sn) h

  -- Behind a run of `pa setup` that ends with a report every required field is shown and both tags
  -- are found, and every field that was shown before is as it was. A second run leaves the server
  -- as it is: it creates no field and no tag, reports the same incompatible fields, and counts as a
  -- no-op exactly if the first run had none. The server is one that shows an accepted field or tag
  -- as it was sent, and changes nothing else for it.
  pub provision-Provisioned :
      (laws : ServerLaws client) (p : Provisioner) (w : W) (r : ProvisionReport) (w' : W)
      → provision client p w ≡ some (r, w')
      → Provisioned p w r w'
  provision-Provisioned laws p w r w' h =
      let specs = required_fields p.field_names p.stage_names in
      let ((r1, w1), (fields, tags)) = provision_parts p w r w' h in
      let s = first_fields laws p.field_names p.stage_names w r1 w1 fields in
      let t = ensure_tags-Tags client laws p r1 w1 r w' tags in
      let (r2, (ends, (none_created, (no_tags, bad)))) =
        fields_again specs w r1 w1 w' s t.same_fields in
      record {
        all_shown = AllShown-same w1 w' specs t.same_fields s.present;
        tags_found = (t.first_found, t.second_found);
        kept = λ name.
            kept_first (shown client name w) (shown client name w')
              (λ f k. shown_same w1 w' name t.same_fields ∙ s.kept name f k);
        again = record r2 {
          existing_tags = (r2.existing_tags ++ p.superseded_tag ∷ []) ++ p.new_taxonomy_tag ∷ [];
        };
        repeats =
            provision_joined p w' r2 w' ends
            ∙ ensure_tags-present client p r2 w' t.first_found t.second_found;
        nothing_created = (none_created, no_tags);
        same_complaints = bad ∙ sym t.same_complaints;
        noop_if_ok = noop-ok _ r none_created no_tags (bad ∙ sym t.same_complaints);
      }
