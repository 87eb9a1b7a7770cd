-- ===== src/Agent/Provision/Created.antt =====
-- What the loop of `ensure_fields` of provision.py leaves on the server.
use paperless_assistant.Base.{
  ◌≡◌, refl, sym, ap, ◌∙◌, ◌≢◌, inl, inr, false, String, none, some, [], ◌∷◌, ◌++◌, arith,
  Option-cases, All, nat_eq, string_eq, pair_eq, beq_refl, contains, Distinct,
}
use paperless_assistant.Base.Dict.{Dict, lookup}
use mathlib.Core.List.{append-nil}
use paperless_assistant.Agent.Fields.{CustomFieldInfo}
use paperless_assistant.Agent.Provision.{
  Paperless, FieldSpec, ProvisionReport, payload, judge, noted, fields_loop,
}
use paperless_assistant.Agent.Provision.Laws.{ServerLaws, shown, judge-sent}
use paperless_assistant.Agent.Provision.Fields.{
  names_of, noted-incompatible, complaint-next, complaint, fault, fault-shown, faults, Knows,
  Knows-rest, loop-shown,
}

module _ {W : Type 0} (client : Paperless W) where
  pub record Settled (specs : Dict String FieldSpec) (r : ProvisionReport) (w : W)
      (r' : ProvisionReport) (w' : W) : Type 0 where
    pub present :
        All
          (λ (s : String × FieldSpec). (f : CustomFieldInfo) × (shown client s.0 w' ≡ some f))
          specs
    pub kept :
        (name : String) (f : CustomFieldInfo)
        → shown client name w ≡ some f
        → shown client name w' ≡ some f
    pub untouched :
        (name : String)
        → contains name (names_of specs) ≡ false
        → shown client name w' ≡ shown client name w
    pub same_tags : (tag : String) → client.finds_tag tag w' ≡ client.finds_tag tag w
    pub complaints : r'.incompatible ≡ r.incompatible ++ faults client specs w'

  -- a created field is shown, and nothing is wrong with it
  created_shown :
      (laws : ServerLaws client) (name : String) (spec : FieldSpec) (w w1 : W)
      → client.post_field (payload name spec) w ≡ some w1
      → (f : CustomFieldInfo) × ((shown client name w1 ≡ some f) × (judge name spec f ≡ none))
  unfolding payload
  created_shown laws name spec w w1 posted =
      let (f, there, (type, labels)) = laws.field_shown (payload name spec) w w1 posted in
      (f, (there, judge-sent name spec f type labels))

  posted_elsewhere :
      (laws : ServerLaws client) (name : String) (spec : FieldSpec) (w w1 : W)
      → client.post_field (payload name spec) w ≡ some w1
      → (n : String) → name ≢ n
      → shown client n w1 ≡ shown client n w
  unfolding payload
  posted_elsewhere laws name spec w w1 posted n ne =
      laws.field_only (payload name spec) w w1 n posted ne

  Settled-nil : (r : ProvisionReport) (w : W) → Settled [] r w r w
  Settled-nil r w = record {
    present = tt;
    kept = λ name f h. h;
    untouched = λ name h. refl;
    same_tags = λ tag. refl;
    complaints = sym (append-nil r.incompatible);
  }

  -- a field that was shown is passed by
  Settled-shown :
      (name : String) (spec : FieldSpec) (specs : Dict String FieldSpec) (r : ProvisionReport)
      (w : W) (r' : ProvisionReport) (w' : W) (f : CustomFieldInfo)
      → shown client name w ≡ some f
      → Settled specs (noted name (judge name spec f) r) w r' w'
      → Settled ((name, spec) ∷ specs) r w r' w'
  Settled-shown name spec specs r w r' w' f h s = record {
    present = ((f, s.kept name f h), s.present);
    kept = s.kept;
    untouched = λ n absent. s.untouched n (ground (arith, absent));
    same_tags = s.same_tags;
    complaints =
        complaint-next r.incompatible (noted name (judge name spec f) r).incompatible
          (fault client name spec w') (faults client specs w') r'.incompatible
          (noted-incompatible name (judge name spec f) r
            ∙ ap (λ l. r.incompatible ++ l)
                (sym (fault-shown client name spec f w' (s.kept name f h))))
          s.complaints;
  }

  -- a field that was not shown is created
  Settled-created :
      (laws : ServerLaws client) (name : String) (spec : FieldSpec) (specs : Dict String FieldSpec)
      (r : ProvisionReport) (w w1 : W) (r' : ProvisionReport) (w' : W) (f : CustomFieldInfo)
      → client.post_field (payload name spec) w ≡ some w1
      → shown client name w1 ≡ some f
      → judge name spec f ≡ none
      → shown client name w ≡ none
      → contains name (names_of specs) ≡ false
      → Settled specs (record r { created_fields = r.created_fields ++ name ∷ [] }) w1 r' w'
      → Settled ((name, spec) ∷ specs) r w r' w'
  Settled-created laws name spec specs r w w1 r' w' f posted there fine absent fresh s =
      let still = s.untouched name fresh ∙ there in
      let others = posted_elsewhere laws name spec w w1 posted in
      record {
        present = ((f, still), s.present);
        kept = λ n g held. s.kept n g (others n (ne_of_shown n g held) ∙ held);
        untouched =
            λ n h. s.untouched n (ground (arith, h)) ∙ others n (ground (arith, h, beq_refl name));
        same_tags = λ tag. s.same_tags tag ∙ laws.field_no_tag (payload name spec) w w1 tag posted;
        complaints =
            s.complaints
            ∙ ap (λ l. r.incompatible ++ (l ++ faults client specs w'))
                (sym (fault-shown client name spec f w' still ∙ ap complaint fine));
      }
    where
      ne_of_shown : (n : String) (g : CustomFieldInfo) → shown client n w ≡ some g → name ≢ n
      ne_of_shown n g held e = ground (arith, sym absent ∙ ap (λ k. shown client k w) e ∙ held)

  Knows-posted :
      (laws : ServerLaws client) (existing : Dict String CustomFieldInfo) (name : String)
      (spec : FieldSpec) (specs : Dict String FieldSpec) (w w1 : W)
      → contains name (names_of specs) ≡ false
      → client.post_field (payload name spec) w ≡ some w1
      → Knows client existing specs w
      → Knows client existing specs w1
  Knows-posted laws existing name spec specs w w1 fresh posted knows n h =
      knows n h
      ∙ sym (
          posted_elsewhere laws name spec w w1 posted n
            (λ e. ground (arith, sym fresh ∙ ap (λ k. contains k (names_of specs)) e ∙ h)))

  loop_ends :
      (existing : Dict String CustomFieldInfo) (r : ProvisionReport) (w : W) (r' : ProvisionReport)
      (w' : W)
      → fields_loop client existing [] r w ≡ some (r', w')
      → (r' ≡ r) × (w' ≡ w)
  unfolding fields_loop
  loop_ends existing r w r' w' h = ground (arith, h)

  loop-raised :
      (existing : Dict String CustomFieldInfo) (name : String) (spec : FieldSpec)
      (specs : Dict String FieldSpec) (r : ProvisionReport) (w : W)
      → lookup name existing ≡ none
      → client.post_field (payload name spec) w ≡ none
      → fields_loop client existing ((name, spec) ∷ specs) r w ≡ none
  unfolding fields_loop
  loop-raised existing name spec specs r w h k = rw (h, fields_loop) (rw k refl)

  loop-created :
      (existing : Dict String CustomFieldInfo) (name : String) (spec : FieldSpec)
      (specs : Dict String FieldSpec) (r : ProvisionReport) (w w1 : W)
      → lookup name existing ≡ none
      → client.post_field (payload name spec) w ≡ some w1
      → fields_loop client existing ((name, spec) ∷ specs) r w
        ≡ fields_loop client existing specs
            (record r { created_fields = r.created_fields ++ name ∷ [] })
            w1
  unfolding fields_loop
  loop-created existing name spec specs r w w1 h k = rw (h, fields_loop) (rw k refl)

  -- a first pass, which creates the fields that are not shown
  pub fields_loop-Settled :
      (laws : ServerLaws client) (existing : Dict String CustomFieldInfo)
      (specs : Dict String FieldSpec) (r : ProvisionReport) (w : W) (r' : ProvisionReport) (w' : W)
      → Knows client existing specs w
      → Distinct (names_of specs)
      → fields_loop client existing specs r w ≡ some (r', w')
      → Settled specs r w r' w'
  fields_loop-Settled laws existing [] r w r' w' knows distinct ends =
      let (same, held) = loop_ends existing r w r' w' ends in rw (same, held) (Settled-nil r w)
  fields_loop-Settled laws existing ((name, spec) ∷ specs) r w r' w' knows (fresh, distinct) ends =
      let later = Knows-rest client existing name spec specs w knows in
      let known = knows name (ground (arith, beq_refl name)) in
      elim (Option-cases (lookup name existing)) [
        | inr (f, found) ↦ Settled-shown name spec specs r w r' w' f (sym known ∙ found) (
            fields_loop-Settled laws existing specs (noted name (judge name spec f) r) w r' w' later
              distinct (sym (loop-shown client existing name spec specs r w f found) ∙ ends))
        | inl missing ↦ elim (Option-cases (client.post_field (payload name spec) w)) [
          | inl raised ↦
              absurd (
                ground
                  (arith, sym (loop-raised existing name spec specs r w missing raised) ∙ ends))
          | inr (w1, posted) ↦
              let (f, (there, fine)) = created_shown laws name spec w w1 posted in
              Settled-created laws name spec specs r w w1 r' w' f posted there fine
                (sym known ∙ missing) fresh
                (fields_loop-Settled laws existing specs
                  (record r { created_fields = r.created_fields ++ name ∷ [] }) w1 r' w'
                  (Knows-posted laws existing name spec specs w w1 fresh posted later) distinct
                  (sym (loop-created existing name spec specs r w w1 missing posted) ∙ ends))
        ]
      ]
