-- ===== src/Agent/Provision/Tags.antt =====
-- The tags of provision.py: what the two rounds of `ensure_tags` leave.
use paperless_assistant.Base.{
  ◌>>=◌, ◌≡◌, refl, sym, ◌∙◌, inl, inr, true, false, String, Option, none, some, [], ◌∷◌, ◌++◌,
  arith, Bool-cases, Option-cases, nat_eq, string_eq, pair_eq,
}
use paperless_assistant.Agent.Provision.{
  Paperless, ProvisionReport, Provisioner, ensure_tag, ensure_tags,
}
use paperless_assistant.Agent.Provision.Laws.{ServerLaws}

pub bind-some :
    {A B : Type 0} (m : Option A) (f : A → Option B) (b : B)
    → (m >>= f) ≡ some b
    → (a : A) × ((m ≡ some a) × (f a ≡ some b))
bind-some none f b h = absurd (ground (arith, h))
bind-some (some a) f b h = (a, (refl, h))

some_pair :
    {A B : Type 0} {a c : A} {b d : B}
    → ◌≡◌ {A = Option (A × B)} (some (a, b)) (some (c, d))
    → (c ≡ a) × (d ≡ b)
some_pair h = ground (arith, h)

module _ {W : Type 0} (client : Paperless W) where
  -- what a round of `ensure_tags` leaves
  pub record Tagged (name : String) (r : ProvisionReport) (w : W) (r' : ProvisionReport) (w' : W)
      : Type 0 where
    pub found : client.finds_tag name w' ≡ true
    pub still :
        (other : String) → client.finds_tag other w ≡ true → client.finds_tag other w' ≡ true
    pub same_fields : client.custom_fields w' ≡ client.custom_fields w
    pub same_complaints : r'.incompatible ≡ r.incompatible

  ensure_tag-present :
      (name color : String) (r : ProvisionReport) (w : W)
      → client.finds_tag name w ≡ true
      → ensure_tag client name color (r, w)
        ≡ some (record r { existing_tags = r.existing_tags ++ name ∷ [] }, w)
  unfolding ensure_tag
  ensure_tag-present name color r w h = rw (h, ensure_tag) refl

  ensure_tag-raised :
      (name color : String) (r : ProvisionReport) (w : W)
      → client.finds_tag name w ≡ false
      → client.post_tag name color w ≡ none
      → ensure_tag client name color (r, w) ≡ none
  unfolding ensure_tag
  ensure_tag-raised name color r w h k = rw (h, ensure_tag) (rw k refl)

  ensure_tag-posted :
      (name color : String) (r : ProvisionReport) (w w1 : W)
      → client.finds_tag name w ≡ false
      → client.post_tag name color w ≡ some w1
      → ensure_tag client name color (r, w)
        ≡ some (record r { created_tags = r.created_tags ++ name ∷ [] }, w1)
  unfolding ensure_tag
  ensure_tag-posted name color r w w1 h k = rw (h, ensure_tag) (rw k refl)

  ensure_tag-Tagged :
      (laws : ServerLaws client) (name color : String) (r : ProvisionReport) (w : W)
      (r' : ProvisionReport) (w' : W)
      → ensure_tag client name color (r, w) ≡ some (r', w')
      → Tagged name r w r' w'
  ensure_tag-Tagged laws name color r w r' w' h = elim (Bool-cases (client.finds_tag name w)) [
    | inl there ↦
        let (same, held) = some_pair (sym (ensure_tag-present name color r w there) ∙ h) in
        rw (same, held)
          (record {
            found = there;
            still = λ other k. k;
            same_fields = refl;
            same_complaints = refl;
          })
    | inr missing ↦ elim (Option-cases (client.post_tag name color w)) [
      | inl raised ↦
          absurd (ground (arith, sym (ensure_tag-raised name color r w missing raised) ∙ h))
      | inr (w1, posted) ↦
          let (same, held) =
            some_pair (sym (ensure_tag-posted name color r w w1 missing posted) ∙ h) in
          rw (same, held)
            (record {
              found = laws.tag_shown name color w w1 posted;
              still = λ other k. laws.tag_only name color other w w1 posted k;
              same_fields = laws.tag_no_field name color w w1 posted;
              same_complaints = refl;
            })
    ]
  ]

  -- the tags of a run: both are found behind it, and nothing else changes
  pub record Tags (p : Provisioner) (r : ProvisionReport) (w : W) (r' : ProvisionReport) (w' : W)
      : Type 0 where
    pub first_found : client.finds_tag p.superseded_tag w' ≡ true
    pub second_found : client.finds_tag p.new_taxonomy_tag w' ≡ true
    pub same_fields : client.custom_fields w' ≡ client.custom_fields w
    pub same_complaints : r'.incompatible ≡ r.incompatible

  pub ensure_tags-Tags :
      (laws : ServerLaws client) (p : Provisioner) (r : ProvisionReport) (w : W)
      (r' : ProvisionReport) (w' : W)
      → ensure_tags client p (r, w) ≡ some (r', w')
      → Tags p r w r' w'
  unfolding ensure_tags
  ensure_tags-Tags laws p r w r' w' h =
      let ((r1, w1), (one, two)) =
        bind-some (ensure_tag client p.superseded_tag p.superseded_tag_color (r, w))
          (ensure_tag client p.new_taxonomy_tag p.new_taxonomy_tag_color) (r', w') h in
      let a = ensure_tag-Tagged laws p.superseded_tag p.superseded_tag_color r w r1 w1 one in
      let b = ensure_tag-Tagged laws p.new_taxonomy_tag p.new_taxonomy_tag_color r1 w1 r' w' two in
      record {
        first_found = b.still p.superseded_tag a.found;
        second_found = b.found;
        same_fields = b.same_fields ∙ a.same_fields;
        same_complaints = b.same_complaints ∙ a.same_complaints;
      }

  -- the tags of a run that finds both
  pub ensure_tags-present :
      (p : Provisioner) (r : ProvisionReport) (w : W)
      → client.finds_tag p.superseded_tag w ≡ true
      → client.finds_tag p.new_taxonomy_tag w ≡ true
      → ensure_tags client p (r, w)
        ≡ some (
          record r {
            existing_tags = (r.existing_tags ++ p.superseded_tag ∷ []) ++ p.new_taxonomy_tag ∷ [];
          },
          w,
        )
  unfolding ensure_tags
  ensure_tags-present p r w h k =
      rw (ensure_tag-present p.superseded_tag p.superseded_tag_color r w h)
        (ensure_tag-present p.new_taxonomy_tag p.new_taxonomy_tag_color _ w k)
