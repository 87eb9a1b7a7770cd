-- ===== src/Agent/Metadata/New.antt =====
-- The names that the write of metadata.py creates, counted in the maps of taxonomy.py.
use paperless_assistant.Base.{
  ℕ, ◌+◌, ◌≤◌, ◌≡◌, refl, sym, inl, inr, Bool, true, false, ◌||◌, String, Option, none, some, List,
  [], ◌∷◌, arith, Option-cases, Bool-cases, length, length-append, ltb, ◌==◌, nat_eq, string_eq,
  pair_eq,
}
use paperless_assistant.Base.Text.{strip}
use paperless_assistant.Agent.Fields.{Resolver, metadata_done, stage_option_for_role}
use paperless_assistant.Agent.Stages.{Document}
use paperless_assistant.Agent.Taxonomy.{NameMap, find_name, resolve_or_create}
use paperless_assistant.Agent.Metadata.{
  Metadata, Patch, Taxa, MetadataClient, id_of, add_tags, add_id, tags_loop, finish_patch,
  apply_metadata,
}

abbrev pub size : NameMap → ℕ
size m = length m.lower_names

-- whether one of the three maps has a name more than before
abbrev pub grown : Taxa → Taxa → Bool
grown before after =
    ltb (size before.tags) (size after.tags)
    || (ltb (size before.correspondents) (size after.correspondents)
        || ltb (size before.doc_types) (size after.doc_types))

abbrev one_if : Bool → ℕ
one_if true = 1
one_if false = 0

-- A resolution that gives an id makes the map longer by one name exactly if it says that it is new.
resolve-size :
    (create : String → Option ℕ) (name : String) (m : NameMap) (id : Option ℕ) (new : Bool)
    → id_of (resolve_or_create create name m).0 ≡ some (id, new)
    → size (resolve_or_create create name m).1 ≡ size m + one_if new
unfolding resolve_or_create
resolve-size create name m id new h = elim (Bool-cases (name == "")) [
  | inl empty ↦ simp (empty, resolve_or_create) (ground (arith, h, empty))
  | inr filled ↦ elim (Option-cases (find_name (strip name) m.lower_names)) [
    | inr (known, there) ↦
        simp (filled, there, resolve_or_create) (ground (arith, h, filled, there))
    | inl missing ↦ elim (Option-cases (create (strip name))) [
      | inl broken ↦ absurd (ground (arith, h, filled, missing, broken))
      | inr (made, posted) ↦
          simp (filled, missing, posted, resolve_or_create)
            (ground (
              arith,
              h,
              filled,
              missing,
              posted,
              length-append m.lower_names ((strip name, made) ∷ []),
            ))
    ]
  ]
]

longer :
    (a b : ℕ) (c n c' : Bool) (d : ℕ)
    → b ≡ a + one_if n
    → b ≤ d
    → c' ≡ (c || n) || ltb b d
    → (a ≤ d) × (c' ≡ c || ltb a d)
longer a b true true c' d e f g = ground (arith, e, f, g)
longer a b true false c' d e f g = ground (arith, e, f, g)
longer a b false true c' d e f g = ground (arith, e, f, g)
longer a b false false c' d e f g = ground (arith, e, f, g)

-- what the loop over the tags says that it created, beside what was created before
tags_loop-size :
    (create : String → Option ℕ) (names : List String) (tags : List ℕ) (created : Bool)
    (m : NameMap) (tags' : List ℕ) (created' : Bool)
    → (tags_loop create names tags created m).0 ≡ some (tags', created')
    → (size m ≤ size (tags_loop create names tags created m).1)
      × (created' ≡ created || ltb (size m) (size (tags_loop create names tags created m).1))
unfolding tags_loop
tags_loop-size create [] tags created m tags' created' h = ground (arith, h)
tags_loop-size create (name ∷ names) tags created m tags' created' h =
    elim (Option-cases (id_of (resolve_or_create create name m).0)) [
      | inl broken ↦ absurd (ground (arith, h, broken))
      | inr ((id, new), made) ↦
          let m' = (resolve_or_create create name m).1 in
          let rest =
            tags_loop-size create names (add_id id tags) (created || new) m' tags' created'
              (ground (arith, h, made)) in
          simp (made, tags_loop)
            (longer (size m) (size m') created new created' _
              (resolve-size create name m id new made) rest.0 rest.1)
    ]

-- what is said of the write, where there is no exception: whether a name was created
abbrev pub GrownIfSent : Taxa → Option (Patch × Bool) × Taxa → Type 0
GrownIfSent before (none, after) = Unit
GrownIfSent before (some (patch, created), after) = created ≡ grown before after

three_maps :
    (t t' c c' k k' : ℕ) (new_corr new_type created : Bool)
    → c' ≡ c + one_if new_corr
    → k' ≡ k + one_if new_type
    → created ≡ (new_corr || new_type) || ltb t t'
    → created ≡ ltb t t' || (ltb c c' || ltb k k')
three_maps t t' c c' k k' true true created e f g = ground (arith, e, f, g)
three_maps t t' c c' k k' true false created e f g = ground (arith, e, f, g)
three_maps t t' c c' k k' false true created e f g = ground (arith, e, f, g)
three_maps t t' c c' k k' false false created e f g = ground (arith, e, f, g)

module _ (client : MetadataClient) (r : Resolver) (tag : ℕ) (doc : Document) (meta : Metadata) where
  finish_patch-grown :
      (before taxa : Taxa) (correspondent document_type : Option ℕ × Bool)
      → taxa.tags ≡ before.tags
      → size taxa.correspondents ≡ size before.correspondents + one_if correspondent.1
      → size taxa.doc_types ≡ size before.doc_types + one_if document_type.1
      → GrownIfSent before (finish_patch client r tag doc meta correspondent document_type taxa)
  unfolding finish_patch
  finish_patch-grown before taxa (correspondent, new_corr) (document_type, new_type) same e f =
      elim (Option-cases
        (tags_loop client.create_tag meta.tags (add_tags doc.tags []) (new_corr || new_type)
          taxa.tags).0) [
            | inl broken ↦ simp (broken, finish_patch) tt
            | inr ((tags, created), looped) ↦
                elim (Option-cases (stage_option_for_role metadata_done r)) [
                  | inl exits ↦ simp (looped, exits, finish_patch) tt
                  | inr (stage, written) ↦
                      simp (looped, written, finish_patch)
                        (three_maps (size before.tags) _ (size before.correspondents) _
                          (size before.doc_types) _ new_corr new_type created e f
                          (rw (sym same)
                            (tags_loop-size client.create_tag meta.tags (add_tags doc.tags [])
                              (new_corr || new_type) taxa.tags tags created looped).1))
                ]
          ]

  -- The write says that it created a name exactly if one of the maps has grown.
  pub apply_metadata-grown :
      (taxa : Taxa) → GrownIfSent taxa (apply_metadata client r tag doc meta taxa)
  unfolding apply_metadata
  apply_metadata-grown taxa =
      let corr =
        resolve_or_create client.create_correspondent (strip meta.correspondent)
          taxa.correspondents in
      let kind =
        resolve_or_create client.create_doc_type (strip meta.document_type) taxa.doc_types in
      elim (Option-cases (id_of corr.0)) [
        | inl broken ↦ simp (broken, apply_metadata) tt
        | inr (correspondent, made) ↦ elim (Option-cases (id_of kind.0)) [
          | inl broken ↦ simp (made, broken, apply_metadata) tt
          | inr (document_type, made') ↦
              simp (made, made', apply_metadata)
                (finish_patch-grown taxa _ correspondent document_type refl
                  (resolve-size client.create_correspondent (strip meta.correspondent)
                    taxa.correspondents correspondent.0 correspondent.1 made)
                  (resolve-size client.create_doc_type (strip meta.document_type) taxa.doc_types
                    document_type.0 document_type.1 made'))
        ]
      ]
