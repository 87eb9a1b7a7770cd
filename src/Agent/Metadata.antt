-- ===== src/Agent/Metadata.antt =====
-- src/paperless_assistant/metadata.py: the metadata of one document, its taxonomy and its write. The
-- provider with the validation of its answer and the REST client are parameters; the prompt, the
-- message of a status and the observing hook `on_record` are not modelled.
pub mod Merge
pub mod New
use paperless_assistant.Base.{
  ℕ, zero, suc, refl, inl, inr, Bool, true, false, not, ◌||◌, String, Option, none, some, List, [],
  ◌∷◌, ◌++◌, arith, filter, ltb, nat_beq, ◌==◌, nat_eq, string_eq, pair_eq, if◌then◌else◌,
}
use paperless_assistant.Base.Money.{Usd}
use paperless_assistant.Base.Text.{strip}
use paperless_assistant.Agent.Fields.{metadata_done, Resolver, stage_option_for_role}
use paperless_assistant.Agent.Stages.{CustomField, Document}
use paperless_assistant.Agent.Safety.{Snapshots, snapshot}
use paperless_assistant.Agent.Spend.{SpendGovernor, add, should_abort}
use paperless_assistant.Agent.Taxonomy.{
  NameMap, Resolved, no_name, resolved, not_created, resolve_or_create,
}

-- what `apply_metadata` reads of the extracted metadata
pub record Metadata : Type 0 where
  pub title : String
  pub correspondent : String
  pub document_type : String
  pub tags : List String

-- the body of the PATCH; `none` where a key is not set
pub record Patch : Type 0 where
  pub title : Option String
  pub correspondent : Option ℕ
  pub document_type : Option ℕ
  pub tags : List ℕ
  pub custom_fields : List CustomField

pub record Taxa : Type 0 where
  pub tags : NameMap
  pub correspondents : NameMap
  pub doc_types : NameMap

-- The POSTs of new names, the PATCH, and `_extract`: metadata with its cost, or an exception with
-- what the failed attempts cost.
pub data Extracted : Type 0 where
  extracted : Metadata → Usd → Extracted
  not_extracted : Usd → Extracted

pub record MetadataClient : Type 0 where
  pub create_tag : String → Option ℕ
  pub create_correspondent : String → Option ℕ
  pub create_doc_type : String → Option ℕ
  pub patched : ℕ → Bool
  pub extract : Document → Extracted

-- a resolved name: its id, unless it is none or 0, and whether it is new; `none` is an exception
abbrev pub id_of : Resolved → Option (Option ℕ × Bool)
id_of no_name = some (none, false)
id_of (resolved id new) = some ((if nat_beq id 0 then none else some id), new)
id_of not_created = none

-- a set of tags in ascending order
unfoldable pub add_tag : ℕ → List ℕ → List ℕ
add_tag t [] = t ∷ []
add_tag t (x ∷ xs) =
    let rest = add_tag t xs in
    if nat_beq t x then x ∷ xs else if ltb t x then t ∷ x ∷ xs else x ∷ rest

unfoldable pub add_tags : List ℕ → List ℕ → List ℕ
unfolding add_tag
add_tags [] tags = tags
add_tags (t ∷ ts) tags = add_tags ts (add_tag t tags)

abbrev pub add_id : Option ℕ → List ℕ → List ℕ
add_id none tags = tags
add_id (some id) tags = add_tag id tags

-- the loop over the names of the tags, with the set and the flag of what was created
unfoldable pub tags_loop :
    (String → Option ℕ) → List String → List ℕ → Bool → NameMap → Option (List ℕ × Bool) × NameMap
unfolding resolve_or_create add_tag
tags_loop create [] tags created m = (some (tags, created), m)
tags_loop create (name ∷ names) tags created m =
    let (r, m') = resolve_or_create create name m in
    elim (id_of r) [
      | none ↦ (none, m')
      | some (id, new) ↦ tags_loop create names (add_id id tags) (created || new) m'
    ]

abbrev pub title_of : Metadata → Option String
title_of meta = if strip meta.title == "" then none else some (strip meta.title)

module _ (client : MetadataClient) (r : Resolver) (new_tax_tag_id : ℕ) where
  -- the tags and the rest of the body, once the correspondent and the type are resolved
  unfoldable pub finish_patch :
      Document → Metadata → Option ℕ × Bool → Option ℕ × Bool → Taxa → Option (Patch × Bool) × Taxa
  unfolding tags_loop add_tags
  finish_patch doc meta (correspondent, new_corr) (document_type, new_type) taxa =
      let (looped, m) =
        tags_loop client.create_tag meta.tags (add_tags doc.tags []) (new_corr || new_type)
          taxa.tags in
      let taxa' = record taxa { tags = m } in
      elim looped [
        | none ↦ (none, taxa')
        | some (tags, created) ↦ elim (stage_option_for_role metadata_done r) [
          | none ↦ (none, taxa')
          | some stage ↦ (
            some (
              record {
                title = title_of meta;
                correspondent = correspondent;
                document_type = document_type;
                tags = if created then add_tag new_tax_tag_id tags else tags;
                custom_fields =
                    filter (λ (cf : CustomField). not (nat_beq cf.field r.stage.id))
                      doc.custom_fields
                    ++ record { field = r.stage.id; value = stage } ∷ [];
              },
              created,
            ),
            taxa',
          )
        ]
      ]

  -- the body that `apply_metadata` sends and whether it created a name; `none` is an exception
  unfoldable pub apply_metadata : Document → Metadata → Taxa → Option (Patch × Bool) × Taxa
  unfolding resolve_or_create finish_patch strip
  apply_metadata doc meta taxa =
      let (corr, corrs) =
        resolve_or_create client.create_correspondent (strip meta.correspondent)
          taxa.correspondents in
      let (kind, kinds) =
        resolve_or_create client.create_doc_type (strip meta.document_type) taxa.doc_types in
      let taxa1 = record taxa { correspondents = corrs } in
      let taxa2 = record taxa1 { doc_types = kinds } in
      elim (id_of corr) [
        | none ↦ (none, taxa1)
        | some correspondent ↦ elim (id_of kind) [
          | none ↦ (none, taxa2)
          | some document_type ↦ finish_patch doc meta correspondent document_type taxa2
        ]
      ]

pub data MetadataStatus : Type 0 where
  spend_cap failed dry : MetadataStatus
  done : Bool → MetadataStatus

pub record MetadataState : Type 0 where
  pub snapshots : Snapshots
  pub spend : SpendGovernor
  pub taxa : Taxa
  pub patches : List (ℕ × Patch)

module _ (client : MetadataClient) (r : Resolver) (new_tax_tag_id : ℕ) (doc : Document) where
  -- `apply_metadata` with its PATCH, and the status
  unfoldable pub write_metadata : Metadata → MetadataState → MetadataStatus × MetadataState
  unfolding apply_metadata
  write_metadata meta s =
      let (applied, taxa) = apply_metadata client r new_tax_tag_id doc meta s.taxa in
      elim applied [
        | none ↦ (failed, record s { taxa = taxa })
        | some (patch, created) ↦ (
          if client.patched doc.id then done created else failed,
          record s { taxa = taxa; patches = s.patches ++ (doc.id, patch) ∷ [] },
        )
      ]

  unfoldable pub process_one : Bool → MetadataState → MetadataStatus × MetadataState
  unfolding snapshot should_abort add write_metadata
  process_one dry_run s =
      let s' = record s { snapshots = snapshot doc s.snapshots } in
      if should_abort s.spend then (spend_cap, s) else elim (client.extract doc) [
        | not_extracted spent ↦ (failed, record s' { spend = add spent s.spend })
        | extracted meta cost ↦
            let s'' = record s' { spend = add cost s.spend } in
            if dry_run then (dry, s'') else write_metadata meta s''
      ]
